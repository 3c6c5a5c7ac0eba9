-- ===== src/Grammar/Parser/Grammars.antt =====
-- grammar.cpp, Grammar::Read: a grammar that is read without an error can generate.
use jackalope.Prelude.{
  ℕ, ◌<◌, ◌≡◌, refl, subst, ◌⊎◌, inl, inr, none, some, List, [], ◌∷◌, true, false, not, ◌&&◌, ◌==◌,
  length, Bool-cases, Option-cases, some_eq, not_both, arith,
}
use jackalope.Prelude.Memory.{Bytes}
use jackalope.Prelude.Predicates.{All, All-append, All-weaken}
use jackalope.Grammar.Rules.{Symbol, Symbols, same_text, get_symbol, add_generator, Reading}
use jackalope.Grammar.Parser.{
  ParseState, Line, start_line, line_start, parse_char, parse_chars, add_rule, parse_clean,
  parse_grammar_line, before_comment, trim_end, read_lines, is_empty, any_empty, analyze_grammar,
  check_grammar, read_grammar,
}
use jackalope.Grammar.Parser.Complete.{Refers}
use jackalope.Grammar.Parser.Kept.{
  Grows, RefersInside, Refers-Grows, KnownPart-Grows, changed-RefersInside, changed-Grows, IsWhole,
  StepKeeps, parse_char-Keeps,
}
use jackalope.Grammar.Generate.Derivations.{Known, KnownPart, KnownRule, CanGrow, IsComplete}

parse_chars_nil :
    (state : ParseState) (l : Line) {r : Reading}
    → parse_chars state l [] ≡ some r
    → (p : ParseState × Line) × (parse_char state 0 l ≡ some p) × (p.1.reading ≡ r)
unfolding parse_chars
parse_chars_nil state l {r} e = elim (Option-cases (parse_char state 0 l)) [
  | inl wrong ↦ let f : none ≡ some r = rw wrong at e in cc
  | inr (p, ok) ↦ (p, ok, some_eq (rw ok at e))
]

parse_chars_cons :
    (state : ParseState) (l : Line) (c : ℕ) (text : Bytes) {r : Reading}
    → parse_chars state l (c ∷ text) ≡ some r
    → (p : ParseState × Line) × (parse_char state c l ≡ some p)
      × ((p.1.reading ≡ r) ⊎ (parse_chars p.0 p.1 text ≡ some r))
unfolding parse_chars
parse_chars_cons state l c text {r} e = elim (Option-cases (parse_char state c l)) [
  | inl wrong ↦ let f : none ≡ some r = rw wrong at e in cc
  | inr (p, ok) ↦ elim (Bool-cases (c == 0)) [
    | inl end ↦ (p, ok, inl (some_eq (rw (ok, end) at e)))
    | inr on ↦ (p, ok, inr (rw (ok, on) at e))
  ]
]

parse_char-IsWhole :
    (state : ParseState) (c : ℕ) (l : Line) {p : ParseState × Line}
    → IsWhole l.reading
    → parse_char state c l ≡ some p
    → IsWhole p.1.reading
parse_char-IsWhole state c l w e = subst StepKeeps e (parse_char-Keeps state c l w)

parse_chars-IsWhole :
    (text : Bytes) (state : ParseState) (l : Line) {r : Reading}
    → IsWhole l.reading
    → parse_chars state l text ≡ some r
    → IsWhole r
parse_chars-IsWhole [] state l w e =
    let (p, ok, same) = parse_chars_nil state l e in
    subst IsWhole same (parse_char-IsWhole state 0 l w ok)
parse_chars-IsWhole (c ∷ text) state l w e =
    let (p, ok, later) = parse_chars_cons state l c text e in
    elim later [
      | inl same ↦ subst IsWhole same (parse_char-IsWhole state c l w ok)
      | inr rest ↦ parse_chars-IsWhole text p.0 p.1 (parse_char-IsWhole state c l w ok) rest
    ]

add_rule-RefersInside : (r : Reading) → IsWhole r → RefersInside (add_rule r)
add_rule-RefersInside r w =
    changed-RefersInside r.rule.generates (add_generator r.rule) (λ s. refl) r.symbols
      (λ s h. (
        h.0,
        All-append (KnownRule (add_rule r)) s.generators (r.rule ∷ []) h.1 (
          All-weaken (KnownPart r.symbols) (KnownPart (add_rule r)) r.rule.parts
              (KnownPart-Grows r.symbols (add_rule r)
                (changed-Grows r.rule.generates (add_generator r.rule) (λ s. refl) r.symbols))
              w.1,
          tt,
        ),
      ))
      w.0

parse_clean-RefersInside :
    (line : Bytes) (symbols : Symbols) {later : Symbols}
    → RefersInside symbols
    → parse_clean line symbols ≡ some later
    → RefersInside later
parse_clean-RefersInside [] symbols h e = subst RefersInside (some_eq e) h
parse_clean-RefersInside (c ∷ line) symbols {later} h e =
    elim (Option-cases (parse_chars line_start (start_line symbols) (c ∷ line))) [
      | inl wrong ↦ let f : none ≡ some later = rw wrong at e in cc
      | inr (r, ok) ↦ subst RefersInside (some_eq (rw ok at e)) (
          add_rule-RefersInside r
            (parse_chars-IsWhole (c ∷ line) line_start (start_line symbols) (h, tt) ok))
    ]

read_lines_cons :
    (line : Bytes) (lines : List Bytes) (symbols : Symbols) {later : Symbols}
    → read_lines (line ∷ lines) symbols ≡ some later
    → (s : Symbols) × (parse_grammar_line line symbols ≡ some s) × (read_lines lines s ≡ some later)
unfolding read_lines
read_lines_cons line lines symbols {later} e =
    elim (Option-cases (parse_grammar_line line symbols)) [
      | inl wrong ↦ let f : none ≡ some later = rw wrong at e in cc
      | inr (s, ok) ↦ (s, ok, rw ok at e)
    ]

read_lines_nil :
    (symbols : Symbols) {later : Symbols} → read_lines [] symbols ≡ some later → symbols ≡ later
unfolding read_lines
read_lines_nil symbols e = some_eq e

read_lines-RefersInside :
    (lines : List Bytes) (symbols : Symbols) {later : Symbols}
    → RefersInside symbols
    → read_lines lines symbols ≡ some later
    → RefersInside later
unfolding parse_grammar_line
read_lines-RefersInside [] symbols h e = subst RefersInside (read_lines_nil symbols e) h
read_lines-RefersInside (line ∷ lines) symbols h e =
    let (s, ok, rest) = read_lines_cons line lines symbols e in
    read_lines-RefersInside lines s
      (parse_clean-RefersInside (trim_end (before_comment line)) symbols h ok) rest

analyze_grammar-Grows : (symbols : Symbols) → Grows symbols (analyze_grammar symbols)
unfolding analyze_grammar get_symbol
analyze_grammar-Grows [] name k = k
analyze_grammar-Grows (q ∷ symbols) name (s, e) = elim (Bool-cases (same_text q.name name)) [
  | inl same ↦ (record q { can_be_empty = any_empty q.generators }, rw same refl)
  | inr other ↦
      let (t, g) = analyze_grammar-Grows symbols name (s, rw other at e) in (t, rw other g)
]

analyze_grammar-All :
    (known symbols : Symbols)
    → All (Refers known) symbols
    → All (Refers known) (analyze_grammar symbols)
unfolding analyze_grammar
analyze_grammar-All known [] h = tt
analyze_grammar-All known (q ∷ symbols) h = (h.0, analyze_grammar-All known symbols h.1)

length-is_empty : {A : Type 0} (l : List A) → is_empty l ≡ false → 0 < length l
length-is_empty [] h = cc
length-is_empty (x ∷ l) h = omega arith

can_grow :
    (known : Symbols) (s : Symbol)
    → Refers known s
    → (is_empty s.generators && not s.repeat) ≡ false
    → CanGrow known s
can_grow known s r c = elim (Bool-cases s.repeat) [
  | inl again ↦
      let named : Known known s.repeat_symbol = elim (r.0) [
        | inl single ↦ absurd (not_both again single)
        | inr k ↦ k
      ] in
      inl (again, named)
  | inr single ↦
      let some_rule : is_empty s.generators ≡ false = ground arith in
      inr (single, length-is_empty s.generators some_rule, r.1)
]

check_grammar-All :
    (known symbols : Symbols)
    → All (Refers known) symbols
    → check_grammar symbols ≡ true
    → All (CanGrow known) symbols
unfolding check_grammar
check_grammar-All known [] h c = tt
check_grammar-All known (q ∷ symbols) h c =
    (can_grow known q h.0 (ground arith), check_grammar-All known symbols h.1 (ground arith))

read_grammar-eq-some :
    (lines : List Bytes) {symbols : Symbols}
    → read_grammar lines ≡ some symbols
    → (s : Symbols) × (read_lines lines [] ≡ some s)
      × (check_grammar (analyze_grammar s) ≡ true)
      × (analyze_grammar s ≡ symbols)
unfolding read_grammar
read_grammar-eq-some lines {symbols} e = elim (Option-cases (read_lines lines [])) [
  | inl wrong ↦ let f : none ≡ some symbols = rw wrong at e in cc
  | inr (s, ok) ↦ elim (Bool-cases (check_grammar (analyze_grammar s))) [
    | inr wrong ↦ let f : none ≡ some symbols = rw (ok, wrong) at e in cc
    | inl good ↦ (s, ok, good, some_eq (rw (ok, good) at e))
  ]
]

-- All rules of all symbols name symbols of the grammar.
abbrev pub AllNamed : Symbols → Type 0
AllNamed symbols = All (λ (s : Symbol). All (KnownRule symbols) s.generators) symbols

-- When Grammar::Read returns 1, each symbol of the grammar repeats a symbol that exists or has a
-- rule, and all rules name symbols that exist: GenerateTree never divides by a number of 0 rules
-- and never follows the NULL pointer of a missing symbol.
pub read_grammar-IsComplete :
    (lines : List Bytes) {symbols : Symbols}
    → read_grammar lines ≡ some symbols
    → IsComplete symbols × AllNamed symbols
read_grammar-IsComplete lines {symbols} e =
    let (s, ok, checked, same) = read_grammar-eq-some lines e in
    let whole : RefersInside s = read_lines-RefersInside lines [] tt ok in
    let whole' : RefersInside (analyze_grammar s) = analyze_grammar-All (analyze_grammar s) s (
      All-weaken (Refers s) (Refers (analyze_grammar s)) s
        (Refers-Grows s (analyze_grammar s) (analyze_grammar-Grows s)) whole) in
    subst (λ (g : Symbols). IsComplete g × AllNamed g) same
      (
        check_grammar-All (analyze_grammar s) (analyze_grammar s) whole' checked,
        All-weaken (Refers (analyze_grammar s))
            (λ (q : Symbol). All (KnownRule (analyze_grammar s)) q.generators) (analyze_grammar s)
            (λ q h. h.1) whole',
      )
