-- ===== src/Grammar/Parser/Kept.antt =====
-- grammar.cpp, ParseGrammarLine: each step of the machine keeps the grammar's references whole.
use jackalope.Prelude.{
  ℕ, suc, ◌≡◌, refl, inl, inr, Option, none, some, List, [], ◌∷◌, Bool, true, false, ◌==◌,
  if◌then◌else◌, length, Bool-cases, Option-cases, arith,
}
use jackalope.Prelude.Memory.{Bytes, ◌>>=◌}
use jackalope.Prelude.Predicates.{All, All-append, All-weaken}
use jackalope.Grammar.Tree.{string_type, symbol_type}
use jackalope.Grammar.Rules.{
  RulePart, Rule, Symbol, Symbols, find, id_key, read_id, change, use_symbol, get_or_create,
  Reading, symbol_part, add_text, add_string, add_symbol, add_hex, add_named, hex_string,
  add_rule_part, constants, after_prefix, hex_prefix,
}
use jackalope.Grammar.Parser.{
  ParseState, Line, Parsed, add_part, parse_char, is_space, nonempty, begin_part, step_string,
  step_symbol, step_generator, step_attr_name, step_attr_value, next, set_generates, put_attribute,
  symbol, symbol_end, string, line_start, generator_symbol, generator_symbol_end, equal,
  equal_space, symbol_space, attr_name, attr_value,
}
use jackalope.Grammar.Parser.Complete.{
  Refers, Known-change, Known-create_symbol, Known-create_symbol_self, All-change,
  create_symbol-Refers,
}
use jackalope.Grammar.Generate.Derivations.{Known, KnownPart, KnownRule}

-- No symbol is lost.
abbrev pub Grows : Symbols → Symbols → Type 0
Grows symbols later = (name : Bytes) → Known symbols name → Known later name

abbrev pub RefersInside : Symbols → Type 0
RefersInside symbols = All (Refers symbols) symbols

module _ (symbols later : Symbols) (grows : Grows symbols later) where
  pub KnownPart-Grows : (p : RulePart) → KnownPart symbols p → KnownPart later p
  KnownPart-Grows p (inl text) = inl text
  KnownPart-Grows p (inr known) = inr (grows p.value known)

  pub KnownRule-Grows : (rule : Rule) → KnownRule symbols rule → KnownRule later rule
  KnownRule-Grows rule = All-weaken (KnownPart symbols) (KnownPart later) rule.parts KnownPart-Grows

  pub Refers-Grows : (s : Symbol) → Refers symbols s → Refers later s
  Refers-Grows s (inl single, rules) = (
    inl single,
    All-weaken (KnownRule symbols) (KnownRule later) s.generators KnownRule-Grows rules,
  )
  Refers-Grows s (inr known, rules) = (
    inr (grows s.repeat_symbol known),
    All-weaken (KnownRule symbols) (KnownRule later) s.generators KnownRule-Grows rules,
  )

-- A symbol is created if it is new, and then changed.
module _ (name : Bytes) (f : Symbol → Symbol) (keeps : (s : Symbol) → (f s).name ≡ s.name)
    (symbols : Symbols) where
  abbrev pub changed : Symbols
  changed = change name f (get_or_create name symbols)

  pub changed-Grows : Grows symbols changed
  changed-Grows other k =
      Known-change f keeps other name (get_or_create name symbols)
        (Known-create_symbol (suc (length name)) name other symbols k)

  pub Known-changed : Known changed name
  Known-changed =
      Known-change f keeps name name (get_or_create name symbols)
        (Known-create_symbol_self (length name) name symbols)

  pub changed-RefersInside :
      ((s : Symbol) → Refers changed s → Refers changed (f s))
      → RefersInside symbols
      → RefersInside changed
  changed-RefersInside fits h =
      All-change (Refers changed) f name (get_or_create name symbols) fits (
        create_symbol-Refers changed (suc (length name)) name symbols (omega arith)
          (λ n k. Known-change f keeps n name (get_or_create name symbols) k)
          (All-weaken (Refers symbols) (Refers changed) symbols
            (Refers-Grows symbols changed changed-Grows) h))

-- What was read refers to symbols that exist.
abbrev pub IsWhole : Reading → Type 0
IsWhole r = RefersInside r.symbols × All (KnownPart r.symbols) r.rule.parts

abbrev Keeps : Option Reading → Type 0
Keeps none = Unit
Keeps (some r) = IsWhole r

add_text-KnownPart :
    (symbols : Symbols) (t : Bytes) (ps : List RulePart)
    → All (KnownPart symbols) ps
    → All (KnownPart symbols) (add_text t ps)
unfolding add_text
add_text-KnownPart symbols t [] h = (inl refl, tt)
add_text-KnownPart symbols t (p ∷ []) h = elim (Bool-cases (p.type == string_type)) [
  | inl merge ↦ rw merge (inl (ground arith), tt)
  | inr apart ↦ rw apart (h.0, (inl refl, tt))
]
add_text-KnownPart symbols t (p ∷ (q ∷ ps)) h = (h.0, add_text-KnownPart symbols t (q ∷ ps) h.1)

add_string-Keeps : (t : Bytes) (r : Reading) → IsWhole r → Keeps (add_string t r)
add_string-Keeps t r w = (w.0, add_text-KnownPart r.symbols t r.rule.parts w.1)

add_symbol-Keeps : (n : Bytes) (r : Reading) → IsWhole r → Keeps (add_symbol n r)
add_symbol-Keeps n r w = elim (Option-cases (read_id (find id_key r.attributes))) [
  | inl wrong ↦ rw wrong tt
  | inr (id, e) ↦ rw e (
    changed-RefersInside n use_symbol (λ s. refl) r.symbols (λ s h. h) w.0,
    All-append (KnownPart (changed n use_symbol (λ s. refl) r.symbols)) r.rule.parts
        (symbol_part n id r.attributes ∷ [])
        (All-weaken (KnownPart r.symbols) (KnownPart (changed n use_symbol (λ s. refl) r.symbols))
          r.rule.parts
          (KnownPart-Grows r.symbols (changed n use_symbol (λ s. refl) r.symbols)
            (changed-Grows n use_symbol (λ s. refl) r.symbols))
          w.1)
        (inr (Known-changed n use_symbol (λ s. refl) r.symbols), tt),
  )
]

add_hex-Keeps :
    (digits : Option Bytes) (n : Bytes) (r : Reading) → IsWhole r → Keeps (add_hex digits n r)
add_hex-Keeps none n r w = add_symbol-Keeps n r w
add_hex-Keeps (some digits) n r w = elim (Option-cases (hex_string n)) [
  | inl wrong ↦ rw wrong tt
  | inr (t, e) ↦ rw e (add_string-Keeps t r w)
]

add_named-Keeps :
    (text : Option Bytes) (n : Bytes) (r : Reading) → IsWhole r → Keeps (add_named text n r)
add_named-Keeps (some text) n r w = add_string-Keeps text r w
add_named-Keeps none n r w = add_hex-Keeps (after_prefix hex_prefix n) n r w

add_rule_part-Keeps :
    (type : ℕ) (n : Bytes) (r : Reading) → IsWhole r → Keeps (add_rule_part type n r)
unfolding add_rule_part
add_rule_part-Keeps type n r w = elim (Bool-cases (type == symbol_type)) [
  | inl named ↦ rw named (add_named-Keeps (find n constants) n r w)
  | inr plain ↦ rw plain (add_string-Keeps n r w)
]

-- The same for a step of the machine.
abbrev pub StepKeeps : Parsed → Type 0
StepKeeps none = Unit
StepKeeps (some (state, l)) = IsWhole l.reading

if_both : (P : Parsed → Type 0) (b : Bool) {x y : Parsed} → P x → P y → P (if b then x else y)
if_both P true hx hy = hx
if_both P false hx hy = hy

bind_both :
    {A : Type 0} (o : Option A) (f : A → Parsed) → ((a : A) → StepKeeps (f a)) → StepKeeps (o >>= f)
bind_both none f h = tt
bind_both (some a) f h = h a

bind_read :
    (o : Option Reading) (state : ParseState) (l : Line)
    → Keeps o
    → StepKeeps (o >>= λ r. some (state, record l { reading = r }))
bind_read none state l h = tt
bind_read (some r) state l h = h

add_part-Keeps :
    (type : ℕ) (value : Bytes) (state : ParseState) (l : Line)
    → IsWhole l.reading
    → StepKeeps (add_part type value state l)
add_part-Keeps type value state l w =
    bind_read (add_rule_part type value l.reading) state l
      (add_rule_part-Keeps type value l.reading w)

begin_part-Keeps :
    (state : ParseState) (c : ℕ) (l : Line) → IsWhole l.reading → StepKeeps (begin_part state c l)
unfolding begin_part
begin_part-Keeps state c l w = if_both StepKeeps (c == b'<') w (if_both StepKeeps (c == 0) w w)

pub parse_char-Keeps :
    (state : ParseState) (c : ℕ) (l : Line) → IsWhole l.reading → StepKeeps (parse_char state c l)
unfolding parse_char step_string step_symbol step_generator step_attr_name step_attr_value
parse_char-Keeps line_start c l w =
    if_both StepKeeps (is_space c) w (if_both StepKeeps (c == b'<') w tt)
parse_char-Keeps generator_symbol c l w =
    if_both StepKeeps (c == b'>')
      (bind_both (nonempty l.word) (λ name. some (generator_symbol_end, set_generates name l))
        (λ name. w))
      (if_both StepKeeps (c == 0) tt w)
parse_char-Keeps generator_symbol_end c l w =
    if_both StepKeeps (is_space c) w (if_both StepKeeps (c == b'=') w tt)
parse_char-Keeps equal c l w = if_both StepKeeps (is_space c) w (begin_part-Keeps equal c l w)
parse_char-Keeps equal_space c l w = begin_part-Keeps equal_space c l w
parse_char-Keeps symbol c l w =
    if_both StepKeeps (is_space c)
      (bind_both (nonempty l.word) (λ name. some (symbol_space, record l { symbolname = name }))
        (λ name. w))
      (if_both StepKeeps (c == b'>')
        (bind_both (nonempty l.word) (λ name. add_part symbol_type name symbol_end l)
          (λ name. add_part-Keeps symbol_type name symbol_end l w))
        (if_both StepKeeps (c == 0) tt w))
parse_char-Keeps symbol_end c l w = begin_part-Keeps symbol_end c l w
parse_char-Keeps string c l w =
    if_both StepKeeps (c == b'<') (add_part-Keeps string_type l.word symbol (next l) w)
      (if_both StepKeeps (c == 0) (add_part-Keeps string_type l.word string l w) w)
parse_char-Keeps symbol_space c l w = if_both StepKeeps (is_space c) w (
    if_both StepKeeps (c == b'>') (add_part-Keeps symbol_type l.symbolname symbol_end l w)
      (if_both StepKeeps (c == 0) tt w))
parse_char-Keeps attr_name c l w =
    if_both StepKeeps (is_space c)
      (bind_both (nonempty l.word) (λ name. some (symbol_space, put_attribute name [] l))
        (λ name. w))
      (if_both StepKeeps (c == b'=')
        (bind_both (nonempty l.word)
          (λ name. some (attr_value, next (record l { attrname = name }))) (λ name. w))
        (if_both StepKeeps (c == b'>')
          (bind_both (nonempty l.word)
            (λ name. add_part symbol_type l.symbolname symbol_end (put_attribute name [] l))
            (λ name.
              add_part-Keeps symbol_type l.symbolname symbol_end (put_attribute name [] l) w))
          (if_both StepKeeps (c == 0) tt w)))
parse_char-Keeps attr_value c l w = if_both StepKeeps (is_space c) w (
    if_both StepKeeps (c == b'>')
      (add_part-Keeps symbol_type l.symbolname symbol_end (put_attribute l.attrname l.word l) w)
      (if_both StepKeeps (c == 0) tt w))
