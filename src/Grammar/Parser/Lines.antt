-- ===== src/Grammar/Parser/Lines.antt =====
-- grammar.cpp, ParseGrammarLine: a line with blanks and a comment behind a rule.
use jackalope.Prelude.{
  ℕ, subst, ◌⊎◌, inl, inr, ◌≡◌, ◌≢◌, refl, sym, ap, ◌∙◌, Option, some, List, [], ◌∷◌, ◌++◌, Bool,
  true, false, not, ◌==◌, map, append_assoc, append-nil, arith,
}
use jackalope.Prelude.Memory.{Bytes, ◌>>=◌}
use jackalope.Prelude.Predicates.{All}
use jackalope.Grammar.Rules.{
  RulePart, Rule, Symbols, change, use_symbol, get_or_create, Reading, add_generator,
}
use jackalope.Grammar.Parser.{
  is_space, before_comment, trim_end, unless_blank, parse_clean, parse_grammar_line, add_rule,
}
use jackalope.Grammar.Parser.RoundTrip.{
  Piece, text, ref, piece_part, write_rule, IsNameChar, AreWritable, add_pieces,
}
use jackalope.Grammar.Parser.Pieces.{read_rule, read_empty_rule, empty_rule}

abbrev NotHash : ℕ → Type 0
NotHash c = (c == b'#') ≡ false

before_comment-append :
    (t tail : Bytes) → All NotHash t → before_comment (t ++ tail) ≡ t ++ before_comment tail
unfolding before_comment
before_comment-append [] tail h = refl
before_comment-append (c ∷ t) tail h =
    rw h.0 (ap (λ (l : Bytes). c ∷ l) (before_comment-append t tail h.1))

abbrev IsBlank : ℕ → Type 0
IsBlank c = is_space c ≡ true

abbrev pub ends_visibly : Bool → Bytes → Bool
ends_visibly before [] = before
ends_visibly before (c ∷ t) = ends_visibly (not (is_space c)) t

trim_end_blank : (blanks : Bytes) → All IsBlank blanks → trim_end blanks ≡ []
unfolding trim_end
trim_end_blank [] h = refl
trim_end_blank (c ∷ blanks) h = rw (trim_end_blank blanks h.1, h.0) refl

trim_end-append :
    (t blanks : Bytes)
    → All IsBlank blanks
    → ends_visibly false t ≡ true
    → trim_end (t ++ blanks) ≡ t
unfolding trim_end
trim_end-append [] blanks h v = cc
trim_end-append (c ∷ []) blanks h v =
    let visible : is_space c ≡ false = ground arith in rw (trim_end_blank blanks h, visible) refl
trim_end-append (c ∷ (d ∷ t)) blanks h v = ap (unless_blank c) (trim_end-append (d ∷ t) blanks h v)

-- The symbols that the pieces name, created where they are new, and used.
abbrev pub declare : List Piece → Symbols → Symbols
declare [] symbols = symbols
declare (text t ∷ ps) symbols = declare ps symbols
declare (ref n ∷ ps) symbols = declare ps (change n use_symbol (get_or_create n symbols))

abbrev pub rule_of : Bytes → List RulePart → Rule
rule_of name parts = record { generates = name; parts = parts }

abbrev read_as : Bytes → List RulePart → Symbols → Reading
read_as name parts symbols = record {
  symbols = symbols;
  rule = rule_of name parts;
  attributes = [];
}

add_pieces_lem :
    (ps : List Piece) (name : Bytes) (parts : List RulePart) (symbols : Symbols)
    → add_pieces ps (read_as name parts symbols)
      ≡ read_as name (parts ++ map piece_part ps) (declare ps symbols)
add_pieces_lem [] name parts symbols =
    ap (λ (l : List RulePart). read_as name l symbols) (sym (append-nil parts))
add_pieces_lem (text t ∷ ps) name parts symbols =
    add_pieces_lem ps name (parts ++ (piece_part (text t) ∷ [])) symbols
    ∙ ap (λ (l : List RulePart). read_as name l (declare ps symbols))
        (append_assoc parts (piece_part (text t) ∷ []) (map piece_part ps))
add_pieces_lem (ref n ∷ ps) name parts symbols =
    add_pieces_lem ps name (parts ++ (piece_part (ref n) ∷ []))
      (change n use_symbol (get_or_create n symbols))
    ∙ ap (λ (l : List RulePart). read_as name l (declare (ref n ∷ ps) symbols))
        (append_assoc parts (piece_part (ref n) ∷ []) (map piece_part ps))

ends_visibly-append :
    (before : Bool) (t : Bytes) (c : ℕ)
    → is_space c ≡ false
    → ends_visibly before (t ++ (c ∷ [])) ≡ true
ends_visibly-append before [] c h = rw h refl
ends_visibly-append before (d ∷ t) c h = ends_visibly-append (not (is_space d)) t c h

-- The left side of a rule without pieces, behind which the blank is trimmed.
trim_end-empty_rule :
    (name blanks : Bytes)
    → All IsBlank blanks
    → trim_end (write_rule name [] ++ blanks) ≡ empty_rule name
trim_end-empty_rule name blanks h =
    let left = b'<' ∷ (name ++ (b'>' ∷ (32 ∷ []))) in
    let shape : left ++ (b'=' ∷ []) ≡ empty_rule name =
      ap (λ (t : Bytes). b'<' ∷ t) (append_assoc name (b'>' ∷ (32 ∷ [])) (b'=' ∷ [])) in
    let all : empty_rule name ++ (32 ∷ blanks) ≡ write_rule name [] ++ blanks =
      ap (λ (t : Bytes). b'<' ∷ t)
        (append_assoc name (b'>' ∷ (32 ∷ (b'=' ∷ []))) (32 ∷ blanks)
          ∙ sym (append_assoc name (b'>' ∷ (32 ∷ (b'=' ∷ (32 ∷ [])))) blanks)) in
    ap trim_end (sym all)
    ∙ trim_end-append (empty_rule name) (32 ∷ blanks) (refl, h)
        (subst (λ (t : Bytes). ends_visibly false t ≡ true) shape
          (ends_visibly-append false left b'=' refl))

-- A rule that is written as `<name> = ` and its pieces, of which there may be none, with blanks
-- and a comment or nothing behind it, is read: its symbol gets a generator with just these pieces
-- as its parts, and the symbols that the pieces name are created and marked as used. The names are
-- not empty, are no constants and no hexadecimal digits, and hold no blank, `>` or 0; texts are not
-- empty, hold no `<` or 0 and do not stand side by side; the rule as written holds no `#` and, if
-- it has pieces, does not end in a blank.
pub parse_grammar_line-write_rule :
    (name : Bytes) (ps : List Piece) (blanks tail : Bytes) (symbols : Symbols)
    → name ≢ []
    → All IsNameChar name
    → AreWritable false ps
    → All NotHash (write_rule name ps)
    → ((ps ≡ []) ⊎ (ends_visibly false (write_rule name ps) ≡ true))
    → All IsBlank blanks
    → before_comment (blanks ++ tail) ≡ blanks
    → parse_grammar_line (write_rule name ps ++ (blanks ++ tail)) symbols
      ≡ some (
          change name
            (add_generator (rule_of name (map piece_part ps)))
            (get_or_create name (declare ps symbols)))
unfolding parse_grammar_line
parse_grammar_line-write_rule name ps blanks tail symbols ne chars w nohash (inr visible) blank
      comment =
    ap (λ (t : Bytes). parse_clean (trim_end t) symbols)
      (before_comment-append (write_rule name ps) (blanks ++ tail) nohash
        ∙ ap (λ (t : Bytes). write_rule name ps ++ t) comment)
    ∙ ap (λ (t : Bytes). parse_clean t symbols)
        (trim_end-append (write_rule name ps) blanks blank visible)
    ∙ ap (λ (o : Option Reading). o >>= λ r. some (add_rule r))
        (read_rule name ps symbols ne chars w
          ∙ ap (λ (r : Reading). some r) (add_pieces_lem ps name [] symbols))
parse_grammar_line-write_rule name [] blanks tail symbols ne chars w nohash (inl e) blank comment =
    ap (λ (t : Bytes). parse_clean (trim_end t) symbols)
      (before_comment-append (write_rule name []) (blanks ++ tail) nohash
        ∙ ap (λ (t : Bytes). write_rule name [] ++ t) comment)
    ∙ ap (λ (t : Bytes). parse_clean t symbols) (trim_end-empty_rule name blanks blank)
    ∙ ap (λ (o : Option Reading). o >>= λ r. some (add_rule r))
        (read_empty_rule name symbols ne chars)
parse_grammar_line-write_rule name (p ∷ ps) blanks tail symbols ne chars w nohash (inl e) blank
      comment =
    cc
