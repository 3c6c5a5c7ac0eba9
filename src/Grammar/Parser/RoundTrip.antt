-- ===== src/Grammar/Parser/RoundTrip.antt =====
-- grammar.cpp, ParseGrammarLine: a rule that is written out is read back.
use jackalope.Prelude.{
  ℕ, ◌≡◌, ◌≢◌, refl, sym, ap, ◌∙◌, none, some, List, [], ◌∷◌, ◌++◌, Bool, true, false, ◌||◌, ◌==◌,
  append_assoc, append-nil, arith,
}
use jackalope.Prelude.Memory.{Bytes}
use jackalope.Prelude.Predicates.{All}
use jackalope.Grammar.Rules.{
  find, RulePart, change, use_symbol, get_or_create, Reading, string_part, symbol_part, with_parts,
  after_prefix, hex_prefix, constants,
}
use jackalope.Grammar.Parser.{
  ParseState, generator_symbol, symbol, string, Line, is_space, more, parse_char, parse_chars,
}

-- A piece of the right side of a rule.
pub data Piece : Type 0 where
  text : Bytes → Piece
  ref : Bytes → Piece

abbrev pub piece_part : Piece → RulePart
piece_part (text t) = string_part t
piece_part (ref n) = symbol_part n 0 []

abbrev pub write_piece : Piece → Bytes
write_piece (text t) = t
write_piece (ref n) = b'<' ∷ (n ++ (b'>' ∷ []))

abbrev pub write_pieces : List Piece → Bytes
write_pieces [] = []
write_pieces (text t ∷ ps) = t ++ write_pieces ps
write_pieces (ref n ∷ ps) = b'<' ∷ (n ++ (b'>' ∷ write_pieces ps))

-- `<name> = pieces`
abbrev pub write_rule : Bytes → List Piece → Bytes
write_rule name ps = b'<' ∷ (name ++ (b'>' ∷ (32 ∷ (b'=' ∷ (32 ∷ write_pieces ps)))))

-- A character of a text: not the start of a symbol, of a comment, or the end of the line.
abbrev pub IsPlain : ℕ → Type 0
IsPlain c = (c == b'<' || c == 0) ≡ false

-- A character of a name.
abbrev pub IsNameChar : ℕ → Type 0
IsNameChar c = (is_space c || c == b'>' || c == 0) ≡ false

-- A name that stands for a symbol, not for a constant or for hexadecimal digits.
abbrev pub IsSymbolName : Bytes → Type 0
IsSymbolName n =
    (n ≢ []) × All IsNameChar n × (find n constants ≡ none) × (after_prefix hex_prefix n ≡ none)

-- Texts are not empty and do not stand side by side.
abbrev pub AreWritable : Bool → List Piece → Type 0
AreWritable before [] = Unit
AreWritable before (text t ∷ ps) = (before ≡ false) × (t ≢ []) × All IsPlain t × AreWritable true ps
AreWritable before (ref n ∷ ps) = IsSymbolName n × AreWritable false ps

-- What the reading of the pieces adds: their parts, and the symbols they name, which are used.
abbrev pub add_piece : Piece → Reading → Reading
add_piece (text t) r = with_parts (r.rule.parts ++ (string_part t ∷ [])) r
add_piece (ref n) r = record {
  symbols = change n use_symbol (get_or_create n r.symbols);
  rule = record (r.rule) { parts = r.rule.parts ++ (symbol_part n 0 [] ∷ []) };
  attributes = [];
}

abbrev pub add_pieces : List Piece → Reading → Reading
add_pieces [] r = r
add_pieces (p ∷ ps) r = add_pieces ps (add_piece p r)

-- The machine goes on with the rest of the line.
pub step_on :
    (state : ParseState) (l : Line) (c : ℕ) (rest : Bytes) {state' : ParseState} {l' : Line}
    → (c == 0) ≡ false
    → parse_char state c l ≡ some (state', l')
    → parse_chars state l (c ∷ rest) ≡ parse_chars state' l' rest
unfolding parse_chars
step_on state l c rest h e = rw (parse_chars, e, h) refl

pub plain_char : (c : ℕ) (l : Line) → IsPlain c → parse_char string c l ≡ some (string, more c l)
unfolding parse_char
plain_char c l h = ground arith

pub name_char : (c : ℕ) (l : Line) → IsNameChar c → parse_char symbol c l ≡ some (symbol, more c l)
unfolding parse_char
name_char c l h = ground arith

pub left_char :
    (c : ℕ) (l : Line)
    → IsNameChar c
    → parse_char generator_symbol c l ≡ some (generator_symbol, more c l)
unfolding parse_char
left_char c l h = ground arith

abbrev pub longer : Bytes → Line → Line
longer t l = record l { word = l.word ++ t }

pub longer_nil : (l : Line) → longer [] l ≡ l
longer_nil l = ap (λ (w : Bytes). record l { word = w }) (append-nil l.word)

pub longer_more : (c : ℕ) (t : Bytes) (l : Line) → longer t (more c l) ≡ longer (c ∷ t) l
longer_more c t l = ap (λ (w : Bytes). record l { word = w }) (append_assoc l.word (c ∷ []) t)

-- A word is gathered character by character, in each of the three states that do so.
module _ (state : ParseState) (Fits : ℕ → Type 0)
    (gathers : (c : ℕ) (l : Line)
      → Fits c
      → ((c == 0) ≡ false) × (parse_char state c l ≡ some (state, more c l))) where
  run_word :
      (t : Bytes) (l : Line) (rest : Bytes)
      → All Fits t
      → parse_chars state l (t ++ rest) ≡ parse_chars state (longer t l) rest
  run_word [] l rest h = ap (λ (l : Line). parse_chars state l rest) (sym (longer_nil l))
  run_word (c ∷ t) l rest h =
      step_on state l c (t ++ rest) (gathers c l h.0).0 (gathers c l h.0).1
      ∙ run_word t (more c l) rest h.1
      ∙ ap (λ (l : Line). parse_chars state l rest) (longer_more c t l)

pub run_text :
    (t : Bytes) (l : Line) (rest : Bytes)
    → All IsPlain t
    → parse_chars string l (t ++ rest) ≡ parse_chars string (longer t l) rest
run_text = run_word string IsPlain (λ c l h. (ground arith, plain_char c l h))

pub run_name :
    (n : Bytes) (l : Line) (rest : Bytes)
    → All IsNameChar n
    → parse_chars symbol l (n ++ rest) ≡ parse_chars symbol (longer n l) rest
run_name = run_word symbol IsNameChar (λ c l h. (ground arith, name_char c l h))

pub run_left :
    (n : Bytes) (l : Line) (rest : Bytes)
    → All IsNameChar n
    → parse_chars generator_symbol l (n ++ rest) ≡ parse_chars generator_symbol (longer n l) rest
run_left = run_word generator_symbol IsNameChar (λ c l h. (ground arith, left_char c l h))
