-- ===== src/Grammar/Parser/Pieces.antt =====
-- grammar.cpp, ParseGrammarLine: the pieces of a rule are read one by one.
use jackalope.Prelude.{
  ℕ, ◌≡◌, ◌≢◌, refl, ap, ◌∙◌, none, some, List, [], ◌∷◌, ◌++◌, Bool, false, ◌==◌, arith,
}
use jackalope.Prelude.Memory.{Bytes}
use jackalope.Prelude.Predicates.{All}
use jackalope.Grammar.Tree.{string_type, symbol_type}
use jackalope.Grammar.Rules.{
  find, RulePart, Symbols, Reading, string_part, symbol_part, with_parts, add_text, add_rule_part,
  id_key,
}
use jackalope.Grammar.Parser.{
  ParseState, generator_symbol, generator_symbol_end, equal, equal_space, symbol, symbol_end,
  string, line_start, Line, next, here, set_generates, parse_char, begin_part, parse_chars,
  start_line,
}
use jackalope.Grammar.Parser.RoundTrip.{
  text, ref, Piece, write_pieces, write_rule, IsPlain, IsNameChar, IsSymbolName, AreWritable,
  add_piece, add_pieces, step_on, longer, run_text, run_name, run_left,
}

-- Whether the parts end in a string.
abbrev ends_in_string : Bool → List RulePart → Bool
ends_in_string before [] = before
ends_in_string before (p ∷ ps) = ends_in_string (p.type == string_type) ps

add_text_new :
    (t : Bytes) (ps : List RulePart) (b : Bool)
    → ends_in_string b ps ≡ false
    → add_text t ps ≡ ps ++ (string_part t ∷ [])
unfolding add_text
add_text_new t [] b h = refl
add_text_new t (p ∷ []) b h = rw h refl
add_text_new t (p ∷ (q ∷ ps)) b h =
    ap (λ (l : List RulePart). p ∷ l) (add_text_new t (q ∷ ps) (p.type == string_type) h)

ends_in_string-append :
    (b : Bool) (ps : List RulePart) (p : RulePart)
    → ends_in_string b (ps ++ (p ∷ [])) ≡ (p.type == string_type)
ends_in_string-append b [] p = refl
ends_in_string-append b (q ∷ ps) p = ends_in_string-append (q.type == string_type) ps p

add_rule_part_text :
    (t : Bytes) (r : Reading)
    → ends_in_string false r.rule.parts ≡ false
    → add_rule_part string_type t r ≡ some (add_piece (text t) r)
unfolding add_rule_part
add_rule_part_text t r h =
    ap (λ (ps : List RulePart). some (with_parts ps r)) (add_text_new t r.rule.parts false h)

find_nil : (key : Bytes) → find key [] ≡ none
unfolding find
find_nil key = refl

add_rule_part_ref :
    (n : Bytes) (r : Reading)
    → IsSymbolName n
    → r.attributes ≡ []
    → add_rule_part symbol_type n r ≡ some (add_piece (ref n) r)
unfolding add_rule_part
add_rule_part_ref n r (ne, ok, missing, not_hex) e = rw (missing, not_hex, e, find_nil id_key) refl

-- The next piece of a rule can be added to what was read.
abbrev IsReady : Reading → Type 0
IsReady r = (r.attributes ≡ []) × (ends_in_string false r.rule.parts ≡ false)

add_piece-IsReady : (n : Bytes) (r : Reading) → IsReady (add_piece (ref n) r)
add_piece-IsReady n r = (refl, ends_in_string-append false r.rule.parts (symbol_part n 0 []))

abbrev with_reading : Line → Reading → Line
with_reading l r = record l { reading = r }

close_name :
    (n : Bytes) (l : Line)
    → IsSymbolName n
    → l.reading.attributes ≡ []
    → parse_char symbol b'>' (longer n (next l))
      ≡ some (symbol_end, with_reading (longer n (next l)) (add_piece (ref n) l.reading))
unfolding parse_char
close_name [] l h e = absurd (h.0 refl)
close_name (c ∷ n) l h e = rw (add_rule_part_ref (c ∷ n) l.reading h e) refl

-- What the machine makes of the rest of a line.
abbrev Reads : ParseState → List Piece → Type 0
Reads state ps =
    (l : Line)
    → IsReady l.reading
    → parse_chars state l (write_pieces ps) ≡ some (add_pieces ps l.reading)

ref_then :
    (n : Bytes) (ps : List Piece) (l : Line)
    → IsSymbolName n
    → l.reading.attributes ≡ []
    → Reads symbol_end ps
    → parse_chars symbol (next l) (n ++ (b'>' ∷ write_pieces ps))
      ≡ some (add_pieces ps (add_piece (ref n) l.reading))
ref_then n ps l h e reads =
    run_name n (next l) (b'>' ∷ write_pieces ps) h.1
    ∙ step_on symbol (longer n (next l)) b'>' (write_pieces ps) refl (close_name n l h e)
    ∙ reads (with_reading (longer n (next l)) (add_piece (ref n) l.reading))
        (add_piece-IsReady n l.reading)

end_text :
    (w : Bytes) (m : Line)
    → IsReady m.reading
    → parse_chars string (record m { word = w }) [] ≡ some (add_piece (text w) m.reading)
unfolding parse_chars parse_char
end_text w m e = rw (add_rule_part_text w m.reading e.1) refl

open_ref :
    (w : Bytes) (m : Line)
    → IsReady m.reading
    → parse_char string b'<' (record m { word = w })
      ≡ some (symbol, next (with_reading m (add_piece (text w) m.reading)))
unfolding parse_char
open_ref w m e = rw (add_rule_part_text w m.reading e.1) refl

text_then :
    (c : ℕ) (t n : Bytes) (ps : List Piece) (l : Line)
    → All IsPlain t
    → IsReady l.reading
    → IsSymbolName n
    → Reads symbol_end ps
    → parse_chars string (here c l) (t ++ write_pieces (ref n ∷ ps))
      ≡ some (add_pieces (ref n ∷ ps) (add_piece (text (c ∷ t)) l.reading))
text_then c t n ps l h e name reads =
    run_text t (here c l) (write_pieces (ref n ∷ ps)) h
    ∙ step_on string (longer t (here c l)) b'<' (n ++ (b'>' ∷ write_pieces ps)) refl
        (open_ref (c ∷ t) l e)
    ∙ ref_then n ps (with_reading l (add_piece (text (c ∷ t)) l.reading)) name e.0 reads

module _ (state : ParseState)
    (begins : (c : ℕ) (l : Line) → parse_char state c l ≡ begin_part state c l) where
  begin_end : (l : Line) → parse_chars state l [] ≡ some l.reading
  unfolding parse_chars begin_part
  begin_end l = rw (begins 0 l) refl

  begin_ref : (l : Line) → parse_char state b'<' l ≡ some (symbol, next l)
  unfolding begin_part
  begin_ref l = begins b'<' l

  begin_text : (c : ℕ) (l : Line) → IsPlain c → parse_char state c l ≡ some (string, here c l)
  unfolding begin_part
  begin_text c l h = begins c l ∙ ground arith

begins_symbol_end : (c : ℕ) (l : Line) → parse_char symbol_end c l ≡ begin_part symbol_end c l
unfolding parse_char
begins_symbol_end c l = refl

begins_equal_space : (c : ℕ) (l : Line) → parse_char equal_space c l ≡ begin_part equal_space c l
unfolding parse_char
begins_equal_space c l = refl

read_pieces :
    (ps : List Piece)
    → AreWritable false ps
    → (state : ParseState)
      (begins : (c : ℕ) (l : Line) → parse_char state c l ≡ begin_part state c l)
    → Reads state ps
read_pieces [] w state begins l e = begin_end state begins l
read_pieces (ref n ∷ ps) w state begins l e =
    step_on state l b'<' (n ++ (b'>' ∷ write_pieces ps)) refl (begin_ref state begins l)
    ∙ ref_then n ps l w.0 e.0 (read_pieces ps w.1 symbol_end begins_symbol_end)
read_pieces (text [] ∷ ps) w state begins l e = absurd (w.1 refl)
read_pieces (text (c ∷ t) ∷ []) w state begins l e =
    step_on state l c (t ++ []) (ground arith) (begin_text state begins c l w.2.0)
    ∙ run_text t (here c l) [] w.2.1
    ∙ end_text (c ∷ t) l e
read_pieces (text (c ∷ t) ∷ (text u ∷ ps)) w state begins l e = cc
read_pieces (text (c ∷ t) ∷ (ref n ∷ ps)) w state begins l e =
    step_on state l c (t ++ write_pieces (ref n ∷ ps)) (ground arith)
      (begin_text state begins c l w.2.0)
    ∙ text_then c t n ps l w.2.1 e w.3.0 (read_pieces ps w.3.1 symbol_end begins_symbol_end)

-- The left side of a rule.
close_left :
    (n : Bytes) (l : Line)
    → n ≢ []
    → parse_char generator_symbol b'>' (longer n (next l))
      ≡ some (generator_symbol_end, set_generates n (longer n (next l)))
unfolding parse_char
close_left [] l h = absurd (h refl)
close_left (c ∷ n) l h = refl

abbrev pub rule_start : Bytes → Symbols → Reading
rule_start name symbols = record {
  symbols = symbols;
  rule = record { generates = name; parts = [] };
  attributes = [];
}

after_left :
    (n : Bytes) (ps : List Piece) (l : Line)
    → parse_chars generator_symbol_end l (32 ∷ (b'=' ∷ (32 ∷ write_pieces ps)))
      ≡ parse_chars equal_space l (write_pieces ps)
unfolding parse_char
after_left n ps l =
    step_on generator_symbol_end l 32 (b'=' ∷ (32 ∷ write_pieces ps)) refl refl
    ∙ step_on generator_symbol_end l b'=' (32 ∷ write_pieces ps) refl refl
    ∙ step_on equal l 32 (write_pieces ps) refl refl

pub read_rule :
    (name : Bytes) (ps : List Piece) (symbols : Symbols)
    → name ≢ []
    → All IsNameChar name
    → AreWritable false ps
    → parse_chars line_start (start_line symbols) (write_rule name ps)
      ≡ some (add_pieces ps (rule_start name symbols))
unfolding parse_char
read_rule name ps symbols ne chars w =
    let l = start_line symbols in
    let m = set_generates name (longer name (next l)) in
    step_on line_start l b'<' (name ++ (b'>' ∷ (32 ∷ (b'=' ∷ (32 ∷ write_pieces ps))))) refl refl
    ∙ run_left name (next l) (b'>' ∷ (32 ∷ (b'=' ∷ (32 ∷ write_pieces ps)))) chars
    ∙ step_on generator_symbol (longer name (next l)) b'>' (32 ∷ (b'=' ∷ (32 ∷ write_pieces ps)))
        refl (close_left name l ne)
    ∙ after_left name ps m
    ∙ read_pieces ps w equal_space begins_equal_space m (refl, refl)

equal_end : (l : Line) → parse_chars equal l [] ≡ some l.reading
unfolding parse_chars parse_char begin_part
equal_end l = refl

-- `<name> =`, without the blank behind it
abbrev pub empty_rule : Bytes → Bytes
empty_rule name = b'<' ∷ (name ++ (b'>' ∷ (32 ∷ (b'=' ∷ []))))

pub read_empty_rule :
    (name : Bytes) (symbols : Symbols)
    → name ≢ []
    → All IsNameChar name
    → parse_chars line_start (start_line symbols) (empty_rule name) ≡ some (rule_start name symbols)
unfolding parse_char
read_empty_rule name symbols ne chars =
    let l = start_line symbols in
    let m = set_generates name (longer name (next l)) in
    step_on line_start l b'<' (name ++ (b'>' ∷ (32 ∷ (b'=' ∷ [])))) refl refl
    ∙ run_left name (next l) (b'>' ∷ (32 ∷ (b'=' ∷ []))) chars
    ∙ step_on generator_symbol (longer name (next l)) b'>' (32 ∷ (b'=' ∷ [])) refl
        (close_left name l ne)
    ∙ step_on generator_symbol_end m 32 (b'=' ∷ []) refl refl
    ∙ step_on generator_symbol_end m b'=' [] refl refl
    ∙ equal_end m
