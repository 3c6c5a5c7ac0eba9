-- ===== src/Grammar/Parser/Examples.antt =====
-- Lines of a grammar file that are read, and the theorems at such lines.
use jackalope.Prelude.{inr, ◌≡◌, refl, some, none, List, [], ◌∷◌, ◌++◌, map, true}
use jackalope.Prelude.Memory.{Bytes}
use jackalope.Grammar.Rules.{
  Symbols, find, assign, change, add_generator, get_or_create, get_symbol, create_symbol,
  add_rule_part, add_text, atoi, atoi_digits, symbol_part, string_part, new_symbol,
}
use jackalope.Grammar.Parser.{
  parse_char, parse_chars, begin_part, step_string, step_symbol, step_generator, step_attr_name,
  step_attr_value, before_comment, trim_end, parse_grammar_line, read_lines, analyze_grammar,
  check_grammar, read_grammar,
}
use jackalope.Grammar.Parser.RoundTrip.{Piece, text, ref, piece_part, write_rule}
use jackalope.Grammar.Parser.Lines.{declare, rule_of, parse_grammar_line-write_rule}
use jackalope.Grammar.Parser.Grammars.{AllNamed, read_grammar-IsComplete}
use jackalope.Grammar.Generate.Derivations.{IsComplete}

abbrev pub root : Bytes
root = b'r' ∷ b'o' ∷ b'o' ∷ b't' ∷ []

abbrev pub letter : Bytes
letter = b'b' ∷ []

-- `a<b>`
abbrev pieces : List Piece
pieces = text (b'a' ∷ []) ∷ (ref letter ∷ [])

abbrev comment : Bytes
comment = b'#' ∷ b'<' ∷ []

parse_grammar_line-write_rule_example :
    parse_grammar_line (write_rule root pieces ++ ((32 ∷ []) ++ comment)) []
    ≡ some (
        change root
          (add_generator (rule_of root (map piece_part pieces)))
          (get_or_create root (declare pieces [])))
unfolding find before_comment
parse_grammar_line-write_rule_example =
    parse_grammar_line-write_rule root pieces (32 ∷ []) comment [] (cc)
      (refl, (refl, (refl, (refl, tt))))
      ((refl, cc, (refl, tt), ((cc, (refl, tt), refl, refl), tt)))
      (
        refl,
        (
          refl,
          (
            refl,
            (refl, (refl, (refl, (refl, (refl, (refl, (refl, (refl, (refl, (refl, tt)))))))))),
          ),
        ),
      )
      (inr refl) (refl, tt) refl

-- `<b id=7>` behind a constant, and an attribute that is no positive number.
abbrev with_id : Bytes
with_id =
    b'<' ∷ b'a' ∷ b'>' ∷ b'=' ∷ b'<' ∷ b'l' ∷ b't' ∷ b'>' ∷ b'<' ∷ b'b' ∷ 32 ∷ b'i' ∷ b'd' ∷ b'='
    ∷ b'7' ∷ b'>' ∷ []

abbrev id_zero : Bytes
id_zero = b'<' ∷ b'a' ∷ b'>' ∷ b'=' ∷ b'<' ∷ b'b' ∷ 32 ∷ b'i' ∷ b'd' ∷ b'=' ∷ b'0' ∷ b'>' ∷ []

bad_id : parse_grammar_line id_zero [] ≡ none
unfolding parse_grammar_line before_comment trim_end parse_chars parse_char begin_part step_symbol
    step_generator step_attr_name step_attr_value add_rule_part find assign atoi atoi_digits
bad_id = refl

-- The lines `<b>=a` and `<root>=<repeat_b>`.
abbrev pub repeat_letter : Bytes
repeat_letter = b'r' ∷ b'e' ∷ b'p' ∷ b'e' ∷ b'a' ∷ b't' ∷ b'_' ∷ b'b' ∷ []

abbrev pub lines : List Bytes
lines =
    (b'<' ∷ b'b' ∷ b'>' ∷ b'=' ∷ b'a' ∷ [])
    ∷ (b'<' ∷ (root ++ (b'>' ∷ (b'=' ∷ (b'<' ∷ (repeat_letter ++ (b'>' ∷ [])))))))
    ∷ []

-- The symbol `b` with its rule, the root and the repetition.
abbrev pub grammar : Symbols
grammar =
    record (new_symbol letter) {
      generators = rule_of letter (string_part (b'a' ∷ []) ∷ []) ∷ [];
      used = true;
    }
    ∷ record (new_symbol repeat_letter) { repeat = true; repeat_symbol = letter; used = true }
    ∷ record (new_symbol root) {
      generators = rule_of root (symbol_part repeat_letter 0 [] ∷ []) ∷ [];
    }
    ∷ []

pub grammar_read : read_grammar lines ≡ some grammar
unfolding read_grammar read_lines analyze_grammar check_grammar parse_grammar_line before_comment
    trim_end parse_chars parse_char begin_part step_string step_symbol step_generator add_rule_part
    find add_text create_symbol get_symbol change
grammar_read = refl

read_grammar-IsComplete_example : IsComplete grammar × AllNamed grammar
read_grammar-IsComplete_example = read_grammar-IsComplete lines grammar_read
