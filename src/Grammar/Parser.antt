-- ===== src/Grammar/Parser.antt =====
-- grammar.cpp, Grammar::ParseGrammarLine and Grammar::Read: the state machine that reads a rule, and
-- the check of what was read. The pointer `symbolstart` is the text from it up to the current
-- character. A line ends with the character 0.
pub mod RoundTrip
pub mod Pieces
pub mod Lines
pub mod Complete
pub mod Kept
pub mod Grammars
pub mod Examples
use jackalope.Prelude.{
  ℕ, zero, suc, ◌+◌, Option, none, some, List, [], ◌∷◌, ◌++◌, Bool, true, false, not, ◌&&◌, ◌||◌,
  ◌==◌, if◌then◌else◌, length,
}
use jackalope.Prelude.Memory.{Bytes, ◌>>=◌}
use jackalope.Grammar.Tree.{string_type, symbol_type}
use jackalope.Grammar.Rules.{
  Attributes, assign, Rule, Symbol, Symbols, change, add_generator, get_or_create, create_symbol,
  get_symbol, same_text, Reading, add_rule_part,
}

-- ParseState
pub data ParseState : Type 0 where
  line_start : ParseState
  generator_symbol : ParseState
  generator_symbol_end : ParseState
  equal : ParseState
  equal_space : ParseState
  symbol : ParseState
  symbol_end : ParseState
  string : ParseState
  symbol_space : ParseState
  attr_name : ParseState
  attr_value : ParseState

-- The local variables of ParseGrammarLine.
pub record Line : Type 0 where
  pub reading : Reading
  pub word : Bytes
  pub symbolname : Bytes
  pub attrname : Bytes

abbrev pub Parsed : Type 0
Parsed = Option (ParseState × Line)

abbrev pub is_space : ℕ → Bool
is_space c = c == 32 || c == 9

-- `symbolstart = str` and `symbolstart = str + 1`, at the character `c`.
abbrev pub here : ℕ → Line → Line
here c l = record l { word = c ∷ [] }

abbrev pub next : Line → Line
next l = record l { word = [] }

-- The character belongs to the text from `symbolstart` on.
abbrev pub more : ℕ → Line → Line
more c l = record l { word = l.word ++ (c ∷ []) }

abbrev pub nonempty : Bytes → Option Bytes
nonempty [] = none
nonempty (c ∷ word) = some (c ∷ word)

abbrev pub set_generates : Bytes → Line → Line
set_generates name l = record l {
  reading = record (l.reading) { rule = record (l.reading.rule) { generates = name } };
}

abbrev pub put_attribute : Bytes → Bytes → Line → Line
put_attribute name value l = record l {
  reading = record (l.reading) { attributes = assign name value l.reading.attributes };
}

abbrev pub add_part : ℕ → Bytes → ParseState → Line → Parsed
add_part type value state l = do
  r ← add_rule_part type value l.reading
  some (state, record l { reading = r })

-- The cases EQUALSPACE and SYMBOLEND, and those of EQUAL behind the blanks.
unfoldable pub begin_part : ParseState → ℕ → Line → Parsed
begin_part state c l =
    if c == b'<'
    then some (symbol, next l)
    else if c == 0
    then some (state, l)
    else some (string, here c l)

unfoldable pub step_string : ℕ → Line → Parsed
step_string c l =
    if c == b'<'
    then add_part string_type l.word symbol (next l)
    else if c == 0
    then add_part string_type l.word string l
    else some (string, more c l)

unfoldable pub step_symbol : ℕ → Line → Parsed
step_symbol c l =
    if is_space c
    then (do name ← nonempty l.word; some (symbol_space, record l { symbolname = name }))
    else if c == b'>'
    then (do name ← nonempty l.word; add_part symbol_type name symbol_end l)
    else if c == 0
    then none
    else some (symbol, more c l)

unfoldable pub step_generator : ℕ → Line → Parsed
step_generator c l =
    if c == b'>'
    then (do name ← nonempty l.word; some (generator_symbol_end, set_generates name l))
    else if c == 0
    then none
    else some (generator_symbol, more c l)

unfoldable pub step_attr_name : ℕ → Line → Parsed
step_attr_name c l =
    if is_space c
    then (do name ← nonempty l.word; some (symbol_space, put_attribute name [] l))
    else if c == b'='
    then (do name ← nonempty l.word; some (attr_value, next (record l { attrname = name })))
    else if c == b'>'
    then (do
      name ← nonempty l.word
      add_part symbol_type l.symbolname symbol_end (put_attribute name [] l))
    else if c == 0
    then none
    else some (attr_name, more c l)

unfoldable pub step_attr_value : ℕ → Line → Parsed
step_attr_value c l =
    if is_space c
    then some (symbol_space, put_attribute l.attrname l.word l)
    else if c == b'>'
    then add_part symbol_type l.symbolname symbol_end (put_attribute l.attrname l.word l)
    else if c == 0
    then none
    else some (attr_value, more c l)

-- The switch on the state, for one character; `none` is `ret = 0`.
unfoldable pub parse_char : ParseState → ℕ → Line → Parsed
unfolding begin_part step_string step_symbol step_generator step_attr_name step_attr_value
parse_char line_start c l =
    if is_space c
    then some (line_start, l)
    else if c == b'<'
    then some (generator_symbol, next l)
    else none
parse_char generator_symbol c l = step_generator c l
parse_char generator_symbol_end c l =
    if is_space c
    then some (generator_symbol_end, l)
    else if c == b'='
    then some (equal, l)
    else none
parse_char equal c l = if is_space c then some (equal_space, l) else begin_part equal c l
parse_char equal_space c l = begin_part equal_space c l
parse_char symbol c l = step_symbol c l
parse_char symbol_end c l = begin_part symbol_end c l
parse_char string c l = step_string c l
parse_char symbol_space c l =
    if is_space c
    then some (symbol_space, l)
    else if c == b'>'
    then add_part symbol_type l.symbolname symbol_end l
    else if c == 0
    then none
    else some (attr_name, here c l)
parse_char attr_name c l = step_attr_name c l
parse_char attr_value c l = step_attr_value c l

-- The loop over the characters, the 0 behind the last one included.
unfoldable pub parse_chars : ParseState → Line → Bytes → Option Reading
parse_chars state l [] = do r ← parse_char state 0 l; some r.1.reading
parse_chars state l (c ∷ text) =
    let rest = λ (p : ParseState × Line). parse_chars p.0 p.1 text in
    (do r ← parse_char state c l; if c == 0 then some r.1.reading else rest r)

-- `line.substr(0, line.find('#', 0))`
unfoldable pub before_comment : Bytes → Bytes
before_comment [] = []
before_comment (c ∷ text) = let rest = before_comment text in if c == b'#' then [] else c ∷ rest

abbrev pub unless_blank : ℕ → Bytes → Bytes
unless_blank c [] = if is_space c then [] else c ∷ []
unless_blank c (d ∷ rest) = c ∷ (d ∷ rest)

-- The text up to the last character that is not a blank.
unfoldable pub trim_end : Bytes → Bytes
trim_end [] = []
trim_end (c ∷ text) = unless_blank c (trim_end text)

abbrev pub start_line : Symbols → Line
start_line symbols = record {
  reading = record {
    symbols = symbols;
    rule = record { generates = []; parts = [] };
    attributes = [];
  };
  word = [];
  symbolname = [];
  attrname = [];
}

-- The rule joins the generators of its symbol.
abbrev pub add_rule : Reading → Symbols
add_rule r =
    change r.rule.generates (add_generator r.rule) (get_or_create r.rule.generates r.symbols)

abbrev pub parse_clean : Bytes → Symbols → Option Symbols
parse_clean [] symbols = some symbols
parse_clean (c ∷ line) symbols = do
  r ← parse_chars line_start (start_line symbols) (c ∷ line)
  some (add_rule r)

-- Grammar::ParseGrammarLine
unfoldable pub parse_grammar_line : Bytes → Symbols → Option Symbols
parse_grammar_line line symbols = parse_clean (trim_end (before_comment line)) symbols

-- The loop of Grammar::Read over the lines of the file.
unfoldable pub read_lines : List Bytes → Symbols → Option Symbols
unfolding parse_grammar_line
read_lines [] symbols = some symbols
read_lines (line ∷ lines) symbols = do s ← parse_grammar_line line symbols; read_lines lines s

abbrev pub is_empty : {A : Type 0} → List A → Bool
is_empty [] = true
is_empty (x ∷ xs) = false

abbrev pub any_empty : List Rule → Bool
any_empty [] = false
any_empty (rule ∷ rules) = is_empty rule.parts || any_empty rules

-- Grammar::AnalyzeGrammar
unfoldable pub analyze_grammar : Symbols → Symbols
analyze_grammar [] = []
analyze_grammar (s ∷ symbols) =
    record s { can_be_empty = any_empty s.generators } ∷ analyze_grammar symbols

-- Grammar::CheckGrammar, without its warnings.
unfoldable pub check_grammar : Symbols → Bool
check_grammar [] = true
check_grammar (s ∷ symbols) = not (is_empty s.generators && not s.repeat) && check_grammar symbols

-- Grammar::Read, from the lines of the file: the symbols when it returns 1.
unfoldable pub read_grammar : List Bytes → Option Symbols
read_grammar lines = do
  symbols ← read_lines lines []
  if check_grammar (analyze_grammar symbols) then some (analyze_grammar symbols) else none
