-- ===== src/Grammar/Rules.antt =====
-- grammar.h and grammar.cpp: the symbols of a grammar, their rules, and how the reader of grammar
-- files adds to them. `none` is the return value 0, at which reading stops.
pub mod Hex
use jackalope.Prelude.{
  ℕ, zero, suc, ◌+◌, ◌-◌, ◌*◌, ◌%◌, Option, none, some, List, [], ◌∷◌, ◌++◌, map, Bool, true, false,
  not, ◌&&◌, ◌||◌, ltb, leb, ◌==◌, if◌then◌else◌, length, drop,
}
use jackalope.Prelude.Memory.{Bytes, ◌>>=◌}
use jackalope.Grammar.Tree.{string_type, symbol_type}

abbrev pub same_text : Bytes → Bytes → Bool
same_text [] [] = true
same_text [] (b ∷ bs) = false
same_text (a ∷ as') [] = false
same_text (a ∷ as') (b ∷ bs) = a == b && same_text as' bs

-- What follows a prefix.
abbrev pub after_prefix : Bytes → Bytes → Option Bytes
after_prefix [] text = some text
after_prefix (p ∷ ps) [] = none
after_prefix (p ∷ ps) (c ∷ text) = let rest = after_prefix ps text in if p == c then rest else none

-- An unordered_map from strings to strings; a later entry for a key replaces an earlier one.
abbrev pub Attributes : Type 0
Attributes = List (Bytes × Bytes)

unfoldable pub find : Bytes → Attributes → Option Bytes
find key [] = none
find key ((k, v) ∷ rest) = let later = find key rest in if same_text k key then some v else later

unfoldable pub assign : Bytes → Bytes → Attributes → Attributes
assign key value [] = (key, value) ∷ []
assign key value ((k, v) ∷ rest) =
    let later = assign key value rest in
    if same_text k key then (key, value) ∷ rest else (k, v) ∷ later

-- Grammar::RulePart. A symbol is given by its name, which is also the value of such a part.
pub record RulePart : Type 0 where
  pub type : ℕ
  pub value : Bytes
  pub id : ℕ
  pub attributes : Attributes

-- Grammar::Rule
pub record Rule : Type 0 where
  pub generates : Bytes
  pub parts : List RulePart

-- Grammar::Symbol
pub record Symbol : Type 0 where
  pub name : Bytes
  pub repeat : Bool
  pub repeat_symbol : Bytes
  pub can_be_empty : Bool
  pub generators : List Rule
  pub used : Bool

-- The symbols of a grammar by their names.
abbrev pub Symbols : Type 0
Symbols = List Symbol

-- Grammar::GetSymbol
unfoldable pub get_symbol : Bytes → Symbols → Option Symbol
get_symbol name [] = none
get_symbol name (s ∷ rest) =
    let later = get_symbol name rest in if same_text s.name name then some s else later

-- A change of the symbol with a name.
unfoldable pub change : Bytes → (Symbol → Symbol) → Symbols → Symbols
change name f [] = []
change name f (s ∷ rest) =
    let later = change name f rest in if same_text s.name name then f s ∷ rest else s ∷ later

abbrev pub use_symbol : Symbol → Symbol
use_symbol s = record s { used = true }

abbrev pub add_generator : Rule → Symbol → Symbol
add_generator rule s = record s { generators = s.generators ++ (rule ∷ []) }

-- Grammar::Symbol::Symbol
abbrev pub new_symbol : Bytes → Symbol
new_symbol name = record {
  name = name;
  repeat = false;
  repeat_symbol = [];
  can_be_empty = false;
  generators = [];
  used = false;
}

-- "repeat_"
abbrev pub repeat_prefix : Bytes
repeat_prefix = b'r' ∷ b'e' ∷ b'p' ∷ b'e' ∷ b'a' ∷ b't' ∷ b'_' ∷ []

abbrev pub chosen {ℓ κ} : {A : Type ℓ} {B : Type κ} → Option A → B → B → B
chosen (some a) there missing = there
chosen none there missing = missing

-- A new symbol, and the symbol that it repeats.
abbrev pub repeat_of : Bytes → Bytes → Symbol
repeat_of name repeated = record (new_symbol name) { repeat = true; repeat_symbol = repeated }

abbrev pub create_new : Bytes → (Bytes → Symbols → Symbols) → Symbols → Option Bytes → Symbols
create_new name create symbols none = symbols ++ (new_symbol name ∷ [])
create_new name create symbols (some repeated) =
    change repeated use_symbol (create repeated (symbols ++ (repeat_of name repeated ∷ [])))

-- Grammar::GetOrCreateSymbol: the symbols after it. The fuel bounds the prefixes of the name.
unfoldable pub create_symbol : ℕ → Bytes → Symbols → Symbols
unfolding get_symbol change
create_symbol zero name symbols = symbols
create_symbol (suc fuel) name symbols =
    let create = create_symbol fuel in
    chosen (get_symbol name symbols) symbols
      (create_new name create symbols (after_prefix repeat_prefix name))

abbrev pub get_or_create : Bytes → Symbols → Symbols
get_or_create name symbols = create_symbol (suc (length name)) name symbols

-- The map `constants` of Grammar::Grammar.
abbrev pub constants : Attributes
constants =
    (b'l' ∷ b't' ∷ [], 60 ∷ [])
    ∷ (b'g' ∷ b't' ∷ [], 62 ∷ [])
    ∷ (b'h' ∷ b'a' ∷ b's' ∷ b'h' ∷ [], 35 ∷ [])
    ∷ (b'c' ∷ b'r' ∷ [], 13 ∷ [])
    ∷ (b'l' ∷ b'f' ∷ [], 10 ∷ [])
    ∷ (b'c' ∷ b'r' ∷ b'l' ∷ b'f' ∷ [], 13 ∷ 10 ∷ [])
    ∷ (b's' ∷ b'p' ∷ b'a' ∷ b'c' ∷ b'e' ∷ [], 32 ∷ [])
    ∷ (b't' ∷ b'a' ∷ b'b' ∷ [], 9 ∷ [])
    ∷ []

abbrev pub hex_digit : ℕ → Option ℕ
hex_digit c =
    if leb b'0' c && leb c b'9'
    then some (c - b'0')
    else if leb b'a' c && leb c b'f'
    then some (c - b'a' + 10)
    else if leb b'A' c && leb c b'F'
    then some (c - b'A' + 10)
    else none

-- The loop of HexStringToString, two digits at a time.
unfoldable pub hex_pairs : Bytes → Option Bytes
hex_pairs [] = some []
hex_pairs (a ∷ []) = do high ← hex_digit a; some []
hex_pairs (a ∷ (b ∷ hex)) =
    let rest = hex_pairs hex in
    (do high ← hex_digit a; low ← hex_digit b; out ← rest; some ((high * 16 + low) % 256 ∷ out))

-- Grammar::HexStringToString
unfoldable pub hex_string : Bytes → Option Bytes
unfolding hex_pairs
hex_string hex = if length hex % 2 == 0 then hex_pairs (drop 2 hex) else none

-- What `atoi` makes of a string, with 0 for a negative number: blanks, a sign, digits.
abbrev pub is_blank : ℕ → Bool
is_blank c = c == 32 || (leb 9 c && leb c 13)

unfoldable pub atoi_digits : ℕ → Bytes → ℕ
atoi_digits n [] = n
atoi_digits n (c ∷ text) =
    let rest = atoi_digits (10 * n + (c - b'0')) text in
    if leb b'0' c && leb c b'9' then rest else n

unfoldable pub atoi : Bytes → ℕ
unfolding atoi_digits
atoi [] = 0
atoi (c ∷ text) =
    let rest = atoi text in
    if is_blank c
    then rest
    else if c == b'-'
    then 0
    else if c == b'+'
    then atoi_digits 0 text
    else atoi_digits 0 (c ∷ text)

-- RulePart::SetAttributes: the id.
abbrev pub id_key : Bytes
id_key = b'i' ∷ b'd' ∷ []

abbrev pub positive_id : ℕ → Option ℕ
positive_id n = if ltb 0 n then some n else none

abbrev pub read_id : Option Bytes → Option ℕ
read_id none = some 0
read_id (some text) = positive_id (atoi text)

-- What a line has been read into: the grammar's symbols, the rule and the attributes that wait for
-- a symbol.
pub record Reading : Type 0 where
  pub symbols : Symbols
  pub rule : Rule
  pub attributes : Attributes

abbrev pub string_part : Bytes → RulePart
string_part value = record { type = string_type; value = value; id = 0; attributes = [] }

-- A string joins the string before it.
unfoldable pub add_text : Bytes → List RulePart → List RulePart
add_text value [] = string_part value ∷ []
add_text value (p ∷ []) =
    if p.type == string_type
    then record p { value = p.value ++ value } ∷ []
    else p ∷ (string_part value ∷ [])
add_text value (p ∷ (q ∷ parts)) = p ∷ add_text value (q ∷ parts)

abbrev pub with_parts : List RulePart → Reading → Reading
with_parts parts r = record r { rule = record (r.rule) { parts = parts } }

abbrev pub add_string : Bytes → Reading → Option Reading
add_string value r = some (with_parts (add_text value r.rule.parts) r)

abbrev pub symbol_part : Bytes → ℕ → Attributes → RulePart
symbol_part value id attributes = record {
  type = symbol_type;
  value = value;
  id = id;
  attributes = attributes;
}

abbrev pub add_symbol : Bytes → Reading → Option Reading
add_symbol value r = do
  id ← read_id (find id_key r.attributes)
  some (record {
    symbols = change value use_symbol (get_or_create value r.symbols);
    rule = record (r.rule) { parts = r.rule.parts ++ (symbol_part value id r.attributes ∷ []) };
    attributes = [];
  })

-- "0x"
abbrev pub hex_prefix : Bytes
hex_prefix = b'0' ∷ b'x' ∷ []

abbrev pub add_hex : Option Bytes → Bytes → Reading → Option Reading
add_hex none value r = add_symbol value r
add_hex (some digits) value r = do decoded ← hex_string value; add_string decoded r

abbrev pub add_named : Option Bytes → Bytes → Reading → Option Reading
add_named (some text) value r = add_string text r
add_named none value r = add_hex (after_prefix hex_prefix value) value r

-- Grammar::AddRulePart
unfoldable pub add_rule_part : ℕ → Bytes → Reading → Option Reading
add_rule_part type value r =
    if type == symbol_type then add_named (find value constants) value r else add_string value r
