-- ===== src/Grammar/Generate.antt =====
-- grammar.cpp, Grammar::GenerateTree: a random tree of a symbol. The random numbers are those of
-- `Prng`; a tree is `null` for NULL.
pub mod Derivations
pub mod Steps
pub mod Expand
pub mod Sound
mod Examples
use jackalope.Prelude.{
  ℕ, zero, suc, ◌+◌, ◌-◌, ◌*◌, ◌%◌, ◌^◌, Option, none, some, List, [], ◌∷◌, ◌++◌, Bool, true, false,
  ltb, ◌==◌, if◌then◌else◌, length, get_elem?,
}
use jackalope.Prelude.Memory.{Bytes}
use jackalope.Grammar.Tree.{string_type, symbol_type, TreeNode, node, Trees, nil, cons}
use jackalope.Grammar.Rules.{RulePart, Rule, Symbol, Symbols, get_symbol}
use jackalope.Mutators.{Prng, next_number}

-- MAX_DEPTH
abbrev pub max_depth : ℕ
max_depth = 100

-- `RandReal() > REPEAT_PROBABILITY`, for the 32-bit number that RandReal divides by 2^32 - 1: three
-- quarters of that number lie between 3 * 2^30 - 1 and 3 * 2^30.
abbrev pub stops : ℕ → Bool
stops number = ltb (3 * 2 ^ 30 - 1) number

-- The outcome of generating: a value, NULL, an access to what is not there (a symbol that does not
-- exist, or the remainder by 0 generators), or a loop that is longer than the fuel.
pub data Made (A : Type 0) : Type 0 where
  made : A → Prng → Made A
  null : Prng → Made A
  fault : Made A
  out_of_fuel : Made A

abbrev pub after_made : {A B : Type 0} → Made A → (A → Prng → Made B) → Made B
after_made (made a prng) f = f a prng
after_made (null prng) f = null prng
after_made fault f = fault
after_made out_of_fuel f = out_of_fuel

-- children.push_back
unfoldable pub push_back : Trees → TreeNode → Trees
push_back nil t = cons t nil
push_back (cons s ts) t = cons s (push_back ts t)

unfoldable pub child_at : Trees → ℕ → Option TreeNode
child_at nil i = none
child_at (cons t ts) zero = some t
child_at (cons t ts) (suc i) = child_at ts i

-- The generator of trees of a symbol, one level down.
abbrev pub Generator : Type 0
Generator = Bytes → Prng → Made TreeNode

-- The loop for a symbol that repeats another one.
unfoldable pub repeat_children : ℕ → (Prng → Made TreeNode) → Trees → Prng → Made Trees
repeat_children zero child children prng = out_of_fuel
repeat_children (suc fuel) child children prng =
    let n = next_number prng in
    if stops n.0
    then made children n.1
    else after_made (child n.1) (λ t p. repeat_children fuel child (push_back children t) p)

-- The last one of the parts before the current one that has an id.
unfoldable pub last_with_id : ℕ → ℕ → List RulePart → Option ℕ
last_with_id id i [] = none
last_with_id id i (p ∷ parts) =
    let here = if p.id == id then some i else none in
    elim (last_with_id id (suc i) parts) [ some j ↦ some j | none ↦ here ]

-- Grammar::GenerateStringNode
abbrev pub string_node : Bytes → TreeNode
string_node text = node string_type text nil

abbrev pub copy_child : Option TreeNode → Prng → Made TreeNode
copy_child (some t) prng = made t prng
copy_child none prng = fault

abbrev pub copy_or_generate : Generator → RulePart → Trees → Prng → Option ℕ → Made TreeNode
copy_or_generate gen p children prng (some i) = copy_child (child_at children i) prng
copy_or_generate gen p children prng none = gen p.value prng

-- The child for one part, behind the parts `before` and their children.
unfoldable pub part_child : Generator → List RulePart → RulePart → Trees → Prng → Made TreeNode
unfolding child_at last_with_id
part_child gen before p children prng =
    if p.type == symbol_type
    then (if p.id == 0
        then gen p.value prng
        else copy_or_generate gen p children prng (last_with_id p.id 0 before))
    else made (string_node p.value) prng

-- The loop over the parts of a rule.
unfoldable pub part_children : Generator → List RulePart → List RulePart → Trees → Prng → Made Trees
unfolding part_child push_back
part_children gen before [] children prng = made children prng
part_children gen before (p ∷ parts) children prng =
    let rest = part_children gen (before ++ (p ∷ [])) parts in
    after_made (part_child gen before p children prng) (λ t q. rest (push_back children t) q)

abbrev pub symbol_node : Bytes → Made Trees → Made TreeNode
symbol_node name m = after_made m (λ children p. made (node symbol_type name children) p)

abbrev pub expand_rule : Generator → Option Rule → Prng → Made Trees
expand_rule gen none prng = fault
expand_rule gen (some rule) prng = part_children gen [] rule.parts nil prng

abbrev pub expand_symbol : ℕ → Generator → Option Symbol → Prng → Made Trees
expand_symbol fuel gen none prng = fault
expand_symbol fuel gen (some s) prng =
    if s.repeat
    then repeat_children fuel (gen s.repeat_symbol) nil prng
    else if length s.generators == 0
    then fault
    else (let n = next_number prng in
        expand_rule gen (get_elem? s.generators (n.0 % length s.generators)) n.1)

-- GenerateTree(symbol, prng, depth), where `left` is MAX_DEPTH + 1 - depth.
unfoldable pub generate : ℕ → Symbols → ℕ → Generator
generate fuel symbols zero name prng = null prng
generate fuel symbols (suc left) name prng =
    let gen = generate fuel symbols left in
    symbol_node name (expand_symbol fuel gen (get_symbol name symbols) prng)

abbrev pub when_known : Option Symbol → Prng → Made TreeNode → Made TreeNode
when_known none prng tree = null prng
when_known (some s) prng tree = tree

-- GenerateTree(symbol, prng), for a symbol that may be unknown.
unfoldable pub generate_tree : ℕ → Symbols → Generator
generate_tree fuel symbols name prng =
    when_known (get_symbol name symbols) prng (generate fuel symbols (max_depth + 1) name prng)
