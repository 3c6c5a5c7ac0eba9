-- ===== src/Grammar/Generate/Examples.antt =====
-- Trees of the grammar `<b>=a`, `<root>=<repeat_b>`.
use jackalope.Prelude.{◌^◌, ◌==◌, if◌then◌else◌, ◌-◌, ◌≡◌, refl, [], ◌∷◌, arith}
use jackalope.Grammar.Tree.{node, nil, cons, symbol_type, string_type}
use jackalope.Grammar.Rules.{get_symbol}
use jackalope.Grammar.Generate.{
  made, generate, generate_tree, repeat_children, part_children, part_child, push_back,
}
use jackalope.Grammar.Generate.Sound.{NullOrDerived, generate_tree-NullOrDerived}
use jackalope.Grammar.Parser.Examples.{grammar, root, letter, repeat_letter, lines, grammar_read}
use jackalope.Grammar.Parser.Grammars.{read_grammar-IsComplete}
use jackalope.Mutators.{Prng}

-- The second number lets the repetition go on, all others end it.
abbrev one_round : Prng
one_round = record { numbers = λ i. if i == 1 then 5 else 2 ^ 32 - 1; given = 0 }

one_letter :
    generate_tree 9 grammar root one_round
    ≡ made
        (node symbol_type root (
          cons
            (node symbol_type repeat_letter
              (cons (node symbol_type letter (cons (node string_type (b'a' ∷ []) nil) nil)) nil))
            nil))
        (record one_round { given = 4 })
unfolding generate_tree generate get_symbol repeat_children part_children part_child push_back
one_letter = refl

generate_tree-NullOrDerived_example :
    NullOrDerived grammar root (generate_tree 9 grammar root one_round)
generate_tree-NullOrDerived_example =
    generate_tree-NullOrDerived grammar root one_round 2 9
      (read_grammar-IsComplete lines grammar_read).0 (λ i h. ground arith) (omega arith)
