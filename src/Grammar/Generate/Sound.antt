-- ===== src/Grammar/Generate/Sound.antt =====
-- grammar.cpp, GenerateTree: it gives trees that the grammar has, and fails in no other way than by
-- NULL.
use jackalope.Prelude.{ℕ, ◌+◌, ◌<◌, ◌≡◌, refl, ◌⊎◌, inl, inr, Option-cases, arith}
use jackalope.Prelude.Memory.{Bytes}
use jackalope.Grammar.Tree.{TreeNode}
use jackalope.Grammar.Rules.{Symbols, get_symbol}
use jackalope.Grammar.Generate.{
  Made, made, null, fault, out_of_fuel, generate, generate_tree, max_depth,
}
use jackalope.Grammar.Generate.Derivations.{Derives, IsComplete}
use jackalope.Grammar.Generate.Steps.{StopsFrom, Yields}
use jackalope.Grammar.Generate.Expand.{generate-Yields}
use jackalope.Mutators.{Prng}

-- NULL, or a tree that the symbol derives in at most max_depth + 1 levels of symbols.
abbrev pub NullOrDerived : Symbols → Bytes → Made TreeNode → Type 0
NullOrDerived symbols name m =
    ((later : Prng) × (m ≡ null later))
    ⊎ ((t : TreeNode) × (later : Prng) × (m ≡ made t later)
        × Derives symbols (max_depth + 1) name t)

of_Yields :
    (symbols : Symbols) (name : Bytes) (numbers : ℕ → ℕ) (from : ℕ) (m : Made TreeNode)
    → Yields numbers from (Derives symbols (max_depth + 1) name) m
    → NullOrDerived symbols name m
of_Yields symbols name numbers from (made t later) y = inr (t, later, refl, y.0)
of_Yields symbols name numbers from (null later) y = inl (later, refl)
of_Yields symbols name numbers from fault y = elim y [ ]
of_Yields symbols name numbers from out_of_fuel y = elim y [ ]

-- In a complete grammar, where each symbol repeats a known one or has rules and these name known
-- symbols, GenerateTree accesses nothing that is not there, ends, and gives NULL or a tree that the
-- grammar derives from the symbol in at most 101 levels of symbols. This holds for each source of
-- random numbers that from the `last`th number on ends every repetition, with more fuel than that.
pub generate_tree-NullOrDerived :
    (symbols : Symbols) (name : Bytes) (prng : Prng) (last fuel : ℕ)
    → IsComplete symbols
    → StopsFrom last prng.numbers
    → last < fuel
    → NullOrDerived symbols name (generate_tree fuel symbols name prng)
unfolding generate_tree
generate_tree-NullOrDerived symbols name prng last fuel complete stopping enough =
    elim (Option-cases (get_symbol name symbols)) [
      | inl unknown ↦ rw unknown (inl (prng, refl))
      | inr (s, known) ↦ rw known (
          of_Yields symbols name prng.numbers prng.given
            (generate fuel symbols (max_depth + 1) name prng)
            (generate-Yields symbols prng.numbers last fuel complete stopping enough (max_depth + 1)
              name (s, known) prng.given prng (refl, omega arith)))
    ]
