-- ===== src/Mutators/Arithmetic/Examples.antt =====
-- ArithmeticMutator on four bytes.
use jackalope.Prelude.{◌+◌, ◌*◌, ◌≡◌, ◌⊎◌, refl, some, [], ◌∷◌, arith}
use jackalope.Sample.{Sample}
use jackalope.Mutators.{Prng}
use jackalope.Mutators.Arithmetic.{flip_endian, flip_loop, arithmetic_mutate}
use jackalope.Mutators.Arithmetic.Change.{IsChanged, arithmetic_mutate_lem}

abbrev four : Sample
four = record { bytes = some (1 ∷ 2 ∷ 255 ∷ 255 ∷ []); size = 4; filename = [] }

abbrev numbers : Prng
numbers = record { numbers = λ n. n * 257 + 1; given = 0 }

flipped_32 : flip_endian 4 0x01020304 ≡ 0x04030201
unfolding flip_endian flip_loop
flipped_32 = refl

arithmetic_mutate_lem_example :
    (prng' : Prng) × ((arithmetic_mutate four numbers ≡ some (four, prng'))
      ⊎ ((t : Sample) × (arithmetic_mutate four numbers ≡ some (t, prng')) × IsChanged four t))
arithmetic_mutate_lem_example =
    arithmetic_mutate_lem four numbers refl
      (omega arith, (omega arith, (omega arith, (omega arith, tt))))
