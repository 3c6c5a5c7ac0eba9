-- ===== src/Mutators/Combinators/Examples.antt =====
-- The theorem about rounds for children that count their calls.
use jackalope.Prelude.{ℕ, suc, ◌≡◌, refl, none, some, true, ltb, arith}
use jackalope.Mutators.Combinators.{
  Child, DetNondet, det_nondet_init, all_rounds, det_nondet_mutate, until_false,
}
use jackalope.Mutators.Combinators.Rounds.{until_false-det_nondet_mutate}

-- A deterministic mutator that is done after two calls, and one that always returns true.
abbrev two_calls : Child ℕ
two_calls n = some (ltb n 2, suc n)

abbrev any_calls : Child ℕ
any_calls n = some (true, suc n)

abbrev three_and_two : DetNondet
three_and_two = record {
  current_round = 4;
  num_rounds_deterministic = 3;
  num_rounds_nondeterministic = 2;
  last_mutator = none;
}

until_false-det_nondet_mutate_example :
    (s : DetNondet × ℕ) × (until_false 9
        (det_nondet_mutate two_calls any_calls)
        (det_nondet_init three_and_two, 0)
      ≡ some (all_rounds three_and_two, s))
    × Unit {0}
until_false-det_nondet_mutate_example =
    until_false-det_nondet_mutate {Good = λ n. Unit {0}} (λ n h. (ltb n 2, (suc n, refl, tt)))
      (λ n h. (true, (suc n, refl, tt))) three_and_two 0 9 tt (omega arith)
