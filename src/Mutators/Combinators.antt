-- ===== src/Mutators/Combinators.antt =====
-- mutator.h: the mutators that call other mutators. A child's Mutate is a function on a world `W`,
-- which holds the sample, the random numbers and the child's own state; its flag is the return
-- value, and `none` is an access outside a buffer.
pub mod Rounds
pub mod Sequence
mod Examples
use jackalope.Prelude.{
  ℕ, zero, suc, ◌+◌, ◌*◌, ◌%◌, Option, none, some, List, [], ◌∷◌, Bool, true, false, ltb, ◌==◌,
  if◌then◌else◌, length, get_elem?,
}
use jackalope.Prelude.Memory.{◌>>=◌}

abbrev pub Child : Type 0 → Type 0
Child W = W → Option (Bool × W)

-- NRoundMutator
pub record NRound : Type 0 where
  pub current_round : ℕ
  pub num_rounds : ℕ

-- NRoundMutator::InitRound, after the child's own.
abbrev pub n_round_init : NRound → NRound
n_round_init m = record m { current_round = 0 }

-- DtermininsticNondeterministicMutator, with the index of `last_mutator`.
pub record DetNondet : Type 0 where
  pub current_round : ℕ
  pub num_rounds_deterministic : ℕ
  pub num_rounds_nondeterministic : ℕ
  pub last_mutator : Option ℕ

-- DtermininsticNondeterministicMutator::InitRound, after the children's own.
abbrev pub det_nondet_init : DetNondet → DetNondet
det_nondet_init m = record m { current_round = 0 }

abbrev pub all_rounds : DetNondet → ℕ
all_rounds m = m.num_rounds_deterministic + m.num_rounds_nondeterministic

abbrev pub count_round : ℕ → DetNondet → DetNondet
count_round used m = record m { current_round = m.current_round + 1; last_mutator = some used }

module _ {W : Type 0} where
  -- NRoundMutator::Mutate
  unfoldable pub n_round_mutate : Child W → NRound × W → Option (Bool × (NRound × W))
  n_round_mutate child (m, w) =
      if m.current_round == m.num_rounds
      then some (false, (m, w))
      else (do r ← child w; some (true, (record m { current_round = m.current_round + 1 }, r.1)))

  -- The second half of DtermininsticNondeterministicMutator::Mutate.
  unfoldable pub nondet_round : Child W → DetNondet → W → Option (Bool × (DetNondet × W))
  nondet_round nondeterministic m w =
      if ltb m.current_round (all_rounds m)
      then (do r ← nondeterministic w; some (true, (count_round 1 m, r.1)))
      else some (false, (m, w))

  abbrev pub det_done : Child W → DetNondet → Bool × W → Option (Bool × (DetNondet × W))
  det_done nondeterministic m (true, w) = some (true, (count_round 0 m, w))
  det_done nondeterministic m (false, w) = nondet_round nondeterministic m w

  -- DtermininsticNondeterministicMutator::Mutate
  unfoldable pub det_nondet_mutate :
      Child W → Child W → DetNondet × W → Option (Bool × (DetNondet × W))
  unfolding nondet_round
  det_nondet_mutate deterministic nondeterministic (m, w) =
      if ltb m.current_round m.num_rounds_deterministic
      then (do r ← deterministic w; det_done nondeterministic m r)
      else nondet_round nondeterministic m w

  abbrev pub step_index : Bool × (ℕ × W) → Bool × (ℕ × W)
  step_index (b, (i, w)) = (b, (suc i, w))

  -- The loop of MutatorSequence::Mutate over the children from the index on: the result has the
  -- return value and the index after it, counted from the head of the list.
  unfoldable pub sequence_loop : ℕ → List (Child W) → W → Option (Bool × (ℕ × W))
  sequence_loop i [] w = some (false, (i, w))
  sequence_loop zero (child ∷ children) w =
      let rest = λ (w : W). sequence_loop 0 children w in
      (do
        r ← child w
        if r.0 then some (true, (0, r.1)) else (do n ← rest r.1; some (step_index n)))
  sequence_loop (suc i) (child ∷ children) w = do
    n ← sequence_loop i children w
    some (step_index n)

  -- MutatorSequence::Mutate on current_mutator_index and the world.
  unfoldable pub sequence_mutate : List (Child W) → ℕ × W → Option (Bool × (ℕ × W))
  unfolding sequence_loop
  sequence_mutate children (i, w) = sequence_loop i children w

  -- Calls until one returns false, as the loop of Fuzzer::FuzzJob makes them, and how many returned
  -- true; `none` when the fuel runs out.
  unfoldable pub until_false : ℕ → Child W → W → Option (ℕ × W)
  until_false zero mutate w = none
  until_false (suc fuel) mutate w =
      let rest = λ (w : W). until_false fuel mutate w in
      (do r ← mutate w; if r.0 then (do n ← rest r.1; some (suc n.0, n.1)) else some (0, r.1))

-- MutatorSequence::InitRound and AddHotOffset, after the children's own: current_mutator_index.
abbrev pub sequence_init : Bool → ℕ → ℕ
sequence_init restart_each_round i = if restart_each_round then 0 else i

abbrev pub sequence_hot : Bool → ℕ → ℕ
sequence_hot restart_on_hot_offset i = if restart_on_hot_offset then 0 else i
