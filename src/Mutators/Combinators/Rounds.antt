-- ===== src/Mutators/Combinators/Rounds.antt =====
-- mutator.h, NRoundMutator and DtermininsticNondeterministicMutator: how often Mutate returns true.
use jackalope.Prelude.{
  ℕ, zero, suc, ◌+◌, ◌-◌, ◌≤◌, ◌<◌, ◌≡◌, refl, inl, inr, some, Bool, true, false, ltb, ◌==◌,
  Bool-cases, le→ltb, lt→ltb, arith,
}
use jackalope.Mutators.Combinators.{
  Child, NRound, n_round_init, DetNondet, det_nondet_init, all_rounds, count_round, n_round_mutate,
  nondet_round, det_done, det_nondet_mutate, until_false,
}

-- A call that returns a value, and the world that it leaves.
abbrev pub Returns : {W : Type 0} → Child W → Bool → W → (W → Type 0) → Type 0
Returns {W} mutate b w P = (w' : W) × (mutate w ≡ some (b, w')) × P w'

-- From a world that is good, and with `left w` rounds left, Mutate returns true that many times and
-- then false, whichever calls it makes.
pub record Finite {W : Type 0} (mutate : Child W) (Good : W → Type 0) (left : W → ℕ) : Type 0 where
  pub done : (w : W) → Good w → left w ≡ 0 → Returns mutate false w (λ w'. Good w' × (left w' ≡ 0))
  pub more :
      (w : W) (n : ℕ)
      → Good w
      → left w ≡ suc n
      → Returns mutate true w (λ w'. Good w' × (left w' ≡ n))

module _ {W : Type 0} where
  until_false_done :
      (mutate : Child W) (fuel : ℕ) (w w' : W)
      → mutate w ≡ some (false, w')
      → until_false (suc fuel) mutate w ≡ some (0, w')
  unfolding until_false
  until_false_done mutate fuel w w' e = rw e refl

  until_false_more :
      (mutate : Child W) (fuel n : ℕ) (w w' w'' : W)
      → mutate w ≡ some (true, w')
      → until_false fuel mutate w' ≡ some (n, w'')
      → until_false (suc fuel) mutate w ≡ some (suc n, w'')
  unfolding until_false
  until_false_more mutate fuel n w w' w'' e f = rw (e, f) refl

  -- The loop over a finite mutator ends, and counts the rounds that were left.
  pub until_false-Finite :
      {mutate : Child W} {Good : W → Type 0} {left : W → ℕ}
      → Finite mutate Good left
      → (fuel n : ℕ) (w : W) → Good w
      → left w ≡ n
      → n < fuel
      → (w' : W) × (until_false fuel mutate w ≡ some (n, w')) × Good w' × (left w' ≡ 0)
  until_false-Finite law zero n w g e h = absurd (omega arith)
  until_false-Finite {mutate} law (suc fuel) zero w g e h =
      let (w', r, (g', l)) = law.done w g e in (w', until_false_done mutate fuel w w' r, g', l)
  until_false-Finite {mutate} law (suc fuel) (suc n) w g e h =
      let (w', r, (g', l)) = law.more w n g e in
      let (w'', f, good, none_left) = until_false-Finite law fuel n w' g' l (omega arith) in
      (w'', until_false_more mutate fuel n w w' w'' r f, good, none_left)

-- A child that from a good world returns something, and leaves a good world.
abbrev pub KeepsGood : {W : Type 0} → (W → Type 0) → Child W → Type 0
KeepsGood {W} Good child = (w : W) → Good w → (b : Bool) × Returns child b w Good

module _ {W : Type 0} {Good : W → Type 0} {child : Child W} (keeps : KeepsGood Good child) where
  abbrev InRounds : NRound × W → Type 0
  InRounds (m, w) = Good w × (m.current_round ≤ m.num_rounds)

  abbrev rounds_left : NRound × W → ℕ
  rounds_left (m, w) = m.num_rounds - m.current_round

  n_round_mutate-Finite : Finite (n_round_mutate child) InRounds rounds_left
  unfolding n_round_mutate
  n_round_mutate-Finite = record {
    done = λ s g l.
        let e : (s.0.current_round == s.0.num_rounds) ≡ true = ground arith in
        (s, rw e refl, (g, l));
    more = λ s n g l.
        let e : (s.0.current_round == s.0.num_rounds) ≡ false = ground arith in
        let (b, (w', r, g')) = keeps s.1 g.0 in
        (
          (record (s.0) { current_round = s.0.current_round + 1 }, w'),
          rw (e, r) refl,
          ((g', omega arith), omega arith),
        );
  }

  -- With a child that always returns, whatever it returns, NRoundMutator::Mutate after InitRound
  -- returns true exactly num_rounds times and then false, so the loop of a fuzzing job ends.
  pub until_false-n_round_mutate :
      (m : NRound) (w : W) (fuel : ℕ)
      → Good w
      → m.num_rounds < fuel
      → (s : NRound × W) × (until_false fuel (n_round_mutate child) (n_round_init m, w)
          ≡ some (m.num_rounds, s))
        × Good s.1
  until_false-n_round_mutate m w fuel g h =
      let (s, e, good, l) =
        until_false-Finite n_round_mutate-Finite fuel m.num_rounds (n_round_init m, w)
          (g, omega arith) (omega arith) h in
      (s, e, good.0)

module _ {W : Type 0} {Good : W → Type 0} {deterministic nondeterministic : Child W}
    (keeps : KeepsGood Good deterministic) (keeps' : KeepsGood Good nondeterministic) where
  abbrev InAll : DetNondet × W → Type 0
  InAll (m, w) = Good w × (m.current_round ≤ all_rounds m)

  abbrev all_left : DetNondet × W → ℕ
  all_left (m, w) = all_rounds m - m.current_round

  abbrev OneLess : ℕ → DetNondet × W → Type 0
  OneLess n s = InAll s × (all_left s ≡ n)

  nondet_round_more :
      (m : DetNondet) (w : W) (n : ℕ)
      → Good w
      → all_rounds m - m.current_round ≡ suc n
      → (s : DetNondet × W) × (nondet_round nondeterministic m w ≡ some (true, s)) × OneLess n s
  unfolding nondet_round
  nondet_round_more m w n g l =
      let e : ltb m.current_round (all_rounds m) ≡ true = lt→ltb _ _ (omega arith) in
      let (b, (w', r, g')) = keeps' w g in
      ((count_round 1 m, w'), rw (e, r) refl, ((g', omega arith), omega arith))

  nondet_round_done :
      (m : DetNondet) (w : W)
      → Good w
      → m.current_round ≡ all_rounds m
      → (s : DetNondet × W) × (nondet_round nondeterministic m w ≡ some (false, s)) × OneLess 0 s
  unfolding nondet_round
  nondet_round_done m w g l =
      let e : ltb m.current_round (all_rounds m) ≡ false = le→ltb _ _ (omega arith) in
      ((m, w), rw e refl, ((g, omega arith), omega arith))

  det_done_more :
      (m : DetNondet) (b : Bool) (w : W) (n : ℕ)
      → Good w
      → all_rounds m - m.current_round ≡ suc n
      → (s : DetNondet × W) × (det_done nondeterministic m (b, w) ≡ some (true, s)) × OneLess n s
  det_done_more m true w n g l = ((count_round 0 m, w), refl, ((g, omega arith), omega arith))
  det_done_more m false w n g l = nondet_round_more m w n g l

  det_nondet_more :
      (m : DetNondet) (w : W) (n : ℕ)
      → Good w
      → all_rounds m - m.current_round ≡ suc n
      → (s : DetNondet × W) × (det_nondet_mutate deterministic nondeterministic (m, w)
          ≡ some (true, s))
        × OneLess n s
  unfolding det_nondet_mutate
  det_nondet_more m w n g l = elim (Bool-cases (ltb m.current_round m.num_rounds_deterministic)) [
    | inl early ↦
        let (b, (w', r, g')) = keeps w g in
        let (s, e, h) = det_done_more m b w' n g' l in (s, rw (early, r) e, h)
    | inr late ↦ let (s, e, h) = nondet_round_more m w n g l in (s, rw late e, h)
  ]

  det_nondet_done :
      (m : DetNondet) (w : W)
      → Good w
      → m.current_round ≡ all_rounds m
      → (s : DetNondet × W) × (det_nondet_mutate deterministic nondeterministic (m, w)
          ≡ some (false, s))
        × OneLess 0 s
  unfolding det_nondet_mutate
  det_nondet_done m w g l =
      let late : ltb m.current_round m.num_rounds_deterministic ≡ false =
        le→ltb _ _ (omega arith) in
      let (s, e, h) = nondet_round_done m w g l in (s, rw late e, h)

  det_nondet_mutate-Finite :
      Finite (det_nondet_mutate deterministic nondeterministic) InAll all_left
  det_nondet_mutate-Finite = record {
    done = λ s g l. det_nondet_done s.0 s.1 g.0 (omega arith);
    more = λ s n g l. det_nondet_more s.0 s.1 n g.0 l;
  }

  -- With children that always return, whatever they return, Mutate of
  -- DtermininsticNondeterministicMutator after InitRound returns true as often as the two numbers
  -- of rounds say together, and then false.
  pub until_false-det_nondet_mutate :
      (m : DetNondet) (w : W) (fuel : ℕ)
      → Good w
      → all_rounds m < fuel
      → (s : DetNondet × W) × (until_false fuel
            (det_nondet_mutate deterministic nondeterministic)
            (det_nondet_init m, w)
          ≡ some (all_rounds m, s))
        × Good s.1
  until_false-det_nondet_mutate m w fuel g h =
      let (s, e, good, l) =
        until_false-Finite det_nondet_mutate-Finite fuel (all_rounds m) (det_nondet_init m, w)
          (g, omega arith) (omega arith) h in
      (s, e, good.0)
