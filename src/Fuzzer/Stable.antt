-- ===== src/Fuzzer/Stable.antt =====
-- fuzzer.cpp, RunSample and InterestingSample: what of a sample's coverage is stable, and what the
-- fuzzer has seen after it.
use jackalope.Prelude.{
  ℕ, ◌≡◌, refl, ap, ◌∙◌, Option, none, some, List, [], ◌∷◌, Bool, true, false, not, ◌&&◌, ◌||◌,
  if◌then◌else◌, arith,
}
use jackalope.Prelude.Memory.{Bytes, ◌>>=◌}
use jackalope.Coverage.{CoverageOps}
use jackalope.Fuzzer.Entries.{RunResult, ok}

-- One run of the target: its result and its coverage.
pub record Rerun (Coverage : Type 0) : Type 0 where
  pub result : RunResult
  pub coverage : Coverage

abbrev pub is_ok : RunResult → Bool
is_ok ok = true
is_ok _ = false

module _ {Coverage : Type 0} (ops : CoverageOps Coverage) where
  -- The loop of RunSample over the reruns: the stable and the total coverage, or `none` where a
  -- rerun does not end with OK and RunSample returns.
  unfoldable pub retry : Coverage → Coverage → List (Rerun Coverage) → Option (Coverage × Coverage)
  retry stable total [] = some (stable, total)
  retry stable total (r ∷ rest) =
      let next =
        retry (ops.coverage_intersection stable r.coverage) (ops.merge_coverage total r.coverage)
          rest in
      if is_ok r.result then next else none

  -- InterestingSample: whether there is new stable coverage, the two parts that are new, and the
  -- new `fuzzer_coverage`.
  unfoldable pub interesting_sample :
      Coverage → Coverage → Coverage → Bool × Coverage × Coverage × Coverage
  interesting_sample fuzzer_coverage stable variable =
      let new_stable = ops.coverage_difference fuzzer_coverage stable in
      let new_variable = ops.coverage_difference fuzzer_coverage variable in
      (
        not (ops.empty new_stable),
        new_stable,
        new_variable,
        ops.merge_coverage (ops.merge_coverage fuzzer_coverage new_stable) new_variable,
      )

  -- RunSample from the first run's coverage on, with the reruns that the target gives: the result
  -- of InterestingSample, and the total coverage, which is ignored from then on.
  unfoldable pub evaluate :
      Coverage
      → Coverage
      → List (Rerun Coverage)
      → Option ((Bool × Coverage × Coverage × Coverage) × Coverage)
  unfolding retry interesting_sample
  evaluate fuzzer_coverage initial reruns = do
    (stable, total) ← retry initial initial reruns
    some (interesting_sample fuzzer_coverage stable (ops.coverage_difference stable total), total)

  -- Whether all the runs, or some of them, cover an offset.
  abbrev pub in_all : Bytes → ℕ → List (Rerun Coverage) → Bool
  in_all m x [] = true
  in_all m x (r ∷ rest) = ops.has r.coverage m x && in_all m x rest

  abbrev pub in_some : Bytes → ℕ → List (Rerun Coverage) → Bool
  in_some m x [] = false
  in_some m x (r ∷ rest) = ops.has r.coverage m x || in_some m x rest

  abbrev pub all_ok : List (Rerun Coverage) → Bool
  all_ok [] = true
  all_ok (r ∷ rest) = is_ok r.result && all_ok rest

  retry-has :
      (stable total : Coverage) (reruns : List (Rerun Coverage))
      → all_ok reruns ≡ true
      → (s : Coverage) × (t : Coverage) × (retry stable total reruns ≡ some (s, t))
        × ((m : Bytes) (x : ℕ) → ops.has s m x ≡ ops.has stable m x && in_all m x reruns)
        × ((m : Bytes) (x : ℕ) → ops.has t m x ≡ ops.has total m x || in_some m x reruns)
  unfolding retry
  retry-has stable total [] h = (stable, total, refl, λ m x. ground arith, λ m x. ground arith)
  retry-has stable total (r ∷ rest) h =
      let fine : is_ok r.result ≡ true = ground (arith, h) in
      let (s, t, e, all, any) =
        retry-has (ops.coverage_intersection stable r.coverage)
          (ops.merge_coverage total r.coverage) rest (ground (arith, h)) in
      (
        s,
        t,
        rw fine e,
        λ m x. ground (arith, all m x, ops.has-intersection stable r.coverage m x),
        λ m x. ground (arith, any m x, ops.has-merge total r.coverage m x),
      )

  -- Where all reruns of a sample end with OK, the new stable coverage is what every run had and
  -- the fuzzer had not seen, the new variable coverage is what some run but not every run had
  -- and the fuzzer had not seen, and afterwards the fuzzer has seen exactly what it had seen or
  -- some run had.
  pub evaluate-has :
      (fuzzer_coverage initial : Coverage) (reruns : List (Rerun Coverage))
      → all_ok reruns ≡ true
      → (new : Bool) × (stable : Coverage) × (variable : Coverage) × (seen : Coverage)
        × (total : Coverage) × (evaluate fuzzer_coverage initial reruns
            ≡ some ((new, stable, variable, seen), total))
        × ((m : Bytes) (x : ℕ)
            → ops.has stable m x
              ≡ (ops.has initial m x && in_all m x reruns) && not (ops.has fuzzer_coverage m x))
        × ((m : Bytes) (x : ℕ)
            → ops.has variable m x
              ≡ ((ops.has initial m x || in_some m x reruns)
                  && not (ops.has initial m x && in_all m x reruns))
                && not (ops.has fuzzer_coverage m x))
        × ((m : Bytes) (x : ℕ)
            → ops.has seen m x
              ≡ ops.has fuzzer_coverage m x || (ops.has initial m x || in_some m x reruns))
  unfolding evaluate interesting_sample
  evaluate-has f initial reruns h =
      let (s, t, e, all, any) = retry-has initial initial reruns h in
      let v = ops.coverage_difference s t in
      let ns = ops.coverage_difference f s in
      let nv = ops.coverage_difference f v in
      (
        not (ops.empty ns),
        ns,
        nv,
        ops.merge_coverage (ops.merge_coverage f ns) nv,
        t,
        rw e refl,
        λ m x. ops.has-difference f s m x ∙ ap (λ b. b && not (ops.has f m x)) (all m x),
        λ m x.
            ground
              (arith, all m x, any m x, ops.has-difference f v m x, ops.has-difference s t m x),
        λ m x. ground (
          arith,
          all m x,
          any m x,
          ops.has-merge (ops.merge_coverage f ns) nv m x,
          ops.has-merge f ns m x,
          ops.has-difference f s m x,
          ops.has-difference f v m x,
          ops.has-difference s t m x,
        ),
      )
