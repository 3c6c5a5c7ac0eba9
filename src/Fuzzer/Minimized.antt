-- ===== src/Fuzzer/Minimized.antt =====
-- That MinimizeSample ends, and with what.
use jackalope.Prelude.{
  ℕ, zero, suc, ◌+◌, ◌-◌, ◌/◌, ◌≤◌, ◌<◌, ◌≡◌, refl, sym, ap, ◌∙◌, ◌⊎◌, inl, inr, Option, none, some,
  [], ◌∷◌, true, leb, ◌==◌, length, take, take_all, length-take, Bool-cases, Option-cases, arith,
}
use jackalope.Prelude.Memory.{Bytes}
use jackalope.Sample.{Sample, content, IsValid, trim}
use jackalope.Sample.Contents.{trim_lem}
use jackalope.Coverage.{CoverageOps}
use jackalope.Fuzzer.Entries.{ok}
use jackalope.Fuzzer.Minimizer.{
  trim_step_initial, shrink_step, minimize_step, report_fail, Run, Verdict, stops, fails, succeeds,
  judge, minimize_loop, minimize_sample,
}

shrink_step-le : (fuel size step : ℕ) → shrink_step fuel size step ≤ step
unfolding shrink_step
shrink_step-le zero size step = omega arith
shrink_step-le (suc fuel) size step = ground (arith, shrink_step-le fuel size (step / 2))

-- The loop on the step ends below the size.
shrink_step-lt : (fuel size step : ℕ) → 2 ≤ size → step ≤ fuel → shrink_step fuel size step < size
unfolding shrink_step
shrink_step-lt zero size step h f = omega arith
shrink_step-lt (suc fuel) size step h f = elim (Bool-cases (leb size step)) [
  | inl big ↦ rw big (shrink_step-lt fuel size (step / 2) h (ground arith))
  | inr small ↦ rw small (ground arith)
]

-- A step of the trimmer cuts at least a byte and leaves one.
minimize_step-trim :
    (sample test : Sample) (step s : ℕ)
    → minimize_step sample step ≡ some (test, s)
    → (test ≡ trim sample (sample.size - s)) × (1 ≤ s) × (s < sample.size) × (s ≤ step)
unfolding minimize_step
minimize_step-trim sample test step s e = elim (Bool-cases (leb sample.size 1)) [
  | inl little ↦ ground (arith, little, e)
  | inr enough ↦
      let t = shrink_step step sample.size step in
      elim (Bool-cases (t == 0)) [
        | inl no_step ↦ ground (arith, enough, no_step, e)
        | inr step_left ↦
            let r : some (trim sample (sample.size - t), t) ≡ some (test, s) =
              sym (rw (enough, step_left) refl) ∙ e in
            let q : (trim sample (sample.size - t), t) ≡ (test, s) = some-inj _ _ r in
            let same : shrink_step step sample.size step ≡ s = ap (λ (p : Sample × ℕ). p.1) q in
            (
              sym (ap (λ (p : Sample × ℕ). p.0) q) ∙ ap (λ k. trim sample (sample.size - k)) same,
              ground (arith, same, step_left),
              ground (arith, same, enough, shrink_step-lt step sample.size step),
              ground (arith, same, shrink_step-le step sample.size step),
            )
      ]
]
  where
    some-inj : (a b : Sample × ℕ) → some a ≡ some b → a ≡ b
    some-inj a b e = ap (λ (o : Option (Sample × ℕ)). elim o [ none ↦ a | some p ↦ p ]) e

-- A sample that comes from another one by cutting its end.
pub record IsPrefix (r s : Sample) : Type 0 where
  pub valid : IsValid r
  pub le : r.size ≤ s.size
  pub bytes : content r ≡ take r.size (content s)

trim-IsPrefix :
    (r s test : Sample) (n : ℕ)
    → IsPrefix r s
    → n ≤ r.size
    → test ≡ trim r n
    → IsPrefix test s × (test.size ≡ n)
trim-IsPrefix r s test n p le e =
    let (b, k) = trim_lem r n p.valid le in
    let size : test.size ≡ n = ap (λ (x : Sample). x.size) e ∙ k in
    let bytes : content test ≡ take n (content r) = ap (λ (x : Sample). content x) e ∙ b in
    (
      record {
        valid = omega (arith, ap length bytes, length-take n (content r), p.valid);
        le = omega (arith, p.le);
        bytes =
            bytes
            ∙ ap (take n) p.bytes
            ∙ take_take n r.size (content s) le
            ∙ ap (λ k. take k (content s)) (sym size);
      },
      size,
    )
  where
    take_take : (n m : ℕ) (xs : Bytes) → n ≤ m → take n (take m xs) ≡ take n xs
    take_take zero m xs h = refl
    take_take (suc n) zero xs h = absurd (omega arith)
    take_take (suc n) (suc m) [] h = refl
    take_take (suc n) (suc m) (x ∷ xs) h = ap (◌∷◌ x) (take_take n m xs (omega arith))

-- Where the loop may end: at the sample it started with or at one that some run accepted.
abbrev pub IsAccepted : (ℕ → Sample → Verdict) → Sample → Sample → Type 0
IsAccepted verdict s r = (r ≡ s) ⊎ ((n : ℕ) × (verdict n r ≡ succeeds))

record Minimized (verdict : ℕ → Sample → Verdict) (s r : Sample) : Type 0 where
  prefix : IsPrefix r s
  accepted : IsAccepted verdict s r

Verdict-cases : (v : Verdict) → (v ≡ stops) ⊎ ((v ≡ fails) ⊎ (v ≡ succeeds))
Verdict-cases stops = inl refl
Verdict-cases fails = inr (inl refl)
Verdict-cases succeeds = inr (inr refl)

judge-succeeds :
    {Coverage : Type 0} (ops : CoverageOps Coverage) (stable : Coverage) (r : Run Coverage)
    → judge ops stable r ≡ succeeds
    → (r.result ≡ ok) × (r.interesting ≡ true) × (ops.coverage_contains r.coverage stable ≡ true)
unfolding judge
judge-succeeds ops stable r h = (ground (arith, h), ground (arith, h), ground (arith, h))

minimize_loop_end :
    (verdict : ℕ → Sample → Verdict) (fuel n : ℕ) (sample : Sample) (step : ℕ)
    → minimize_step sample step ≡ none
    → minimize_loop verdict (suc fuel) n sample step ≡ some sample
unfolding minimize_loop
minimize_loop_end verdict fuel n sample step e = rw (minimize_loop, e) refl

minimize_loop_run :
    (verdict : ℕ → Sample → Verdict) (fuel n : ℕ) (sample test : Sample) (step s : ℕ)
    → minimize_step sample step ≡ some (test, s)
    → minimize_loop verdict (suc fuel) n sample step ≡ elim (verdict n test) [
      | stops ↦ some sample
      | fails ↦ minimize_loop verdict fuel (suc n) sample (report_fail s)
      | succeeds ↦ minimize_loop verdict fuel (suc n) test s
    ]
unfolding minimize_loop
minimize_loop_run verdict fuel n sample test step s e = rw (minimize_loop, e) refl

minimize_loop-Minimized :
    (verdict : ℕ → Sample → Verdict) (fuel n : ℕ) (start sample : Sample) (step : ℕ)
    → sample.size + step < fuel
    → Minimized verdict start sample
    → (r : Sample) × (minimize_loop verdict fuel n sample step ≡ some r) × Minimized verdict start r
minimize_loop-Minimized verdict zero n start sample step f m = absurd (omega arith)
minimize_loop-Minimized verdict (suc fuel) n start sample step f m =
    elim (Option-cases (minimize_step sample step)) [
      | inl end ↦ (sample, minimize_loop_end verdict fuel n sample step end, m)
      | inr ((test, s), go) ↦
          let (cut, pos, lt, le) = minimize_step-trim sample test step s go in
          let next = minimize_loop_run verdict fuel n sample test step s go in
          elim (Verdict-cases (verdict n test)) [
            | inl v ↦ (sample, next ∙ rw v refl, m)
            | inr (inl v) ↦
                let (r, e, k) =
                  minimize_loop-Minimized verdict fuel (suc n) start sample (report_fail s)
                    (omega arith) m in
                (r, next ∙ rw v e, k)
            | inr (inr v) ↦
                let (p, size) =
                  trim-IsPrefix sample start test (sample.size - s) m.prefix (omega arith) cut in
                let (r, e, k) =
                  minimize_loop-Minimized verdict fuel (suc n) start test s (omega arith)
                    (record { prefix = p; accepted = inr (n, v) }) in
                (r, next ∙ rw v e, k)
          ]
    ]

-- Whatever the runs of the target give, MinimizeSample on a valid sample ends, with a prefix of the
-- sample: the sample itself, or a shorter one that a run succeeded with, so that the target
-- returned normally with an interesting value, and covered all of the stable coverage.
pub minimize_sample-ends :
    {Coverage : Type 0} (ops : CoverageOps Coverage) (runs : ℕ → Sample → Run Coverage)
    (stable_coverage : Coverage) (sample : Sample)
    → IsValid sample
    → (r : Sample) × (minimize_sample ops runs stable_coverage sample ≡ some r)
      × IsPrefix r sample
      × ((r ≡ sample)
          ⊎ ((n : ℕ) × ((runs n r).result ≡ ok)
              × ((runs n r).interesting ≡ true)
              × (ops.coverage_contains (runs n r).coverage stable_coverage ≡ true)))
unfolding minimize_sample
minimize_sample-ends ops runs stable sample valid =
    let (r, e, k) =
      minimize_loop-Minimized (λ n s. judge ops stable (runs n s))
        (suc (sample.size + trim_step_initial)) 0 sample sample trim_step_initial (omega arith)
        (record {
          prefix = record {
            valid = valid;
            le = omega arith;
            bytes = sym (take_all (content sample) sample.size (omega arith));
          };
          accepted = inl refl;
        }) in
    (
      r,
      e,
      k.prefix,
      elim k.accepted [
        | inl same ↦ inl same
        | inr (n, v) ↦ let (a, b, c) = judge-succeeds ops stable (runs n r) v in inr (n, a, b, c)
      ],
    )
