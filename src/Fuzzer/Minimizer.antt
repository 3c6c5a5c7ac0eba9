-- ===== src/Fuzzer/Minimizer.antt =====
-- minimizer.h and minimizer.cpp, SimpleTrimmer, and fuzzer.cpp, MinimizeSample.
use jackalope.Prelude.{
  ℕ, zero, suc, ◌+◌, ◌-◌, ◌/◌, Option, none, some, Bool, ◌||◌, not, leb, ◌==◌, if◌then◌else◌,
}
use jackalope.Sample.{Sample, trim}
use jackalope.Coverage.{CoverageOps}
use jackalope.Fuzzer.Entries.{RunResult, ok}

-- TRIM_STEP_INITIAL
abbrev pub trim_step_initial : ℕ
trim_step_initial = 16

-- `while (trim_step >= sample->size) trim_step /= 2`, for a size above 1; `fuel` bounds the rounds.
unfoldable pub shrink_step : ℕ → ℕ → ℕ → ℕ
shrink_step zero size step = step
shrink_step (suc fuel) size step =
    let rest = shrink_step fuel size (step / 2) in if leb size step then rest else step

-- SimpleTrimmer::MinimizeStep: `none` is the return value 0, else the trimmed sample and the step.
unfoldable pub minimize_step : Sample → ℕ → Option (Sample × ℕ)
unfolding shrink_step
minimize_step sample step =
    if leb sample.size 1
    then none
    else (let s = shrink_step step sample.size step in
        if s == 0 then none else some (trim sample (sample.size - s), s))

-- SimpleTrimmer::ReportFail
abbrev pub report_fail : ℕ → ℕ
report_fail step = step / 2

-- What one run of the target gives: its result, whether its return value is interesting, and its
-- coverage.
pub record Run (Coverage : Type 0) : Type 0 where
  pub result : RunResult
  pub interesting : Bool
  pub coverage : Coverage

pub data Verdict : Type 0 where
  stops : Verdict
  fails : Verdict
  succeeds : Verdict

-- The tests after a run.
unfoldable pub judge :
    {Coverage : Type 0} → CoverageOps Coverage → Coverage → Run Coverage → Verdict
judge ops stable_coverage r = elim r.result [
  | ok ↦
      if not r.interesting || not (ops.coverage_contains r.coverage stable_coverage)
      then fails
      else succeeds
  | _ ↦ stops
]

-- The loop of MinimizeSample: `verdict n` judges the run number `n`, and `fuel` bounds the rounds;
-- `none` is a loop that goes on.
unfoldable pub minimize_loop : (ℕ → Sample → Verdict) → ℕ → ℕ → Sample → ℕ → Option Sample
minimize_loop verdict zero n sample step = none
minimize_loop verdict (suc fuel) n sample step = elim (minimize_step sample step) [
  | none ↦ some sample
  | some (test_sample, s) ↦ elim (verdict n test_sample) [
    | stops ↦ some sample
    | fails ↦ minimize_loop verdict fuel (suc n) sample (report_fail s)
    | succeeds ↦ minimize_loop verdict fuel (suc n) test_sample s
  ]
]

-- MinimizeSample with a SimpleTrimmer, where `runs n` is what the target does in its run number
-- `n`. Each round makes the sample or the step smaller.
unfoldable pub minimize_sample :
    {Coverage : Type 0}
    → CoverageOps Coverage
    → (ℕ → Sample → Run Coverage)
    → Coverage
    → Sample
    → Option Sample
unfolding minimize_loop judge
minimize_sample ops runs stable_coverage sample =
    minimize_loop (λ n s. judge ops stable_coverage (runs n s))
      (suc (sample.size + trim_step_initial)) 0 sample trim_step_initial
