-- ===== src/Fuzzer/Entries.antt =====
-- fuzzer.h, Fuzzer::SampleQueueEntry, and what FuzzJob (fuzzer.cpp) writes to an entry in one round.
use jackalope.Prelude.{ℕ, suc, ◌*◌, List, Bool, true, false, ◌&&◌, ◌||◌, ltb, ◌==◌, if◌then◌else◌}
use jackalope.Prelude.Memory.{Bytes}
use jackalope.Sample.{Sample}
use jackalope.Ranges.{Range}

pub data RunResult : Type 0 where
  ok : RunResult
  crash : RunResult
  hang : RunResult
  other_error : RunResult

-- SampleQueueEntry less the mutator's context. The priority is never above 0: it starts at 0,
-- falls by 1 or is set to 0, and the field holds how far below 0 it is.
pub record SampleQueueEntry : Type 0 where
  pub sample : Sample
  pub sample_filename : Bytes
  pub ranges : List Range
  pub priority_below_0 : ℕ
  pub sample_index : ℕ
  pub num_runs : ℕ
  pub num_crashes : ℕ
  pub num_hangs : ℕ
  pub num_newcoverage : ℕ
  pub discarded : Bool

-- CmpEntryPtrs: `rhs` is to be fuzzed before `lhs`.
abbrev pub cmp_entry : SampleQueueEntry → SampleQueueEntry → Bool
cmp_entry lhs rhs =
    if lhs.priority_below_0 == rhs.priority_below_0
    then ltb lhs.sample_index rhs.sample_index
    else ltb rhs.priority_below_0 lhs.priority_below_0

-- AdjustSamplePriority
unfoldable pub adjust_sample_priority : Bool → SampleQueueEntry → SampleQueueEntry
adjust_sample_priority true entry = record entry { priority_below_0 = 0 }
adjust_sample_priority false entry = record entry { priority_below_0 = suc entry.priority_below_0 }

abbrev is_crash : RunResult → Bool
is_crash crash = true
is_crash _ = false

abbrev is_hang : RunResult → Bool
is_hang hang = true
is_hang _ = false

-- A ratio from the options, as a fraction.
pub record Ratio : Type 0 where
  pub numerator : ℕ
  pub denominator : ℕ

-- `count > num_runs * ratio`
abbrev exceeds : ℕ → ℕ → Ratio → Bool
exceeds count runs r = ltb (runs * r.numerator) (count * r.denominator)

-- The counters of the entry after one round of the loop of FuzzJob.
unfoldable pub note_result : RunResult → Bool → SampleQueueEntry → SampleQueueEntry
unfolding adjust_sample_priority
note_result result has_new_coverage entry =
    let e = adjust_sample_priority has_new_coverage entry in
    record e {
      num_runs = suc e.num_runs;
      num_newcoverage = if has_new_coverage then suc e.num_newcoverage else e.num_newcoverage;
      num_hangs = if is_hang result then suc e.num_hangs else e.num_hangs;
      num_crashes = if is_crash result then suc e.num_crashes else e.num_crashes;
    }

-- Whether that round ends the loop with `discard_sample` set.
unfoldable pub should_discard : Ratio → Ratio → SampleQueueEntry → Bool
should_discard acceptable_hang_ratio acceptable_crash_ratio e =
    (ltb 10 e.num_hangs && exceeds e.num_hangs e.num_runs acceptable_hang_ratio)
    || (ltb 100 e.num_crashes && exceeds e.num_crashes e.num_runs acceptable_crash_ratio)
