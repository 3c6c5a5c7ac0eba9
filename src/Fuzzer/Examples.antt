-- ===== src/Fuzzer/Examples.antt =====
-- A session with one input file, and the fuzzer's theorems at it.
use jackalope.Prelude.{
  arith, take, drop, ℕ, ◌+◌, ◌<◌, ◌≡◌, ◌≢◌, refl, ◌⊎◌, Option, none, some, List, [], ◌∷◌, Bool,
  true, false, not, ◌&&◌, ◌||◌, length, get_elem?, if◌then◌else◌, ◌==◌,
}
use jackalope.Sample.{content, IsValid, Sample, new_sample, done, load_from}
use jackalope.Fuzzer.Entries.{SampleQueueEntry}
use jackalope.Fuzzer.Queue.{count, pop_top, greatest}
use jackalope.Coverage.Lists.{Offsets, offsets}
use jackalope.Prelude.Memory.{store_le, load_le, length-store_le}
use jackalope.Fuzzer.Saved.{Doubles, IsSavable, save_entry, load_entry, load_entry-save_entry}
use jackalope.Fuzzer.Magic.{magic_output_filter, delivered, delivered-magic_output_filter}
use jackalope.Fuzzer.Entries
use jackalope.Fuzzer.Minimizer
use jackalope.Fuzzer.Minimizer.{minimize_sample}
use jackalope.Fuzzer.Minimized.{IsPrefix, minimize_sample-ends}
use jackalope.Fuzzer.Stable.{Rerun, evaluate, in_all, in_some, evaluate-has}
use jackalope.Fuzzer.Schedule
use jackalope.Fuzzer.Schedule.{
  FuzzerState, fuzzing, FuzzerJob, process_sample, fuzz, wait, Fuzzer, Options, World,
}
use jackalope.Fuzzer.Handout.{
  create_job, load_input, synchronize_and_get_job, job_done, count_sample, push_entry,
}
use jackalope.Fuzzer.Threads.{
  processing, fuzzed_by, takes, numbers, enters, ends, Reaches, starts, steps,
}
use jackalope.Fuzzer.Consistent.{IsConsistent, flagged}
use jackalope.Fuzzer.Order.{IsTop, pop_top-IsTop}
use jackalope.Fuzzer.Session.{run, reached-IsConsistent, takes-fuzz}
use jackalope.Fuzzer.Waiting.{takes-wait}

abbrev no_server : Options
no_server = record {
  server = false;
  skip_initial_server_sync = false;
  server_update_interval_ms = 300_000;
  dry_run = false;
  max_size = 1_000_000;
}

abbrev quiet_world : World
quiet_world = record {
  time_of_save = 0;
  time_of_check = 0;
  time_of_update = 0;
  updates = [];
  can_generate_sample = false;
  generated = new_sample;
  files = λ name. some (1 ∷ 2 ∷ []);
  state_file = none;
}

abbrev one_file : Option (List (List ℕ))
one_file = some ((b'a' ∷ []) ∷ [])

abbrev input : Sample
input = record { bytes = some (1 ∷ 2 ∷ []); size = 2; filename = [] }

abbrev entry : SampleQueueEntry
entry = record {
  sample = input;
  sample_filename = [];
  ranges = [];
  priority_below_0 = 0;
  sample_index = 0;
  num_runs = 0;
  num_crashes = 0;
  num_hangs = 0;
  num_newcoverage = 0;
  discarded = false;
}

abbrev loading : Fuzzer
loading = record (run one_file 0) { input_files = []; samples_pending = 1 }

load_input_file :
    synchronize_and_get_job no_server quiet_world (run one_file 0)
    ≡ done (process_sample input, loading)
unfolding synchronize_and_get_job run Schedule.restore_if_needed Schedule.save_if_due
    Schedule.poll_server Schedule.leave_inputs Schedule.leave_server Schedule.need_samples
    Schedule.leave_generating create_job load_input load_from
load_input_file = refl

-- Another thread asks for a job meanwhile.
wait_for_input : synchronize_and_get_job no_server quiet_world loading ≡ done (wait, loading)
unfolding synchronize_and_get_job run Schedule.restore_if_needed Schedule.save_if_due
    Schedule.poll_server Schedule.leave_inputs Schedule.leave_server Schedule.need_samples
    Schedule.leave_generating create_job
wait_for_input = refl

abbrev processed : Fuzzer
processed = record (run one_file 0) {
  input_files = [];
  all_entries = entry ∷ [];
  sample_queue = 0 ∷ [];
  num_samples = 1;
}

abbrev started : Fuzzer
started = record processed { state = fuzzing; sample_queue = [] }

loading-Reaches : Reaches no_server (run one_file 0) loading (process_sample input ∷ [])
loading-Reaches = steps starts (takes quiet_world load_input_file)

processed-Reaches : Reaches no_server (run one_file 0) processed []
unfolding job_done count_sample push_entry run
processed-Reaches =
    steps (steps (steps loading-Reaches numbers) (enters entry refl))
      (ends [] [] (process_sample input) false)

fuzz_input : synchronize_and_get_job no_server quiet_world processed ≡ done (fuzz 0, started)
unfolding synchronize_and_get_job run Schedule.restore_if_needed Schedule.save_if_due
    Schedule.poll_server Schedule.leave_inputs Schedule.leave_server Schedule.need_samples
    Schedule.leave_generating create_job pop_top greatest
fuzz_input = refl

reached-IsConsistent_example : IsConsistent started (fuzz 0 ∷ [])
reached-IsConsistent_example =
    reached-IsConsistent no_server one_file 0 started (fuzz 0 ∷ [])
      (steps processed-Reaches (takes quiet_world fuzz_input))

takes-fuzz_example :
    (started.input_files ≡ [])
    × (processing [] ≡ 0)
    × (0 < length started.all_entries)
    × (flagged (get_elem? started.all_entries 0) ≡ 0)
    × (fuzzed_by 0 [] ≡ 0)
    × (count 0 started.sample_queue ≡ 0)
takes-fuzz_example =
    takes-fuzz no_server one_file 0 quiet_world processed started [] 0 processed-Reaches fuzz_input

takes-wait_example :
    (processing (process_sample input ∷ []) ≢ 0)
    ⊎ ((loading.state ≡ fuzzing) × ((no_server.dry_run ≡ true) ⊎ (loading.sample_queue ≡ [])))
takes-wait_example =
    takes-wait no_server one_file 0 quiet_world loading loading (process_sample input ∷ [])
      loading-Reaches wait_for_input

abbrev two_entries : List SampleQueueEntry
two_entries = record entry { priority_below_0 = 3 } ∷ entry ∷ []

pop_top-IsTop_example :
    IsTop two_entries 1 (0 ∷ 1 ∷ [])
    × ((p : ℕ) → count p (0 ∷ 1 ∷ []) ≡ (if p == 1 then 1 else 0) + count p (0 ∷ []))
unfolding pop_top greatest
pop_top-IsTop_example = pop_top-IsTop two_entries (0 ∷ 1 ∷ []) 1 (0 ∷ []) refl

-- A target that succeeds with every sample.
abbrev always : ℕ → Sample → Minimizer.Run Offsets
always n s = record { result = Entries.ok; interesting = true; coverage = (b'm' ∷ [], 1) ∷ [] }

minimize_sample-ends_example :
    (r : Sample) × (minimize_sample offsets always ((b'm' ∷ [], 1) ∷ []) input ≡ some r)
    × IsPrefix r input
    × ((r ≡ input)
        ⊎ ((n : ℕ) × ((always n r).result ≡ Entries.ok)
            × ((always n r).interesting ≡ true)
            × (offsets.coverage_contains (always n r).coverage ((b'm' ∷ [], 1) ∷ []) ≡ true)))
minimize_sample-ends_example = minimize_sample-ends offsets always ((b'm' ∷ [], 1) ∷ []) input refl

abbrev rerun : Rerun Offsets
rerun = record { result = Entries.ok; coverage = (b'm' ∷ [], 1) ∷ (b'm' ∷ [], 2) ∷ [] }

evaluate-has_example :
    (new : Bool) × (stable : Offsets) × (variable : Offsets) × (seen : Offsets) × (total : Offsets)
    × (evaluate offsets [] ((b'm' ∷ [], 1) ∷ []) (rerun ∷ [])
        ≡ some ((new, stable, variable, seen), total))
    × ((m : List ℕ) (x : ℕ)
        → offsets.has stable m x
          ≡ (offsets.has ((b'm' ∷ [], 1) ∷ []) m x && in_all offsets m x (rerun ∷ []))
            && not (offsets.has [] m x))
    × ((m : List ℕ) (x : ℕ)
        → offsets.has variable m x
          ≡ ((offsets.has ((b'm' ∷ [], 1) ∷ []) m x || in_some offsets m x (rerun ∷ []))
              && not (offsets.has ((b'm' ∷ [], 1) ∷ []) m x && in_all offsets m x (rerun ∷ [])))
            && not (offsets.has [] m x))
    × ((m : List ℕ) (x : ℕ)
        → offsets.has seen m x
          ≡ offsets.has [] m x
            || (offsets.has ((b'm' ∷ [], 1) ∷ []) m x || in_some offsets m x (rerun ∷ [])))
evaluate-has_example = evaluate-has offsets [] ((b'm' ∷ [], 1) ∷ []) (rerun ∷ []) refl

-- A representation for the test.
abbrev doubles : Doubles
doubles = record { store = store_le 8; load = load_le; length-store = length-store_le 8 }

entry-IsSavable : IsSavable doubles entry
unfolding load_le store_le
entry-IsSavable = record {
  named = tt;
  short = omega arith;
  priority = refl;
  index = omega arith;
  runs = omega arith;
  crashes = omega arith;
  hangs = omega arith;
  newcoverage = omega arith;
  few = omega arith;
  bounded = tt;
}

load_entry-save_entry_example :
    load_entry doubles (save_entry doubles entry (1 ∷ []))
    ≡ (record entry { sample = new_sample }, 1 ∷ [])
load_entry-save_entry_example = load_entry-save_entry doubles entry (1 ∷ []) entry-IsSavable

delivered-magic_output_filter_example :
    (take 1 (content (delivered (magic_output_filter (9 ∷ []) input) input)) ≡ 9 ∷ [])
    × (drop 1 (content (delivered (magic_output_filter (9 ∷ []) input) input))
        ≡ drop 1 (content input))
    × IsValid (delivered (magic_output_filter (9 ∷ []) input) input)
delivered-magic_output_filter_example =
    delivered-magic_output_filter (9 ∷ []) input refl (omega arith)
