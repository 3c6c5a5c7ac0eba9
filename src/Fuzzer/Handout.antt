-- ===== src/Fuzzer/Handout.antt =====
-- fuzzer.cpp: SynchronizeAndGetJob gives a thread its job, JobDone takes it back, and SaveSample
-- enters what was found.
use jackalope.Prelude.{
  ℕ, suc, ◌-◌, ◌^◌, Option, none, some, List, [], ◌∷◌, ◌++◌, Bool, true, ltb, leb, ◌==◌,
  if◌then◌else◌, length, set, get_elem?,
}
use jackalope.Prelude.Memory.{Bytes}
use jackalope.Sample.{Sample, new_sample, Outcome, done, fatal, out_of_bounds, load_from, trim}
use jackalope.Fuzzer.Entries.{SampleQueueEntry}
use jackalope.Fuzzer.Queue.{pop_top}
use jackalope.Fuzzer.Schedule.{
  fuzzing, wait, fuzz, process_sample, input_sample_processing, server_sample_processing,
  generating_samples, restore_needed, FuzzerJob, Fuzzer, Options, World, min_samples_to_generate,
  restore_if_needed, save_if_due, poll_server, leave_inputs, leave_server, need_samples,
  leave_generating,
}

-- An input file loaded, and cut at the greatest size.
unfoldable pub load_input : Options → World → Bytes → Sample
load_input o w name =
    let s = (load_from w.files name new_sample).1 in
    if ltb o.max_size s.size then trim s o.max_size else s

abbrev pub fuzz_top : Fuzzer → Option (ℕ × List ℕ) → FuzzerJob × Fuzzer
fuzz_top f none = (wait, f)
fuzz_top f (some (p, q)) = (fuzz p, record f { sample_queue = q })

abbrev pub next_input : Options → World → Fuzzer → List Bytes → FuzzerJob × Fuzzer
next_input o w f [] = (wait, f)
next_input o w f (name ∷ names) = (
  process_sample (load_input o w name),
  record f { input_files = names; samples_pending = suc f.samples_pending },
)

abbrev pub next_server_sample : Fuzzer → List Sample → FuzzerJob × Fuzzer
next_server_sample f [] = (wait, f)
next_server_sample f (s ∷ rest) =
    (process_sample s, record f { server_samples = rest; samples_pending = suc f.samples_pending })

-- The job for the state.
unfoldable pub create_job : Options → World → Fuzzer → FuzzerJob × Fuzzer
unfolding pop_top load_input
create_job o w f = elim f.state [
  | fuzzing ↦ if o.dry_run then (wait, f) else fuzz_top f (pop_top f.all_entries f.sample_queue)
  | input_sample_processing ↦ next_input o w f f.input_files
  | server_sample_processing ↦ next_server_sample f f.server_samples
  | generating_samples ↦
      if leb min_samples_to_generate (length f.sample_queue)
      then (wait, f)
      else (process_sample w.generated, record f { samples_pending = suc f.samples_pending })
  | restore_needed ↦ (wait, f)
]

-- SynchronizeAndGetJob
unfoldable pub synchronize_and_get_job : Options → World → Fuzzer → Outcome (FuzzerJob × Fuzzer)
unfolding restore_if_needed save_if_due poll_server leave_inputs leave_server need_samples
    leave_generating create_job
synchronize_and_get_job o w f = elim (restore_if_needed w f) [
  | done f1 ↦
      elim (need_samples w (leave_server (leave_inputs o w (poll_server o w (save_if_due w f1))))) [
        | done f2 ↦ done (create_job o w (leave_generating f2))
        | fatal ↦ fatal
        | out_of_bounds ↦ out_of_bounds
      ]
  | fatal ↦ fatal
  | out_of_bounds ↦ out_of_bounds
]

abbrev pub mark_discarded :
    Option SampleQueueEntry → ℕ → List SampleQueueEntry → List SampleQueueEntry
mark_discarded none p entries = entries
mark_discarded (some e) p entries = set entries p (record e { discarded = true })

-- `x--` on a size_t.
abbrev pub decrement : ℕ → ℕ
decrement x = if x == 0 then 2 ^ 64 - 1 else x - 1

-- JobDone; the flag is the job's `discard_sample`.
unfoldable pub job_done : FuzzerJob → Bool → Fuzzer → Fuzzer
job_done (fuzz p) discard_sample f =
    if discard_sample
    then record f {
      all_entries = mark_discarded (get_elem? f.all_entries p) p f.all_entries;
      num_samples_discarded = suc f.num_samples_discarded;
    }
    else record f { sample_queue = p ∷ f.sample_queue }
job_done (process_sample s) discard_sample f = record f {
  samples_pending = decrement f.samples_pending;
}
job_done wait discard_sample f = f

-- SaveSample: what it does under `output_mutex`.
unfoldable pub count_sample : Fuzzer → Fuzzer
count_sample f = record f { num_samples = suc f.num_samples }

-- SaveSample: what it does under `queue_mutex`.
unfoldable pub push_entry : SampleQueueEntry → Fuzzer → Fuzzer
push_entry e f = record f {
  all_entries = f.all_entries ++ (e ∷ []);
  sample_queue = length f.all_entries ∷ f.sample_queue;
}
