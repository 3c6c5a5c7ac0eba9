-- ===== src/Fuzzer/Threads.antt =====
-- fuzzer.cpp, RunFuzzerThread: the threads of a session as steps on the shared state and the jobs
-- that they hold, in any interleaving.
use jackalope.Prelude.{
  ℕ, suc, ◌+◌, ◌≡◌, Option, none, some, List, [], ◌∷◌, ◌++◌, Bool, false, ◌==◌, if◌then◌else◌, set,
  get_elem?,
}
use jackalope.Sample.{done}
use jackalope.Fuzzer.Entries.{SampleQueueEntry, RunResult, note_result}
use jackalope.Fuzzer.Schedule.{Fuzzer, FuzzerJob, process_sample, fuzz, wait, Options, World}
use jackalope.Fuzzer.Handout.{synchronize_and_get_job, job_done, count_sample, push_entry}

-- How many of the jobs that threads hold are of type PROCESS_SAMPLE.
abbrev pub processing : List FuzzerJob → ℕ
processing [] = 0
processing (process_sample s ∷ jobs) = suc (processing jobs)
processing (fuzz p ∷ jobs) = processing jobs
processing (wait ∷ jobs) = processing jobs

-- How many threads fuzz an entry.
abbrev pub fuzzed_by : ℕ → List FuzzerJob → ℕ
fuzzed_by p [] = 0
fuzzed_by p (process_sample s ∷ jobs) = fuzzed_by p jobs
fuzzed_by p (fuzz q ∷ jobs) = (if p == q then 1 else 0) + fuzzed_by p jobs
fuzzed_by p (wait ∷ jobs) = fuzzed_by p jobs

-- The entry after one run of FuzzJob's loop.
abbrev pub noted :
    RunResult → Bool → Option SampleQueueEntry → ℕ → List SampleQueueEntry → List SampleQueueEntry
noted result new none p entries = entries
noted result new (some e) p entries = set entries p (note_result result new e)

abbrev pub note_run : RunResult → Bool → ℕ → Fuzzer → Fuzzer
note_run result new p f = record f {
  all_entries = noted result new (get_elem? f.all_entries p) p f.all_entries;
}

-- One step of one thread: it takes a job, runs the sample of its FUZZ job once, numbers a sample
-- to save, enters it, or ends its job. A job stands anywhere in the list.
pub data Step (o : Options) : Fuzzer → List FuzzerJob → Fuzzer → List FuzzerJob → Type 0 where
  takes :
      {f f' : Fuzzer} {jobs : List FuzzerJob} {job : FuzzerJob} (w : World)
      → synchronize_and_get_job o w f ≡ done (job, f')
      → Step o f jobs f' (job ∷ jobs)
  runs :
      {f : Fuzzer} (front back : List FuzzerJob) (p : ℕ) (result : RunResult) (new : Bool)
      → Step o f (front ++ (fuzz p ∷ back)) (note_run result new p f) (front ++ (fuzz p ∷ back))
  numbers : {f : Fuzzer} {jobs : List FuzzerJob} → Step o f jobs (count_sample f) jobs
  enters :
      {f : Fuzzer} {jobs : List FuzzerJob} (e : SampleQueueEntry)
      → e.discarded ≡ false
      → Step o f jobs (push_entry e f) jobs
  ends :
      {f : Fuzzer} (front back : List FuzzerJob) (job : FuzzerJob) (discard_sample : Bool)
      → Step o f (front ++ (job ∷ back)) (job_done job discard_sample f) (front ++ back)

-- The states that a session reaches from `f`, with no job taken.
pub data Reaches (o : Options) (start : Fuzzer) : Fuzzer → List FuzzerJob → Type 0 where
  starts : Reaches o start start []
  steps :
      {f f' : Fuzzer} {jobs jobs' : List FuzzerJob}
      → Reaches o start f jobs
      → Step o f jobs f' jobs'
      → Reaches o start f' jobs'
