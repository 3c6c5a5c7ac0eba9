-- ===== src/Fuzzer/Session.antt =====
-- fuzzer.cpp, Run: a session from its start on, and what threads may rely on when they take a job.
use jackalope.Prelude.{
  ℕ, ◌<◌, ◌≡◌, ◌≢◌, refl, sym, ap, ◌∙◌, inl, inr, Option, none, some, List, [], ◌∷◌, length,
  get_elem?, Bool-cases, arith,
}
use jackalope.Prelude.Memory.{Bytes}
use jackalope.Sample.{Sample, done}
use jackalope.Fuzzer.Queue.{count, pop_top}
use jackalope.Fuzzer.Schedule.{
  restore_needed, input_sample_processing, fuzzing, FuzzerJob, fuzz, Fuzzer, Options, World,
  restore_if_needed, save_if_due, poll_server, leave_inputs, leave_server, need_samples,
  leave_generating,
}
use jackalope.Fuzzer.Handout.{
  fuzz_top, next_input, next_server_sample, create_job, synchronize_and_get_job,
}
use jackalope.Fuzzer.Threads.{processing, fuzzed_by, takes, Reaches, starts, steps}
use jackalope.Fuzzer.Consistent.{flagged, IsConsistent}
use jackalope.Fuzzer.Jobs.{FuzzerState-cases}
use jackalope.Fuzzer.Invariant.{Outcome-cases, step-IsConsistent}

-- Run up to the start of the threads: without input files, the state is to be restored.
unfoldable pub run : Option (List Bytes) → ℕ → Fuzzer
run inputs now = record {
  state = elim inputs [ none ↦ restore_needed | some _ ↦ input_sample_processing ];
  input_files = elim inputs [ none ↦ [] | some files ↦ files ];
  server_samples = [];
  all_entries = [];
  sample_queue = [];
  samples_pending = 0;
  num_samples = 0;
  num_samples_discarded = 0;
  -- read after its first write only
  last_server_update_time_ms = 0;
  last_save_time = now;
}

run-IsConsistent : (inputs : Option (List Bytes)) (now : ℕ) → IsConsistent (run inputs now) []
unfolding run
run-IsConsistent inputs now = record {
  pending = refl;
  inputs = ground arith;
  quiet = ground arith;
  owned = λ p. ground arith;
}

-- In every interleaving of the threads, `samples_pending` is the number of PROCESS_SAMPLE jobs that
-- threads hold; from the end of the input processing on, no input file is left; while the state is
-- FUZZING, none of these jobs is held; and each entry is in exactly one place: once in the queue,
-- with one thread that fuzzes it, or discarded.
pub reached-IsConsistent :
    (o : Options) (inputs : Option (List Bytes)) (now : ℕ) (f : Fuzzer) (jobs : List FuzzerJob)
    → Reaches o (run inputs now) f jobs
    → IsConsistent f jobs
reached-IsConsistent o inputs now _ _ starts = run-IsConsistent inputs now
reached-IsConsistent o inputs now f' jobs' (steps {f} {jobs} before step) =
    step-IsConsistent o f f' jobs jobs' (reached-IsConsistent o inputs now f jobs before) step

-- The job types that the three sources of jobs give.
next_input-no_fuzz :
    (o : Options) (w : World) (f f' : Fuzzer) (names : List Bytes) (p : ℕ)
    → next_input o w f names ≢ (fuzz p, f')
next_input-no_fuzz o w f f' [] p = λ e. ground (arith, e)
next_input-no_fuzz o w f f' (name ∷ names) p = λ e. ground (arith, e)

next_server_sample-no_fuzz :
    (f f' : Fuzzer) (samples : List Sample) (p : ℕ) → next_server_sample f samples ≢ (fuzz p, f')
next_server_sample-no_fuzz f f' [] p = λ e. ground (arith, e)
next_server_sample-no_fuzz f f' (x ∷ rest) p = λ e. ground (arith, e)

fuzz_top-state :
    (f f' : Fuzzer) (popped : Option (ℕ × List ℕ)) (p : ℕ)
    → fuzz_top f popped ≡ (fuzz p, f')
    → f'.state ≡ f.state
fuzz_top-state f f' none p e = ground (arith, e)
fuzz_top-state f f' (some (t, rest)) p e =
    let g : record f { sample_queue = rest } ≡ f' = ap (λ (r : FuzzerJob × Fuzzer). r.1) e in
    ap (λ (g : Fuzzer). g.state) (sym g)

-- A FUZZ job is created in the state FUZZING only.
create_job-fuzz :
    (o : Options) (w : World) (f f' : Fuzzer) (p : ℕ)
    → create_job o w f ≡ (fuzz p, f')
    → f'.state ≡ fuzzing
unfolding create_job
create_job-fuzz o w f f' p e = elim (FuzzerState-cases f.state) [
  | inl s ↦ ground (arith, s, e)
  | inr (inl s) ↦ absurd (next_input-no_fuzz o w f f' f.input_files p (sym (rw s refl) ∙ e))
  | inr (inr (inl s)) ↦
      absurd (next_server_sample-no_fuzz f f' f.server_samples p (sym (rw s refl) ∙ e))
  | inr (inr (inr (inl s))) ↦ ground (arith, s, e)
  | inr (inr (inr (inr s))) ↦ elim (Bool-cases o.dry_run) [
    | inl dry ↦ ground (arith, s, dry, e)
    | inr wet ↦
        fuzz_top-state f f' (pop_top f.all_entries f.sample_queue) p (sym (rw (s, wet) refl) ∙ e)
        ∙ s
  ]
]

-- A call that gives a job ends with its creation.
pub synchronize-create_job :
    (o : Options) (w : World) (f : Fuzzer) (r : FuzzerJob × Fuzzer)
    → synchronize_and_get_job o w f ≡ done r
    → (f1 : Fuzzer) × (g : Fuzzer) × (restore_if_needed w f ≡ done f1)
      × (need_samples w (leave_server (leave_inputs o w (poll_server o w (save_if_due w f1))))
          ≡ done g)
      × (create_job o w (leave_generating g) ≡ r)
unfolding synchronize_and_get_job
synchronize-create_job o w f r e = elim (Outcome-cases (restore_if_needed w f)) [
  | inl (f1, restore) ↦
      elim (Outcome-cases
        (need_samples w (leave_server (leave_inputs o w (poll_server o w (save_if_due w f1)))))) [
          | inl (g, n) ↦ (f1, g, restore, n, ground (arith, e, restore, n))
          | inr n ↦ ground (arith, e, restore, n)
        ]
  | inr restore ↦ ground (arith, e, restore)
]

-- When a thread of a session gets an entry to fuzz, every input file has been processed, no
-- thread is processing a sample, the entry has been entered and is not discarded, no other thread
-- fuzzes it, and it is no longer in the queue.
pub takes-fuzz :
    (o : Options) (inputs : Option (List Bytes)) (now : ℕ) (w : World) (f f' : Fuzzer)
    (jobs : List FuzzerJob) (p : ℕ)
    → Reaches o (run inputs now) f jobs
    → synchronize_and_get_job o w f ≡ done (fuzz p, f')
    → (f'.input_files ≡ [])
      × (processing jobs ≡ 0)
      × (p < length f'.all_entries)
      × (flagged (get_elem? f'.all_entries p) ≡ 0)
      × (fuzzed_by p jobs ≡ 0)
      × (count p f'.sample_queue ≡ 0)
takes-fuzz o inputs now w f f' jobs p before e =
    let h = reached-IsConsistent o inputs now f' (fuzz p ∷ jobs) (steps before (takes w e)) in
    let (f1, g, restore, n, c) = synchronize-create_job o w f (fuzz p, f') e in
    let s = create_job-fuzz o w (leave_generating g) f' p c in
    let own = h.owned p in
    (
      ground (arith, h.inputs, s),
      ground (arith, h.pending, h.quiet, s),
      ground (arith, own),
      ground (arith, own),
      ground (arith, own),
      ground (arith, own),
    )
