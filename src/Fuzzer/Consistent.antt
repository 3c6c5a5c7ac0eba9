-- ===== src/Fuzzer/Consistent.antt =====
-- The invariant of the queue and of the jobs, and its preservation by the changes of state in
-- SynchronizeAndGetJob (fuzzer.cpp).
use jackalope.Prelude.{
  ℕ, ◌+◌, ◌≡◌, subst, inl, inr, Option, none, some, List, [], ◌∷◌, ◌++◌, Bool, true, false, not,
  ◌&&◌, ltb, ◌==◌, if◌then◌else◌, length, get_elem?, get_elem?-append, get_elem?_past,
  length-append, Bool-cases, arith,
}
use jackalope.Sample.{done}
use jackalope.Fuzzer.Entries.{SampleQueueEntry}
use jackalope.Fuzzer.Queue.{count}
use jackalope.Fuzzer.Schedule.{
  FuzzerState, restore_needed, input_sample_processing, fuzzing, FuzzerJob, Fuzzer, Options,
  SavedState, World, restore_entry, restore_entries, restore_state, save_if_due, poll_server,
  is_empty, leave_inputs, leave_server, need_samples, leave_generating,
}
use jackalope.Fuzzer.Threads.{processing, fuzzed_by}

abbrev pub past_inputs : FuzzerState → Bool
past_inputs restore_needed = false
past_inputs input_sample_processing = false
past_inputs _ = true

abbrev pub is_fuzzing : FuzzerState → Bool
is_fuzzing fuzzing = true
is_fuzzing _ = false

abbrev pub flagged : Option SampleQueueEntry → ℕ
flagged none = 0
flagged (some e) = if e.discarded then 1 else 0

-- In how many of the three places an entry is: the queue, a thread's job, the discarded ones.
abbrev pub places : ℕ → Fuzzer → List FuzzerJob → ℕ
places p f jobs = count p f.sample_queue + fuzzed_by p jobs + flagged (get_elem? f.all_entries p)

pub record IsConsistent (f : Fuzzer) (jobs : List FuzzerJob) : Type 0 where
  pub pending : f.samples_pending ≡ processing jobs
  pub inputs : (past_inputs f.state && not (is_empty f.input_files)) ≡ false
  pub quiet : (is_fuzzing f.state && not (f.samples_pending == 0)) ≡ false
  pub owned : (p : ℕ) → places p f jobs ≡ (if ltb p (length f.all_entries) then 1 else 0)

pub leave_server-IsConsistent :
    (f : Fuzzer) (jobs : List FuzzerJob) → IsConsistent f jobs → IsConsistent (leave_server f) jobs
unfolding leave_server
leave_server-IsConsistent f jobs h = record {
  pending = ground (arith, h.pending);
  inputs = ground (arith, h.inputs);
  quiet = ground (arith, h.quiet);
  owned = λ p. ground (arith, h.owned p);
}

pub save_if_due-IsConsistent :
    (w : World) (f : Fuzzer) (jobs : List FuzzerJob)
    → IsConsistent f jobs
    → IsConsistent (save_if_due w f) jobs
unfolding save_if_due
save_if_due-IsConsistent w f jobs h = record {
  pending = ground (arith, h.pending);
  inputs = ground (arith, h.inputs);
  quiet = ground (arith, h.quiet);
  owned = λ p. ground (arith, h.owned p);
}

pub poll_server-IsConsistent :
    (o : Options) (w : World) (f : Fuzzer) (jobs : List FuzzerJob)
    → IsConsistent f jobs
    → IsConsistent (poll_server o w f) jobs
unfolding poll_server
poll_server-IsConsistent o w f jobs h = record {
  pending = ground (arith, h.pending);
  inputs = ground (arith, h.inputs);
  quiet = ground (arith, h.quiet);
  owned = λ p. ground (arith, h.owned p);
}

pub leave_inputs-IsConsistent :
    (o : Options) (w : World) (f : Fuzzer) (jobs : List FuzzerJob)
    → IsConsistent f jobs
    → IsConsistent (leave_inputs o w f) jobs
unfolding leave_inputs
leave_inputs-IsConsistent o w f jobs h = record {
  pending = ground (arith, h.pending);
  inputs = ground (arith, h.inputs);
  quiet = ground (arith, h.quiet);
  owned = λ p. ground (arith, h.owned p);
}

pub leave_generating-IsConsistent :
    (f : Fuzzer) (jobs : List FuzzerJob)
    → IsConsistent f jobs
    → IsConsistent (leave_generating f) jobs
unfolding leave_generating
leave_generating-IsConsistent f jobs h = record {
  pending = ground (arith, h.pending);
  inputs = ground (arith, h.inputs);
  quiet = ground (arith, h.quiet);
  owned = λ p. ground (arith, h.owned p);
}

pub need_samples-IsConsistent :
    (w : World) (f f' : Fuzzer) (jobs : List FuzzerJob)
    → IsConsistent f jobs
    → need_samples w f ≡ done f'
    → IsConsistent f' jobs
unfolding need_samples
need_samples-IsConsistent w f f' jobs h e = record {
  pending = ground (arith, h.pending, e);
  inputs = ground (arith, h.inputs, e);
  quiet = ground (arith, h.quiet, e);
  owned = λ p. ground (arith, h.owned p, e);
}

count-append :
    (p q : ℕ) (xs : List ℕ) → count p (xs ++ (q ∷ [])) ≡ count p xs + (if p == q then 1 else 0)
count-append p q [] = ground arith
count-append p q (x ∷ xs) = ground (arith, count-append p q xs)

pub restore_entry-IsConsistent :
    (e : SampleQueueEntry) (f : Fuzzer) (jobs : List FuzzerJob)
    → IsConsistent f jobs
    → IsConsistent (restore_entry e f) jobs
restore_entry-IsConsistent e f jobs h = record {
  pending = h.pending;
  inputs = h.inputs;
  quiet = h.quiet;
  owned = λ p. ground (
    arith,
    h.owned p,
    get_elem?-append f.all_entries e p,
    get_elem?_past f.all_entries p,
    length-append f.all_entries (e ∷ []),
    count-append p (length f.all_entries) f.sample_queue,
  );
}

pub restore_entries-IsConsistent :
    (es : List SampleQueueEntry) (f : Fuzzer) (jobs : List FuzzerJob)
    → IsConsistent f jobs
    → IsConsistent (restore_entries es f) jobs
unfolding restore_entries
restore_entries-IsConsistent [] f jobs h = h
restore_entries-IsConsistent (e ∷ es) f jobs h =
    restore_entries-IsConsistent es (restore_entry e f) jobs (restore_entry-IsConsistent e f jobs h)

pub restore_state-IsConsistent :
    (saved : Option SavedState) (f f' : Fuzzer) (jobs : List FuzzerJob)
    → IsConsistent f jobs
    → restore_state saved f ≡ done f'
    → IsConsistent f' jobs
unfolding restore_state
restore_state-IsConsistent none f f' jobs h e = ground (arith, e)
restore_state-IsConsistent (some saved) f f' jobs h e = elim (Bool-cases saved.sentry) [
  | inl right ↦
      subst (λ g. IsConsistent g jobs) (ground (arith, right, e))
        (restore_entries-IsConsistent saved.entries
          (record f {
            num_samples = saved.num_samples;
            num_samples_discarded = saved.num_samples_discarded;
          })
          jobs
          (record { pending = h.pending; inputs = h.inputs; quiet = h.quiet; owned = h.owned }))
  | inr wrong ↦ ground (arith, wrong, e)
]
