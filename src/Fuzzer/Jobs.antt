-- ===== src/Fuzzer/Jobs.antt =====
-- The invariant of the queue and of the jobs, preserved when SynchronizeAndGetJob restores the
-- state and when it creates a job.
use jackalope.Prelude.{
  ℕ, suc, ◌≡◌, refl, sym, ap, subst, ◌⊎◌, inl, inr, Option, none, some, List, [], ◌∷◌, false, leb,
  length, Bool-cases, arith,
}
use jackalope.Prelude.Memory.{Bytes}
use jackalope.Sample.{Sample, Outcome, done, fatal, out_of_bounds}
use jackalope.Fuzzer.Queue.{pop_top}
use jackalope.Fuzzer.Order.{count-pop_top}
use jackalope.Fuzzer.Schedule.{
  FuzzerState, restore_needed, input_sample_processing, server_sample_processing,
  generating_samples, fuzzing, FuzzerJob, process_sample, wait, Fuzzer, Options, World,
  restore_state, restored, restore_if_needed, min_samples_to_generate,
}
use jackalope.Fuzzer.Handout.{fuzz_top, next_input, next_server_sample, create_job}
use jackalope.Fuzzer.Consistent.{past_inputs, is_fuzzing, IsConsistent, restore_state-IsConsistent}

pub FuzzerState-cases :
    (s : FuzzerState)
    → (s ≡ restore_needed)
      ⊎ ((s ≡ input_sample_processing)
          ⊎ ((s ≡ server_sample_processing) ⊎ ((s ≡ generating_samples) ⊎ (s ≡ fuzzing))))
FuzzerState-cases restore_needed = inl refl
FuzzerState-cases input_sample_processing = inr (inl refl)
FuzzerState-cases server_sample_processing = inr (inr (inl refl))
FuzzerState-cases generating_samples = inr (inr (inr (inl refl)))
FuzzerState-cases fuzzing = inr (inr (inr (inr refl)))

restored-IsConsistent :
    (outcome : Outcome Fuzzer) (f' : Fuzzer) (jobs : List FuzzerJob)
    → ((g : Fuzzer) → outcome ≡ done g → IsConsistent g jobs)
    → restored outcome ≡ done f'
    → IsConsistent f' jobs
restored-IsConsistent (done g) f' jobs h e =
    let v = h g refl in
    let after : IsConsistent (record g { state = input_sample_processing }) jobs = record {
      pending = v.pending;
      inputs = ground arith;
      quiet = ground arith;
      owned = v.owned;
    } in
    subst (λ g. IsConsistent g jobs) (ground (arith, e)) after
restored-IsConsistent fatal f' jobs h e = ground (arith, e)
restored-IsConsistent out_of_bounds f' jobs h e = ground (arith, e)

pub restore_if_needed-IsConsistent :
    (w : World) (f f' : Fuzzer) (jobs : List FuzzerJob)
    → IsConsistent f jobs
    → restore_if_needed w f ≡ done f'
    → IsConsistent f' jobs
unfolding restore_if_needed
restore_if_needed-IsConsistent w f f' jobs h e = elim (FuzzerState-cases f.state) [
  | inl s ↦
      restored-IsConsistent (restore_state w.state_file f) f' jobs
        (λ g. restore_state-IsConsistent w.state_file f g jobs h) (ground (arith, s, e))
  | inr s ↦ subst (λ g. IsConsistent g jobs) (ground (arith, s, e)) h
]

fuzz_top-IsConsistent :
    (f : Fuzzer) (jobs : List FuzzerJob) (popped : Option (ℕ × List ℕ))
    → IsConsistent f jobs
    → pop_top f.all_entries f.sample_queue ≡ popped
    → IsConsistent (fuzz_top f popped).1 ((fuzz_top f popped).0 ∷ jobs)
fuzz_top-IsConsistent f jobs none h e = record {
  pending = h.pending;
  inputs = h.inputs;
  quiet = h.quiet;
  owned = h.owned;
}
fuzz_top-IsConsistent f jobs (some (t, rest)) h e = record {
  pending = h.pending;
  inputs = h.inputs;
  quiet = h.quiet;
  owned = λ p. omega (arith, h.owned p, count-pop_top p f.all_entries f.sample_queue t rest e);
}

next_input-IsConsistent :
    (o : Options) (w : World) (f : Fuzzer) (jobs : List FuzzerJob) (names : List Bytes)
    → IsConsistent f jobs
    → past_inputs f.state ≡ false
    → IsConsistent (next_input o w f names).1 ((next_input o w f names).0 ∷ jobs)
next_input-IsConsistent o w f jobs [] h s = record {
  pending = h.pending;
  inputs = h.inputs;
  quiet = h.quiet;
  owned = h.owned;
}
next_input-IsConsistent o w f jobs (name ∷ names) h s = record {
  pending = ap suc h.pending;
  inputs = ground (arith, s);
  quiet = ground (arith, s);
  owned = h.owned;
}

next_server_sample-IsConsistent :
    (f : Fuzzer) (jobs : List FuzzerJob) (samples : List Sample)
    → IsConsistent f jobs
    → is_fuzzing f.state ≡ false
    → IsConsistent (next_server_sample f samples).1 ((next_server_sample f samples).0 ∷ jobs)
next_server_sample-IsConsistent f jobs [] h s = record {
  pending = h.pending;
  inputs = h.inputs;
  quiet = h.quiet;
  owned = h.owned;
}
next_server_sample-IsConsistent f jobs (x ∷ rest) h s = record {
  pending = ap suc h.pending;
  inputs = h.inputs;
  quiet = ground (arith, s);
  owned = h.owned;
}

pub create_job-IsConsistent :
    (o : Options) (w : World) (f : Fuzzer) (jobs : List FuzzerJob)
    → IsConsistent f jobs
    → IsConsistent (create_job o w f).1 ((create_job o w f).0 ∷ jobs)
unfolding create_job
create_job-IsConsistent o w f jobs h = elim (FuzzerState-cases f.state) [
  | inl s ↦ becomes (wait, f) (rw s) waits
  | inr (inl s) ↦
      becomes (next_input o w f f.input_files) (rw s)
        (next_input-IsConsistent o w f jobs f.input_files h (rw s refl))
  | inr (inr (inl s)) ↦
      becomes (next_server_sample f f.server_samples) (rw s)
        (next_server_sample-IsConsistent f jobs f.server_samples h (rw s refl))
  | inr (inr (inr (inl s))) ↦
      elim (Bool-cases (leb min_samples_to_generate (length f.sample_queue))) [
        | inl enough ↦ becomes (wait, f) (rw (s, enough)) waits
        | inr few ↦
            becomes
              (process_sample w.generated, record f { samples_pending = suc f.samples_pending })
              (rw (s, few))
              (record {
                pending = ap suc h.pending;
                inputs = h.inputs;
                quiet = ground (arith, s);
                owned = h.owned;
              })
      ]
  | inr (inr (inr (inr s))) ↦ elim (Bool-cases o.dry_run) [
    | inl dry ↦ becomes (wait, f) (rw (s, dry)) waits
    | inr wet ↦
        becomes (fuzz_top f (pop_top f.all_entries f.sample_queue)) (rw (s, wet))
          (fuzz_top-IsConsistent f jobs (pop_top f.all_entries f.sample_queue) h refl)
  ]
]
  where
    becomes :
        (r : FuzzerJob × Fuzzer)
        → create_job o w f ≡ r
        → IsConsistent r.1 (r.0 ∷ jobs)
        → IsConsistent (create_job o w f).1 ((create_job o w f).0 ∷ jobs)
    becomes r e = subst (λ r. IsConsistent r.1 (r.0 ∷ jobs)) (sym e)

    waits : IsConsistent f (wait ∷ jobs)
    waits = record { pending = h.pending; inputs = h.inputs; quiet = h.quiet; owned = h.owned }
