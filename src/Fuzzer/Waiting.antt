-- ===== src/Fuzzer/Waiting.antt =====
-- fuzzer.cpp, SynchronizeAndGetJob: when a thread is told to wait.
use jackalope.Prelude.{
  ℕ, ◌≡◌, ◌≢◌, refl, sym, ap, subst, ◌∙◌, ◌⊎◌, inl, inr, Option, List, [], ◌∷◌, Bool, true, false,
  ◌&&◌, leb, ◌==◌, length, Bool-cases, arith,
}
use jackalope.Prelude.Memory.{Bytes}
use jackalope.Sample.{Sample, Outcome, done, fatal, out_of_bounds}
use jackalope.Fuzzer.Queue.{pop_top}
use jackalope.Fuzzer.Schedule.{
  FuzzerState, restore_needed, input_sample_processing, server_sample_processing,
  generating_samples, fuzzing, FuzzerJob, wait, Fuzzer, Options, World, restored, restore_state,
  restore_if_needed, save_if_due, poll_server, is_empty, leave_inputs, leave_server, need_samples,
  leave_generating, min_samples_to_generate,
}
use jackalope.Fuzzer.Handout.{
  fuzz_top, next_input, next_server_sample, create_job, synchronize_and_get_job,
}
use jackalope.Fuzzer.Jobs.{FuzzerState-cases}
use jackalope.Fuzzer.Threads.{processing, Reaches, takes, steps}
use jackalope.Fuzzer.Session.{run, reached-IsConsistent, synchronize-create_job}

abbrev is_restoring : FuzzerState → Bool
is_restoring restore_needed = true
is_restoring _ = false

-- The state is that of input processing, of server processing, or of generating, and its work is
-- done.
abbrev inputs_done : FuzzerState → Fuzzer → Bool
inputs_done input_sample_processing f = is_empty f.input_files && f.samples_pending == 0
inputs_done _ f = false

abbrev server_done : FuzzerState → Fuzzer → Bool
server_done server_sample_processing f = is_empty f.server_samples && f.samples_pending == 0
server_done _ f = false

abbrev generating_done : FuzzerState → Fuzzer → Bool
generating_done generating_samples f =
    leb min_samples_to_generate (length f.sample_queue) && f.samples_pending == 0
generating_done _ f = false

restore_state-after :
    (w : World) (f f1 : Fuzzer) → restore_if_needed w f ≡ done f1 → is_restoring f1.state ≡ false
unfolding restore_if_needed
restore_state-after w f f1 e = elim (FuzzerState-cases f.state) [
  | inl s ↦ after (restore_state w.state_file f) (sym (rw s refl) ∙ e)
  | inr s ↦ ground (arith, s, e)
]
  where
    after : (x : Outcome Fuzzer) → restored x ≡ done f1 → is_restoring f1.state ≡ false
    after (done g) e = ground (arith, e)
    after fatal e = ground (arith, e)
    after out_of_bounds e = ground (arith, e)

leave_inputs-done :
    (o : Options) (w : World) (f : Fuzzer)
    → is_restoring f.state ≡ false
    → let g = leave_inputs o w (poll_server o w (save_if_due w f)) in
      (is_restoring g.state ≡ false) × (inputs_done g.state g ≡ false)
unfolding leave_inputs poll_server save_if_due
leave_inputs-done o w f h = (ground (arith, h), ground (arith, h))

leave_server-done :
    (f : Fuzzer)
    → is_restoring f.state ≡ false
    → inputs_done f.state f ≡ false
    → (is_restoring (leave_server f).state ≡ false)
      × (inputs_done (leave_server f).state (leave_server f) ≡ false)
      × (server_done (leave_server f).state (leave_server f) ≡ false)
unfolding leave_server
leave_server-done f r i = (ground (arith, r), ground (arith, i), ground (arith, r))

leave_generating-done :
    (w : World) (f g : Fuzzer)
    → is_restoring f.state ≡ false
    → inputs_done f.state f ≡ false
    → server_done f.state f ≡ false
    → need_samples w f ≡ done g
    → let h = leave_generating g in
      (is_restoring h.state ≡ false)
      × (inputs_done h.state h ≡ false)
      × (server_done h.state h ≡ false)
      × (generating_done h.state h ≡ false)
unfolding need_samples leave_generating
leave_generating-done w f g r i s e =
    (ground (arith, r, e), ground (arith, i, e), ground (arith, s, e), ground (arith, e))

-- Why a thread waits: other threads are processing samples, or the session is fuzzing and it is
-- a dry run or threads hold all the entries that are left.
abbrev pub Waits : Options → Fuzzer → Type 0
Waits o f =
    (f.samples_pending ≢ 0) ⊎ ((f.state ≡ fuzzing) × ((o.dry_run ≡ true) ⊎ (f.sample_queue ≡ [])))

next_input-Waits :
    (o : Options) (w : World) (f f' : Fuzzer) (names : List Bytes)
    → next_input o w f names ≡ (wait, f')
    → (f ≡ f') × (is_empty names ≡ true)
next_input-Waits o w f f' [] e = (ap (λ (r : FuzzerJob × Fuzzer). r.1) e, refl)
next_input-Waits o w f f' (name ∷ names) e = ground (arith, e)

next_server_sample-Waits :
    (f f' : Fuzzer) (samples : List Sample)
    → next_server_sample f samples ≡ (wait, f')
    → (f ≡ f') × (is_empty samples ≡ true)
next_server_sample-Waits f f' [] e = (ap (λ (r : FuzzerJob × Fuzzer). r.1) e, refl)
next_server_sample-Waits f f' (x ∷ rest) e = ground (arith, e)

fuzz_top-Waits :
    (f f' : Fuzzer)
    → fuzz_top f (pop_top f.all_entries f.sample_queue) ≡ (wait, f')
    → (f ≡ f') × (f.sample_queue ≡ [])
unfolding pop_top
fuzz_top-Waits f f' e = ground (arith, e)

create_job-Waits :
    (o : Options) (w : World) (f f' : Fuzzer)
    → is_restoring f.state ≡ false
    → inputs_done f.state f ≡ false
    → server_done f.state f ≡ false
    → generating_done f.state f ≡ false
    → create_job o w f ≡ (wait, f')
    → Waits o f'
unfolding create_job
create_job-Waits o w f f' r i s g e = elim (FuzzerState-cases f.state) [
  | inl at ↦ ground (arith, at, r)
  | inr (inl at) ↦
      let (same, none_left) = next_input-Waits o w f f' f.input_files (sym (rw at refl) ∙ e) in
      subst (Waits o) same (inl λ pending. ground (arith, at, i, none_left, pending))
  | inr (inr (inl at)) ↦
      let (same, none_left) =
        next_server_sample-Waits f f' f.server_samples (sym (rw at refl) ∙ e) in
      subst (Waits o) same (inl λ pending. ground (arith, at, s, none_left, pending))
  | inr (inr (inr (inl at))) ↦
      elim (Bool-cases (leb min_samples_to_generate (length f.sample_queue))) [
        | inl enough ↦
            subst (Waits o) (waited (rw (at, enough) refl))
              (inl λ pending. ground (arith, at, g, enough, pending))
        | inr few ↦ ground (arith, at, few, e)
      ]
  | inr (inr (inr (inr at))) ↦ elim (Bool-cases o.dry_run) [
    | inl dry ↦ subst (Waits o) (waited (rw (at, dry) refl)) (inr (at, inl dry))
    | inr wet ↦
        let (same, none_left) = fuzz_top-Waits f f' (sym (rw (at, wet) refl) ∙ e) in
        subst (Waits o) same (inr (at, inr none_left))
  ]
]
  where
    waited : create_job o w f ≡ (wait, f) → f ≡ f'
    waited c = ap (λ (r : FuzzerJob × Fuzzer). r.1) (sym c ∙ e)

-- A thread of a session is told to wait only while another thread is processing a sample, or when
-- the session is fuzzing and it is a dry run or no entry is left in the queue.
pub takes-wait :
    (o : Options) (inputs : Option (List Bytes)) (now : ℕ) (w : World) (f f' : Fuzzer)
    (jobs : List FuzzerJob)
    → Reaches o (run inputs now) f jobs
    → synchronize_and_get_job o w f ≡ done (wait, f')
    → (processing jobs ≢ 0) ⊎ ((f'.state ≡ fuzzing) × ((o.dry_run ≡ true) ⊎ (f'.sample_queue ≡ [])))
takes-wait o inputs now w f f' jobs before e =
    let (f1, g, restore, n, c) = synchronize-create_job o w f (wait, f') e in
    let (r1, i1) = leave_inputs-done o w f1 (restore_state-after w f f1 restore) in
    let (r2, i2, s2) =
      leave_server-done (leave_inputs o w (poll_server o w (save_if_due w f1))) r1 i1 in
    let (r3, i3, s3, g3) = leave_generating-done w _ g r2 i2 s2 n in
    let h = reached-IsConsistent o inputs now f' (wait ∷ jobs) (steps before (takes w e)) in
    elim (create_job-Waits o w (leave_generating g) f' r3 i3 s3 g3 c) [
      | inl pending ↦ inl λ none_left. pending (h.pending ∙ none_left)
      | inr idle ↦ inr idle
    ]
