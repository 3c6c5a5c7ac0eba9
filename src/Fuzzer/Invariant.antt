-- ===== src/Fuzzer/Invariant.antt =====
-- What stays true of the queue and of the jobs in every interleaving of the threads.
use jackalope.Prelude.{
  ℕ, ◌+◌, ◌≡◌, refl, subst, ◌⊎◌, inl, inr, Option, none, some, List, [], ◌∷◌, ◌++◌, Bool, true,
  false, ◌&&◌, ltb, ◌==◌, if◌then◌else◌, length, get_elem?, get_elem?-append, get_elem?_past,
  get_elem?-set, get_elem?_inside, ltb→lt, length-append, length-set, Bool-cases, Option-cases,
  arith,
}
use jackalope.Sample.{Outcome, done, fatal, out_of_bounds}
use jackalope.Fuzzer.Entries.{SampleQueueEntry, RunResult, note_result, adjust_sample_priority}
use jackalope.Fuzzer.Schedule.{
  FuzzerJob, process_sample, fuzz, wait, Fuzzer, Options, World, restore_if_needed, save_if_due,
  poll_server, leave_inputs, leave_server, need_samples, leave_generating,
}
use jackalope.Fuzzer.Handout.{
  synchronize_and_get_job, mark_discarded, job_done, count_sample, push_entry,
}
use jackalope.Fuzzer.Threads.{
  processing, fuzzed_by, noted, Step, takes, runs, numbers, enters, ends,
}
use jackalope.Fuzzer.Consistent.{
  flagged, IsConsistent, save_if_due-IsConsistent, poll_server-IsConsistent,
  leave_inputs-IsConsistent, leave_server-IsConsistent, need_samples-IsConsistent,
  leave_generating-IsConsistent,
}
use jackalope.Fuzzer.Jobs.{restore_if_needed-IsConsistent, create_job-IsConsistent}

pub Outcome-cases :
    {A : Type 0} (x : Outcome A) → ((a : A) × (x ≡ done a)) ⊎ ((x ≡ fatal) ⊎ (x ≡ out_of_bounds))
Outcome-cases (done a) = inl (a, refl)
Outcome-cases fatal = inr (inl refl)
Outcome-cases out_of_bounds = inr (inr refl)

pub takes-IsConsistent :
    (o : Options) (w : World) (f f' : Fuzzer) (jobs : List FuzzerJob) (job : FuzzerJob)
    → IsConsistent f jobs
    → synchronize_and_get_job o w f ≡ done (job, f')
    → IsConsistent f' (job ∷ jobs)
unfolding synchronize_and_get_job
takes-IsConsistent o w f f' jobs job h e = elim (Outcome-cases (restore_if_needed w f)) [
  | inl (f1, r) ↦
      let before = leave_server (leave_inputs o w (poll_server o w (save_if_due w f1))) in
      let k : IsConsistent before jobs = leave_server-IsConsistent _ jobs (
        leave_inputs-IsConsistent o w _ jobs (
          poll_server-IsConsistent o w _ jobs (
            save_if_due-IsConsistent w f1 jobs
              (restore_if_needed-IsConsistent w f f1 jobs h r)))) in
      elim (Outcome-cases (need_samples w before)) [
        | inl (f2, n) ↦
            subst (λ (r : FuzzerJob × Fuzzer). IsConsistent r.1 (r.0 ∷ jobs))
              (ground (arith, e, r, n))
              (create_job-IsConsistent o w (leave_generating f2) jobs (
                leave_generating-IsConsistent f2 jobs
                  (need_samples-IsConsistent w before f2 jobs k n)))
        | inr n ↦ ground (arith, e, r, n)
      ]
  | inr r ↦ ground (arith, e, r)
]

processing-append :
    (front back : List FuzzerJob) → processing (front ++ back) ≡ processing front + processing back
processing-append [] back = omega arith
processing-append (process_sample s ∷ front) back = omega (arith, processing-append front back)
processing-append (fuzz p ∷ front) back = processing-append front back
processing-append (wait ∷ front) back = processing-append front back

fuzzed_by-append :
    (p : ℕ) (front back : List FuzzerJob)
    → fuzzed_by p (front ++ back) ≡ fuzzed_by p front + fuzzed_by p back
fuzzed_by-append p [] back = omega arith
fuzzed_by-append p (process_sample s ∷ front) back = fuzzed_by-append p front back
fuzzed_by-append p (fuzz q ∷ front) back = omega (arith, fuzzed_by-append p front back)
fuzzed_by-append p (wait ∷ front) back = fuzzed_by-append p front back

length-mark_discarded :
    (found : Option SampleQueueEntry) (q : ℕ) (entries : List SampleQueueEntry)
    → length (mark_discarded found q entries) ≡ length entries
length-mark_discarded none q entries = refl
length-mark_discarded (some e) q entries = length-set entries q (record e { discarded = true })

flagged-mark_discarded :
    (q : ℕ) (entries : List SampleQueueEntry) (p : ℕ)
    → flagged (get_elem? (mark_discarded (get_elem? entries q) q entries) p)
      ≡ (if p == q && ltb q (length entries) then 1 else flagged (get_elem? entries p))
flagged-mark_discarded q entries p = elim (Bool-cases (ltb q (length entries))) [
  | inl inside ↦
      let (e, found) = get_elem?_inside entries q (ltb→lt q (length entries) inside) in
      rw found (ground (arith, get_elem?-set entries q p (record e { discarded = true })))
  | inr outside ↦ rw (get_elem?_past entries q (ground arith)) (ground arith)
]

ends-IsConsistent :
    (f : Fuzzer) (front back : List FuzzerJob) (job : FuzzerJob) (discard : Bool)
    → IsConsistent f (front ++ (job ∷ back))
    → IsConsistent (job_done job discard f) (front ++ back)
unfolding job_done
ends-IsConsistent f front back (process_sample s) discard h = record {
  pending = ground (
    arith,
    h.pending,
    processing-append front (process_sample s ∷ back),
    processing-append front back,
  );
  inputs = h.inputs;
  quiet = ground (arith, h.quiet, h.pending, processing-append front (process_sample s ∷ back));
  owned = λ p. ground (
    arith,
    h.owned p,
    fuzzed_by-append p front (process_sample s ∷ back),
    fuzzed_by-append p front back,
  );
}
ends-IsConsistent f front back wait discard h = record {
  pending =
      ground
        (arith, h.pending, processing-append front (wait ∷ back), processing-append front back);
  inputs = h.inputs;
  quiet = h.quiet;
  owned = λ p.
      ground
        (arith, h.owned p, fuzzed_by-append p front (wait ∷ back), fuzzed_by-append p front back);
}
ends-IsConsistent f front back (fuzz q) false h = record {
  pending =
      ground
        (arith, h.pending, processing-append front (fuzz q ∷ back), processing-append front back);
  inputs = h.inputs;
  quiet = h.quiet;
  owned = λ p.
      omega
        (arith, h.owned p, fuzzed_by-append p front (fuzz q ∷ back), fuzzed_by-append p front back);
}
ends-IsConsistent f front back (fuzz q) true h = record {
  pending =
      ground
        (arith, h.pending, processing-append front (fuzz q ∷ back), processing-append front back);
  inputs = h.inputs;
  quiet = h.quiet;
  owned = λ p. ground (
    arith,
    h.owned p,
    h.owned q,
    fuzzed_by-append p front (fuzz q ∷ back),
    fuzzed_by-append p front back,
    fuzzed_by-append q front (fuzz q ∷ back),
    flagged-mark_discarded q f.all_entries p,
    length-mark_discarded (get_elem? f.all_entries q) q f.all_entries,
  );
}

flagged-noted :
    (result : RunResult) (new : Bool) (q : ℕ) (entries : List SampleQueueEntry) (p : ℕ)
    → flagged (get_elem? (noted result new (get_elem? entries q) q entries) p)
      ≡ flagged (get_elem? entries p)
unfolding note_result adjust_sample_priority
flagged-noted result new q entries p = elim (Option-cases (get_elem? entries q)) [
  | inl missing ↦ rw missing refl
  | inr (e, found) ↦
      rw found (ground (arith, found, get_elem?-set entries q p (note_result result new e)))
]

length-noted :
    (result : RunResult) (new : Bool) (found : Option SampleQueueEntry) (q : ℕ)
    (entries : List SampleQueueEntry)
    → length (noted result new found q entries) ≡ length entries
length-noted result new none q entries = refl
length-noted result new (some e) q entries = length-set entries q (note_result result new e)

pub step-IsConsistent :
    (o : Options) (f f' : Fuzzer) (jobs jobs' : List FuzzerJob)
    → IsConsistent f jobs
    → Step o f jobs f' jobs'
    → IsConsistent f' jobs'
unfolding count_sample push_entry
step-IsConsistent o f f' jobs _ h (takes {job} w e) = takes-IsConsistent o w f f' jobs job h e
step-IsConsistent o f _ _ _ h (runs front back p result new) = record {
  pending = h.pending;
  inputs = h.inputs;
  quiet = h.quiet;
  owned = λ q. ground (
    arith,
    h.owned q,
    flagged-noted result new p f.all_entries q,
    length-noted result new (get_elem? f.all_entries p) p f.all_entries,
  );
}
step-IsConsistent o f _ jobs _ h numbers = record {
  pending = h.pending;
  inputs = h.inputs;
  quiet = h.quiet;
  owned = h.owned;
}
step-IsConsistent o f _ jobs _ h (enters e kept) = record {
  pending = h.pending;
  inputs = h.inputs;
  quiet = h.quiet;
  owned = λ p. ground (
    arith,
    h.owned p,
    kept,
    get_elem?-append f.all_entries e p,
    get_elem?_past f.all_entries p,
    length-append f.all_entries (e ∷ []),
  );
}
step-IsConsistent o f _ _ _ h (ends front back job discard) =
    ends-IsConsistent f front back job discard h
