-- ===== src/Server/Reports.antt =====
-- What reports add to the server's log, and what updates give of it.
use jackalope.Prelude.{
  ℕ, ◌+◌, ◌⊎◌, true, false, suc, ◌≤◌, ◌≡◌, refl, sym, ap, subst, ◌∙◌, inl, inr, List, [], ◌∷◌, ◌++◌,
  ◌||◌, leb, ◌==◌, if◌then◌else◌, length, drop, length-append, drop_all, append-nil, leb→le,
  Bool-cases, arith,
}
use jackalope.Prelude.Memory.{Bytes}
use jackalope.Prelude.Predicates.{All, All-append}
use jackalope.Sample.{Sample, done}
use jackalope.Coverage.{CoverageOps}
use jackalope.Server.Corpus.{TimestampIndex}
use jackalope.Server.Index.{first_after, get_index-first_after}
use jackalope.Server.Updates.{
  updates_since, ServerState, on_new_coverage, add_samples, enter_report,
}
use jackalope.Server.Log.{
  Log, samples_of, newer, stamp, EntryOk, Implements, newer-append, samples_of-append,
  samples_of-stamp, newer-stamp, newer_whole, newer_none, eq_nil, All-map, IsSorted-append,
  positions-append,
}

-- Samples entered at the next time.
entered :
    {Coverage : Type 0} (s : ServerState Coverage) (log : Log) (total : Coverage) (xs : List Sample)
    → Implements s log
    → Implements
        (add_samples xs
          (record s { total_coverage = total; server_timestamp = suc s.server_timestamp }))
        (log ++ stamp (suc s.server_timestamp) xs)
unfolding add_samples
entered s log total [] h = record {
  samples = h.samples ∙ ap samples_of (sym (append-nil log));
  sorted = h.sorted;
  entries = All-map _ _ s.corpus.timestamps (λ e k. (k.0, omega (arith, k.1), k.2)) h.entries;
  positions = λ t. h.positions t ∙ ap (newer t) (sym (append-nil log));
  times =
      subst (All (λ (r : ℕ × Sample). (1 ≤ r.0) × (r.0 ≤ suc s.server_timestamp)))
        (sym (append-nil log)) (All-map _ _ log (λ r k. (k.0, omega (arith, k.1))) h.times);
}
entered s log total (x ∷ xs) h = record {
  samples =
      ap (λ b. b ++ (x ∷ xs)) h.samples
      ∙ ap (λ b. samples_of log ++ b) (sym (samples_of-stamp now (x ∷ xs)))
      ∙ sym (samples_of-append log (stamp now (x ∷ xs)));
  sorted =
      IsSorted-append s.corpus.timestamps e s.server_timestamp n h.sorted h.entries (omega arith);
  entries =
      All-append (EntryOk now (length (s.corpus.samples ++ (x ∷ xs)))) s.corpus.timestamps (e ∷ [])
        (All-map _ _ s.corpus.timestamps
          (λ f k.
            (k.0, omega (arith, k.1), omega (arith, k.2, length-append s.corpus.samples (x ∷ xs))))
          h.entries)
        ((omega arith, omega arith, omega (arith, length-append s.corpus.samples (x ∷ xs))), tt);
  positions = λ t.
      positions-append s.corpus.timestamps s.server_timestamp t s.corpus.samples (x ∷ xs)
        (newer t log) h.entries (h.positions t)
      ∙ ap (λ b. newer t log ++ b) (sym (newer-stamp t now (x ∷ xs)))
      ∙ sym (newer-append t log (stamp now (x ∷ xs)));
  times =
      All-append (λ (r : ℕ × Sample). (1 ≤ r.0) × (r.0 ≤ now)) log (stamp now (x ∷ xs))
        (All-map _ _ log (λ r k. (k.0, omega (arith, k.1))) h.times) (stamped (x ∷ xs));
}
  where
    now : ℕ
    now = suc s.server_timestamp

    n : ℕ
    n = length s.corpus.samples

    e : TimestampIndex
    e = record { timestamp = now; index = n }

    stamped :
        (ys : List Sample)
        → All
            (λ (r : ℕ × Sample). (1 ≤ r.0) × (r.0 ≤ suc s.server_timestamp))
            (stamp (suc s.server_timestamp) ys)
    stamped [] = tt
    stamped (y ∷ ys) = ((omega arith, omega arith), stamped ys)

-- After a report, accepted or not, the server's coverage has exactly what it or the report had.
pub on_new_coverage-has :
    {Coverage : Type 0} (ops : CoverageOps Coverage) (s : ServerState Coverage)
    (client_coverage : Coverage) (m : Bytes) (x : ℕ)
    → ops.has (on_new_coverage ops s client_coverage).1.total_coverage m x
      ≡ ops.has s.total_coverage m x || ops.has client_coverage m x
unfolding on_new_coverage
on_new_coverage-has ops s c m x =
    let d = ops.coverage_difference s.total_coverage c in
    let diff = ops.has-difference s.total_coverage c m x in
    elim (Bool-cases (ops.empty d)) [
      | inl old ↦ rw old (ground (arith, diff, ops.has-empty d old m x))
      | inr new ↦ rw new (ground (arith, diff, ops.has-merge s.total_coverage d m x))
    ]

report_old :
    {Coverage : Type 0} (ops : CoverageOps Coverage) (s : ServerState Coverage)
    (client_coverage : Coverage) (new_samples : List Sample)
    → ops.empty (ops.coverage_difference s.total_coverage client_coverage) ≡ true
    → enter_report ops client_coverage new_samples s ≡ s
unfolding enter_report on_new_coverage
report_old ops s client_coverage xs old = rw old refl

-- What a report with new coverage makes of the state, besides the log.
pub record IsEntered {Coverage : Type 0} (ops : CoverageOps Coverage) (s : ServerState Coverage)
    (client_coverage : Coverage) (new_samples : List Sample) (s' : ServerState Coverage)
    : Type 0 where
  pub time : s'.server_timestamp ≡ suc s.server_timestamp
  pub number : s'.num_samples ≡ length s.corpus.samples + length new_samples
  pub coverage :
      (m : Bytes) (x : ℕ)
      → ops.has s'.total_coverage m x ≡ ops.has s.total_coverage m x || ops.has client_coverage m x

add_samples_rest :
    {Coverage : Type 0} (xs : List Sample) (s : ServerState Coverage)
    → ((add_samples xs s).server_timestamp ≡ s.server_timestamp)
      × ((add_samples xs s).num_samples ≡ length s.corpus.samples + length xs)
      × ((add_samples xs s).total_coverage ≡ s.total_coverage)
unfolding add_samples
add_samples_rest [] s = (refl, omega arith, refl)
add_samples_rest (x ∷ xs) s = (refl, length-append s.corpus.samples (x ∷ xs), refl)

pub report_new :
    {Coverage : Type 0} (ops : CoverageOps Coverage) (s : ServerState Coverage) (log : Log)
    (client_coverage : Coverage) (new_samples : List Sample)
    → Implements s log
    → ops.empty (ops.coverage_difference s.total_coverage client_coverage) ≡ false
    → Implements
        (enter_report ops client_coverage new_samples s)
        (log ++ stamp (suc s.server_timestamp) new_samples)
      × IsEntered ops s client_coverage new_samples (enter_report ops client_coverage new_samples s)
unfolding enter_report on_new_coverage
report_new {Coverage} ops s log client_coverage xs h new =
    let d = ops.coverage_difference s.total_coverage client_coverage in
    let total = ops.merge_coverage s.total_coverage d in
    let next = record s { server_timestamp = suc s.server_timestamp; total_coverage = total } in
    let (time, number, kept) = add_samples_rest xs next in
    rw new (
      entered s log total xs h,
      record {
        time = time;
        number = number;
        coverage = λ m x.
            ap (λ (k : Coverage). ops.has k m x) kept
            ∙ ground (
              arith,
              ops.has-difference s.total_coverage client_coverage m x,
              ops.has-merge s.total_coverage d m x,
            );
      },
    )

-- The server holds a log. A report whose coverage is not new leaves the whole state as it is. If
-- its coverage is new, its samples are put behind the log at the next time, the server holds that
-- log, the time goes on by exactly 1, the number of samples grows by theirs, and the coverage has
-- exactly what it or the report had.
pub enter_report-Implements :
    {Coverage : Type 0} (ops : CoverageOps Coverage) (s : ServerState Coverage) (log : Log)
    (client_coverage : Coverage) (new_samples : List Sample)
    → Implements s log
    → let s' = enter_report ops client_coverage new_samples s in
      ((ops.empty (ops.coverage_difference s.total_coverage client_coverage) ≡ true) × (s' ≡ s))
      ⊎ ((ops.empty (ops.coverage_difference s.total_coverage client_coverage) ≡ false)
          × Implements s' (log ++ stamp (suc s.server_timestamp) new_samples)
          × IsEntered ops s client_coverage new_samples s')
enter_report-Implements ops s log client_coverage xs h =
    elim (Bool-cases (ops.empty (ops.coverage_difference s.total_coverage client_coverage))) [
      | inl old ↦ inl (old, report_old ops s client_coverage xs old)
      | inr new ↦
          let (holds, rest) = report_new ops s log client_coverage xs h new in
          inr (new, holds, rest)
    ]

cut_drop :
    (samples : List Sample) (i : ℕ)
    → (if leb (length samples) i then [] else drop i samples) ≡ drop i samples
cut_drop samples i = elim (Bool-cases (leb (length samples) i)) [
  | inl past ↦ rw past (sym (drop_all samples i (leb→le (length samples) i past)))
  | inr inside ↦ rw inside refl
]

-- Without timestamps there are no samples.
no_samples :
    {Coverage : Type 0} (s : ServerState Coverage) (log : Log)
    → Implements s log
    → length s.corpus.timestamps ≡ 0
    → s.corpus.samples ≡ []
no_samples s log h e =
    h.samples
    ∙ sym (newer_whole 0 log (All-map _ _ log (λ r k. omega (arith, k.0)) h.times))
    ∙ sym (h.positions 0)
    ∙ ap (λ j. drop j s.corpus.samples)
        (subst (λ ts. first_after ts 0 (length s.corpus.samples) ≡ length s.corpus.samples)
          (sym (eq_nil s.corpus.timestamps e)) refl)
    ∙ drop_all s.corpus.samples (length s.corpus.samples) (omega arith)

-- The samples behind the position that GetIndex returns.
behind_index :
    {Coverage : Type 0} (s : ServerState Coverage) (log : Log) (t : ℕ)
    → Implements s log
    → drop
        (if t == 0 || length s.corpus.timestamps == 0
          then 0
          else first_after s.corpus.timestamps t (length s.corpus.samples))
        s.corpus.samples
      ≡ newer t log
behind_index s log t h = elim (Bool-cases (t == 0)) [
  | inl start ↦
      let zero_time : t ≡ 0 = ground arith in
      rw (start, zero_time)
        (h.samples ∙ sym (newer_whole 0 log (All-map _ _ log (λ r k. omega (arith, k.0)) h.times)))
  | inr later ↦ elim (Bool-cases (length s.corpus.timestamps == 0)) [
    | inl empty ↦
        let none_left = no_samples s log h (ground arith) in
        rw (later, empty)
          (none_left
            ∙ sym (drop_all s.corpus.samples _ (omega (arith, ap length none_left)))
            ∙ h.positions t)
    | inr some_left ↦ rw (later, some_left) (h.positions t)
  ]
]

-- While the server holds a log, an update gives a client exactly the samples that came after the
-- time of the client's last update, in their order; a client that has none, at time 0, gets all.
pub updates_since-newer :
    {Coverage : Type 0} (s : ServerState Coverage) (log : Log) (timestamp : ℕ)
    → Implements s log
    → updates_since s.corpus s.server_timestamp timestamp ≡ done (newer timestamp log)
unfolding updates_since
updates_since-newer s log t h = elim (Bool-cases (leb s.server_timestamp t)) [
  | inl recent ↦
      let le = leb→le s.server_timestamp t recent in
      rw recent
        (ap done (sym (newer_none t log (All-map _ _ log (λ r k. omega (arith, k.1, le)) h.times))))
  | inr old ↦
      rw (old, get_index-first_after s.corpus.timestamps t (length s.corpus.samples) h.sorted)
        (ap done (cut_drop s.corpus.samples _ ∙ behind_index s log t h))
]
