-- ===== src/Server/Log.antt =====
-- The server's corpus as a log of timed samples, which its list of timestamps implements.
use jackalope.Prelude.{
  ℕ, suc, ◌≤◌, ◌<◌, ◌≡◌, refl, sym, ap, ◌∙◌, ◌⊎◌, inl, inr, List, [], ◌∷◌, ◌++◌, ltb, if◌then◌else◌,
  length, drop, drop-append, drop_all, drop-append_length, append-nil, ltb→lt, lt→ltb, le→ltb,
  Bool-cases, arith,
}
use jackalope.Prelude.Predicates.{All}
use jackalope.Sample.{Sample}
use jackalope.Server.Corpus.{TimestampIndex}
use jackalope.Server.Index.{IsSorted, first_after}
use jackalope.Server.Updates.{ServerState}

-- The samples with the time of the report that brought them, in the order of their arrival.
abbrev pub Log : Type 0
Log = List (ℕ × Sample)

abbrev pub samples_of : Log → List Sample
samples_of [] = []
samples_of (r ∷ log) = r.1 ∷ samples_of log

-- The samples that came after a time.
abbrev pub newer : ℕ → Log → List Sample
newer t [] = []
newer t (r ∷ log) = if ltb t r.0 then r.1 ∷ newer t log else newer t log

abbrev pub stamp : ℕ → List Sample → Log
stamp t [] = []
stamp t (x ∷ xs) = (t, x) ∷ stamp t xs

abbrev pub EntryOk : ℕ → ℕ → TimestampIndex → Type 0
EntryOk now n e = (1 ≤ e.timestamp) × (e.timestamp ≤ now) × (e.index ≤ n)

-- The state holds the log: the samples are the log's, the timestamps do not fall, and the
-- position that they give for any time is that of the first sample after it.
pub record Implements {Coverage : Type 0} (s : ServerState Coverage) (log : Log) : Type 0 where
  pub samples : s.corpus.samples ≡ samples_of log
  pub sorted : IsSorted s.corpus.timestamps
  pub entries : All (EntryOk s.server_timestamp (length s.corpus.samples)) s.corpus.timestamps
  pub positions :
      (t : ℕ)
      → drop (first_after s.corpus.timestamps t (length s.corpus.samples)) s.corpus.samples
        ≡ newer t log
  pub times : All (λ (r : ℕ × Sample). (1 ≤ r.0) × (r.0 ≤ s.server_timestamp)) log

pub newer-append : (t : ℕ) (log more : Log) → newer t (log ++ more) ≡ newer t log ++ newer t more
newer-append t [] more = refl
newer-append t (r ∷ log) more = elim (Bool-cases (ltb t r.0)) [
  | inl after ↦ rw after (ap (◌∷◌ r.1) (newer-append t log more))
  | inr before ↦ rw before (newer-append t log more)
]

pub samples_of-append :
    (log more : Log) → samples_of (log ++ more) ≡ samples_of log ++ samples_of more
samples_of-append [] more = refl
samples_of-append (r ∷ log) more = ap (◌∷◌ r.1) (samples_of-append log more)

pub samples_of-stamp : (t : ℕ) (xs : List Sample) → samples_of (stamp t xs) ≡ xs
samples_of-stamp t [] = refl
samples_of-stamp t (x ∷ xs) = ap (◌∷◌ x) (samples_of-stamp t xs)

pub newer-stamp :
    (t now : ℕ) (xs : List Sample) → newer t (stamp now xs) ≡ (if ltb t now then xs else [])
newer-stamp t now [] = ground arith
newer-stamp t now (x ∷ xs) = elim (Bool-cases (ltb t now)) [
  | inl after ↦ rw after (ap (◌∷◌ x) (newer-stamp t now xs ∙ rw after refl))
  | inr before ↦ rw before (newer-stamp t now xs ∙ rw before refl)
]

-- A log all of which came after `t`, or none of which did.
pub newer_whole :
    (t : ℕ) (log : Log) → All (λ (r : ℕ × Sample). t < r.0) log → newer t log ≡ samples_of log
newer_whole t [] h = refl
newer_whole t (r ∷ log) h = rw (lt→ltb t r.0 h.0) (ap (◌∷◌ r.1) (newer_whole t log h.1))

pub newer_none : (t : ℕ) (log : Log) → All (λ (r : ℕ × Sample). r.0 ≤ t) log → newer t log ≡ []
newer_none t [] h = refl
newer_none t (r ∷ log) h = rw (le→ltb t r.0 h.0) (newer_none t log h.1)

pub eq_nil : (xs : List TimestampIndex) → length xs ≡ 0 → xs ≡ []
eq_nil [] h = refl
eq_nil (x ∷ xs) h = absurd (omega arith)

pub All-map {ℓ} :
    {A : Type ℓ} (P Q : A → Type 0) (xs : List A) → ((x : A) → P x → Q x) → All P xs → All Q xs
All-map P Q [] f h = tt
All-map P Q (x ∷ xs) f h = (f x h.0, All-map P Q xs f h.1)

pub first_after-append :
    (ts : List TimestampIndex) (e : TimestampIndex) (t last_index : ℕ)
    → first_after (ts ++ (e ∷ [])) t last_index
      ≡ first_after ts t (if ltb t e.timestamp then e.index else last_index)
first_after-append [] e t last_index = refl
first_after-append (f ∷ ts) e t last_index = elim (Bool-cases (ltb t f.timestamp)) [
  | inl after ↦ rw after refl
  | inr before ↦ rw before (first_after-append ts e t last_index)
]

-- Either no entry is newer than `t`, or the position does not depend on `last_index`.
pub first_after_either :
    (ts : List TimestampIndex) (t now n : ℕ)
    → All (EntryOk now n) ts
    → ((last_index : ℕ) → first_after ts t last_index ≡ last_index)
      ⊎ ((i : ℕ) × (i ≤ n) × (t < now) × ((last_index : ℕ) → first_after ts t last_index ≡ i))
first_after_either [] t now n h = inl λ last_index. refl
first_after_either (e ∷ ts) t now n h = elim (Bool-cases (ltb t e.timestamp)) [
  | inl after ↦ inr (
    e.index,
    h.0.2,
    omega (arith, ltb→lt t e.timestamp after, h.0.1),
    λ last_index. rw after refl,
  )
  | inr before ↦ elim (first_after_either ts t now n h.1) [
    | inl const ↦ inl λ last_index. rw before (const last_index)
    | inr (i, le, lt, const) ↦ inr (i, le, lt, λ last_index. rw before (const last_index))
  ]
]

pub IsSorted-append :
    (ts : List TimestampIndex) (e : TimestampIndex) (now n : ℕ)
    → IsSorted ts
    → All (EntryOk now n) ts
    → now ≤ e.timestamp
    → IsSorted (ts ++ (e ∷ []))
IsSorted-append [] e now n s h le = tt
IsSorted-append (f ∷ []) e now n s h le = (omega (arith, h.0.1), tt)
IsSorted-append (f ∷ g ∷ ts) e now n s h le = (s.0, IsSorted-append (g ∷ ts) e now n s.1 h.1 le)

-- The positions after more samples have come at a new time.
pub positions-append :
    (ts : List TimestampIndex) (now t : ℕ) (samples xs old : List Sample)
    → All (EntryOk now (length samples)) ts
    → drop (first_after ts t (length samples)) samples ≡ old
    → drop
        (first_after
          (ts ++ (record { timestamp = suc now; index = length samples } ∷ []))
          t
          (length (samples ++ xs)))
        (samples ++ xs)
      ≡ old ++ (if ltb t (suc now) then xs else [])
positions-append ts now t samples xs old h e =
    let at =
      first_after-append ts (record { timestamp = suc now; index = length samples }) t
        (length (samples ++ xs)) in
    elim (first_after_either ts t now (length samples) h) [
      | inr (i, le, lt, const) ↦
          let before : drop i samples ≡ old =
            ap (λ j. drop j samples) (sym (const (length samples))) ∙ e in
          ap (λ j. drop j (samples ++ xs)) (at ∙ const _)
          ∙ drop-append i samples xs le
          ∙ rw (lt→ltb t (suc now) (omega arith)) (ap (λ b. b ++ xs) before)
      | inl const ↦
          let before : [] ≡ old =
            sym (drop_all samples (length samples) (omega arith))
            ∙ ap (λ j. drop j samples) (sym (const (length samples)))
            ∙ e in
          elim (Bool-cases (ltb t (suc now))) [
            | inl after ↦
                ap (λ j. drop j (samples ++ xs)) (at ∙ const _)
                ∙ rw after
                    (drop-append_length samples xs (length samples) refl ∙ ap (λ b. b ++ xs) before)
            | inr late ↦
                ap (λ j. drop j (samples ++ xs)) (at ∙ const _)
                ∙ rw late (
                    drop_all (samples ++ xs) (length (samples ++ xs)) (omega arith)
                    ∙ before
                    ∙ sym (append-nil old))
          ]
    ]
