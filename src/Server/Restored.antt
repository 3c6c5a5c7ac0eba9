-- ===== src/Server/Restored.antt =====
-- The server's state comes back from its file.
use jackalope.Prelude.{ℕ, suc, ◌^◌, ◌<◌, ◌≡◌, refl, ap, some, List, [], ◌∷◌, ◌++◌, length, map}
use jackalope.Prelude.Memory.{Bytes, store_le}
use jackalope.Prelude.Predicates.{All}
use jackalope.Sample.{Sample, Files, new_sample, content, IsValid, load_from}
use jackalope.Coverage.{CoverageOps}
use jackalope.Fuzzer.Saved.{number_64}
use jackalope.Server.Corpus.{TimestampIndex}
use jackalope.Server.Updates.{ServerState}
use jackalope.Server.SavedState.{
  CoverageFile, sample_file, save_timestamps, load_timestamps, load_samples, save_state,
  restore_state,
}

-- From position `i` on, the files of the corpus hold these samples, which are valid.
abbrev pub Holds : Files → Bytes → ℕ → List Sample → Type 0
Holds files sample_dir i [] = Unit
Holds files sample_dir i (s ∷ samples) =
    (files (sample_file sample_dir i) ≡ some (content s))
    × IsValid s
    × Holds files sample_dir (suc i) samples

-- The server's copy of a sample after a restart.
abbrev pub reloaded : Sample → Sample
reloaded s = record { bytes = some (content s); size = s.size; filename = [] }

load_from_held :
    (files : Files) (name : Bytes) (s : Sample)
    → files name ≡ some (content s)
    → IsValid s
    → (load_from files name new_sample).1 ≡ reloaded s
unfolding load_from
load_from_held files name s e valid =
    rw (load_from, e)
      (ap (λ (n : ℕ). record { bytes = some (content s); size = n; filename = [] }) valid)

load_samples-Holds :
    (files : Files) (sample_dir : Bytes) (i : ℕ) (samples : List Sample)
    → Holds files sample_dir i samples
    → load_samples files sample_dir (length samples) i ≡ map reloaded samples
unfolding load_samples
load_samples-Holds files sample_dir i [] h = refl
load_samples-Holds files sample_dir i (s ∷ samples) (e, valid, h) =
    rw
      (
        load_from_held files (sample_file sample_dir i) s e valid,
        load_samples-Holds files sample_dir (suc i) samples h,
      )
      refl

load_timestamps-save_timestamps :
    (timestamps : List TimestampIndex)
    → All (λ (t : TimestampIndex). (t.timestamp < 2 ^ 64) × (t.index < 2 ^ 64)) timestamps
    → load_timestamps (length timestamps) (save_timestamps timestamps) ≡ timestamps
unfolding load_timestamps save_timestamps
load_timestamps-save_timestamps [] h = refl
load_timestamps-save_timestamps (t ∷ timestamps) h =
    rw
      (
        number_64 t.timestamp (store_le 8 t.index ++ save_timestamps timestamps) h.0.0,
        number_64 t.index (save_timestamps timestamps) h.0.1,
        load_timestamps-save_timestamps timestamps h.1,
      )
      refl

module _ {Coverage : Type 0} (ops : CoverageOps Coverage) (disk : CoverageFile ops) where
  -- The numbers of the state fit in 64 bits, and its samples are in their files.
  pub record IsSaved (files : Files) (sample_dir : Bytes) (s : ServerState Coverage) : Type 0 where
    pub number : s.num_samples < 2 ^ 64
    pub time : s.server_timestamp < 2 ^ 64
    pub samples : length s.corpus.samples < 2 ^ 64
    pub timestamps : length s.corpus.timestamps < 2 ^ 64
    pub entries :
        All
          (λ (t : TimestampIndex). (t.timestamp < 2 ^ 64) × (t.index < 2 ^ 64))
          s.corpus.timestamps
    pub files_held : Holds files sample_dir 0 s.corpus.samples

  -- A server that starts with no coverage and no samples and restores a saved state, of 64-bit
  -- numbers and with its valid samples in their files, has the same times, number of samples and
  -- offsets, and the same samples in the same order, without their file names.
  pub restore_state-save_state :
      (files : Files) (sample_dir : Bytes) (s fresh : ServerState Coverage)
      → IsSaved files sample_dir s
      → fresh.corpus.samples ≡ []
      → fresh.total_coverage ≡ ops.none_covered
      → let s' = restore_state disk files sample_dir (save_state disk s) fresh in
        (s'.corpus.samples ≡ map reloaded s.corpus.samples)
        × (s'.corpus.timestamps ≡ s.corpus.timestamps)
        × (s'.server_timestamp ≡ s.server_timestamp)
        × (s'.num_samples ≡ s.num_samples)
        × ((m : Bytes) (x : ℕ) → ops.has s'.total_coverage m x ≡ ops.has s.total_coverage m x)
  unfolding restore_state save_state
  restore_state-save_state files sample_dir s fresh h none_kept none_covered =
      let entries = save_timestamps s.corpus.timestamps in
      let sizes2 = store_le 8 (length s.corpus.timestamps) ++ entries in
      let sizes1 = store_le 8 (length s.corpus.samples) ++ sizes2 in
      let coverage = disk.write s.total_coverage ++ sizes1 in
      let e1 = number_64 s.num_samples (store_le 8 s.server_timestamp ++ coverage) h.number in
      let e2 = number_64 s.server_timestamp coverage h.time in
      let e3 = disk.read-write s.total_coverage sizes1 in
      let e4 = number_64 (length s.corpus.samples) sizes2 h.samples in
      let e5 = number_64 (length s.corpus.timestamps) entries h.timestamps in
      (
        rw (e1, e2, none_covered, e3, e4, none_kept)
            (load_samples-Holds files sample_dir 0 s.corpus.samples h.files_held),
        rw (e1, e2, none_covered, e3, e4, e5)
            (load_timestamps-save_timestamps s.corpus.timestamps h.entries),
        rw (e1, e2) refl,
        rw e1 refl,
        (λ m x. rw (e1, e2, none_covered) (disk.has-read-write s.total_coverage sizes1 m x)),
      )
