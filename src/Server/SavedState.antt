-- ===== src/Server/SavedState.antt =====
-- server.cpp, SaveState and RestoreState: server_state.dat, and the samples in their own files.
-- directory.cpp, DirJoin.
use jackalope.Prelude.{
  ℕ, zero, suc, ◌+◌, ◌-◌, ◌/◌, ◌%◌, ◌≡◌, List, [], ◌∷◌, ◌++◌, ◌==◌, if◌then◌else◌, length,
  replicate,
}
use jackalope.Prelude.Memory.{Bytes, store_le}
use jackalope.Sample.{Sample, Files, new_sample, load_from}
use jackalope.Coverage.{CoverageOps}
use jackalope.Fuzzer.Saved.{fread_number}
use jackalope.Server.Corpus.{TimestampIndex}
use jackalope.Server.Updates.{ServerState}

-- WriteCoverageBinary and ReadCoverageBinary of TinyInst: reading into an empty coverage what was
-- written gives the same offsets, and leaves what follows in the file.
pub record CoverageFile {Coverage : Type 0} (ops : CoverageOps Coverage) : Type 0 where
  pub write : Coverage → Bytes
  pub read : Coverage → Bytes → Coverage × Bytes
  pub read-write :
      (c : Coverage) (rest : Bytes) → (read ops.none_covered (write c ++ rest)).1 ≡ rest
  pub has-read-write :
      (c : Coverage) (rest m : Bytes) (x : ℕ)
      → ops.has (read ops.none_covered (write c ++ rest)).0 m x ≡ ops.has c m x

abbrev last : ℕ → Bytes → ℕ
last c [] = c
last c (d ∷ ds) = last d ds

-- DirJoin, where the separator is a slash.
unfoldable pub dir_join : Bytes → Bytes → Bytes
dir_join [] dir2 = dir2
dir_join (c ∷ dir1) dir2 =
    if last c dir1 == b'/' then (c ∷ dir1) ++ dir2 else (c ∷ dir1) ++ (b'/' ∷ dir2)

-- The decimal digits of a number of at most `k + 1` digits.
abbrev pub decimal : ℕ → ℕ → Bytes
decimal zero n = (b'0' + n % 10) ∷ []
decimal (suc k) n =
    let before = decimal k (n / 10) in
    if n / 10 == 0 then (b'0' + n % 10) ∷ [] else before ++ ((b'0' + n % 10) ∷ [])

-- `sprintf(fileindex, "%05zu", n)`; a size_t has at most 20 digits.
abbrev pub file_index : ℕ → Bytes
file_index n = let digits = decimal 19 n in replicate (5 - length digits) b'0' ++ digits

-- The name of the file of the sample at a position of the corpus.
unfoldable pub sample_file : Bytes → ℕ → Bytes
sample_file sample_dir i =
    dir_join sample_dir ((b's' ∷ b'a' ∷ b'm' ∷ b'p' ∷ b'l' ∷ b'e' ∷ b'_' ∷ []) ++ file_index i)

unfoldable pub save_timestamps : List TimestampIndex → Bytes
save_timestamps [] = []
save_timestamps (t ∷ timestamps) =
    store_le 8 t.timestamp ++ (store_le 8 t.index ++ save_timestamps timestamps)

unfoldable pub load_timestamps : ℕ → Bytes → List TimestampIndex
load_timestamps zero file = []
load_timestamps (suc n) file =
    let timestamp = fread_number 8 file in
    let index = fread_number 8 timestamp.1 in
    record { timestamp = timestamp.0; index = index.0 } ∷ load_timestamps n index.1

-- The loop of RestoreState over the sample files, from position `i` on; it ignores what Load returns.
unfoldable pub load_samples : Files → Bytes → ℕ → ℕ → List Sample
load_samples files sample_dir zero i = []
load_samples files sample_dir (suc n) i =
    (load_from files (sample_file sample_dir i) new_sample).1
    ∷ load_samples files sample_dir n (suc i)

module _ {Coverage : Type 0} {ops : CoverageOps Coverage} (disk : CoverageFile ops) where
  -- SaveState: what it writes to the file.
  unfoldable pub save_state : ServerState Coverage → Bytes
  unfolding save_timestamps
  save_state s =
      store_le 8 s.num_samples
      ++ (store_le 8 s.server_timestamp
          ++ (disk.write s.total_coverage
              ++ (store_le 8 (length s.corpus.samples)
                  ++ (store_le 8 (length s.corpus.timestamps)
                      ++ save_timestamps s.corpus.timestamps))))

  -- RestoreState from that file, into the state `s`.
  unfoldable pub restore_state : Files → Bytes → Bytes → ServerState Coverage → ServerState Coverage
  unfolding load_samples load_timestamps
  restore_state files sample_dir file s =
      let num_samples = fread_number 8 file in
      let server_timestamp = fread_number 8 num_samples.1 in
      let total_coverage = disk.read s.total_coverage server_timestamp.1 in
      let samples_size = fread_number 8 total_coverage.1 in
      let timestamps_size = fread_number 8 samples_size.1 in
      record {
        corpus = record {
          samples = s.corpus.samples ++ load_samples files sample_dir samples_size.0 0;
          timestamps = load_timestamps timestamps_size.0 timestamps_size.1;
        };
        total_coverage = total_coverage.0;
        server_timestamp = server_timestamp.0;
        num_samples = num_samples.0;
      }
