-- ===== src/Server/RestoredExamples.antt =====
-- A server's state of one offset and two samples, saved and restored.
use jackalope.Prelude.{
  ℕ, zero, suc, ◌≡◌, refl, ap, some, none, [], ◌∷◌, ◌++◌, if◌then◌else◌, length, take, drop, map,
  take-append_length, drop-append_length, append_assoc, arith,
}
use jackalope.Prelude.Memory.{Bytes}
use jackalope.Sample.{Files}
use jackalope.Crashes.{same}
use jackalope.Coverage.Lists.{Offsets, offsets, has}
use jackalope.Server.Updates.{ServerState}
use jackalope.Server.SavedState.{CoverageFile, dir_join, sample_file, save_state, restore_state}
use jackalope.Server.Restored.{IsSaved, reloaded, restore_state-save_state}

abbrev write_offsets : Offsets → Bytes
write_offsets [] = []
write_offsets (e ∷ c) = (length e.0 ∷ e.0) ++ (e.1 ∷ write_offsets c)

abbrev head : Bytes → ℕ
head [] = 0
head (b ∷ bs) = b

abbrev read_offsets : ℕ → Bytes → Offsets × Bytes
read_offsets zero file = ([], file)
read_offsets (suc n) file =
    let name = drop 1 file in
    let after = drop (head file) name in
    let rest = read_offsets n (drop 1 after) in
    ((take (head file) name, head after) ∷ rest.0, rest.1)

read_offsets-write_offsets :
    (c : Offsets) (rest : Bytes) → read_offsets (length c) (write_offsets c ++ rest) ≡ (c, rest)
read_offsets-write_offsets [] rest = refl
read_offsets-write_offsets (e ∷ c) rest =
    rw
      (
        append_assoc e.0 (e.1 ∷ write_offsets c) rest,
        take-append_length e.0 (e.1 ∷ (write_offsets c ++ rest)) (length e.0) refl,
        drop-append_length e.0 (e.1 ∷ (write_offsets c ++ rest)) (length e.0) refl,
        read_offsets-write_offsets c rest,
      )
      refl

abbrev read_into : Offsets → Bytes → Offsets × Bytes
read_into c file = let r = read_offsets (head file) (drop 1 file) in (c ++ r.0, r.1)

read_into-write_offsets :
    (c : Offsets) (rest : Bytes) → read_into [] ((length c ∷ write_offsets c) ++ rest) ≡ (c, rest)
read_into-write_offsets c rest = rw (read_offsets-write_offsets c rest) refl

disk : CoverageFile offsets
disk = record {
  write = λ c. length c ∷ write_offsets c;
  read = read_into;
  read-write = λ c rest. ap (λ (r : Offsets × Bytes). r.1) (read_into-write_offsets c rest);
  has-read-write =
      λ c rest m x. ap (λ (r : Offsets × Bytes). has r.0 m x) (read_into-write_offsets c rest);
}

abbrev out : Bytes
out = b'o' ∷ []

abbrev saved : ServerState Offsets
saved = record {
  corpus = record {
    samples =
        record { bytes = some (7 ∷ []); size = 1; filename = [] }
        ∷ record { bytes = some (8 ∷ 9 ∷ []); size = 2; filename = [] }
        ∷ [];
    timestamps = record { timestamp = 4; index = 0 } ∷ record { timestamp = 300; index = 1 } ∷ [];
  };
  total_coverage = (b'm' ∷ [], 16) ∷ [];
  server_timestamp = 300;
  num_samples = 2;
}

abbrev restarted : ServerState Offsets
restarted = record {
  corpus = record { samples = []; timestamps = [] };
  total_coverage = [];
  server_timestamp = 0;
  num_samples = 0;
}

-- o/sample_00000 and o/sample_00001
abbrev sample_name : ℕ → Bytes
sample_name digit =
    b'o' ∷ b'/' ∷ b's' ∷ b'a' ∷ b'm' ∷ b'p' ∷ b'l' ∷ b'e' ∷ b'_' ∷ b'0' ∷ b'0' ∷ b'0' ∷ b'0' ∷ digit
    ∷ []

abbrev files : Files
files name =
    if same name (sample_name b'0')
    then some (7 ∷ [])
    else if same name (sample_name b'1')
    then some (8 ∷ 9 ∷ [])
    else none

saved-IsSaved : IsSaved offsets disk files out saved
unfolding sample_file dir_join
saved-IsSaved = record {
  number = omega arith;
  time = omega arith;
  samples = omega arith;
  timestamps = omega arith;
  entries = ((omega arith, omega arith), ((omega arith, omega arith), tt));
  files_held = (refl, refl, (refl, refl, tt));
}

restore_state-save_state_example :
    let s' = restore_state disk files out (save_state disk saved) restarted in
    (s'.corpus.samples ≡ map reloaded saved.corpus.samples)
    × (s'.corpus.timestamps ≡ saved.corpus.timestamps)
    × (s'.server_timestamp ≡ 300)
    × (s'.num_samples ≡ 2)
    × ((m : Bytes) (x : ℕ) → has s'.total_coverage m x ≡ has saved.total_coverage m x)
restore_state-save_state_example =
    restore_state-save_state offsets disk files out saved restarted saved-IsSaved refl refl
