-- ===== src/Fuzzer/Saved.antt =====
-- fuzzer.cpp, SampleQueueEntry::Save and SampleQueueEntry::Load: the entries in state.dat.
use jackalope.Prelude.{
  ℕ, zero, suc, ◌^◌, ◌<◌, ◌≡◌, ◌≢◌, refl, sym, ap, List, [], ◌∷◌, ◌++◌, Bool, true, false, not,
  ◌==◌, if◌then◌else◌, length, take, drop, take-append_length, drop-append_length, arith,
}
use jackalope.Prelude.Memory.{Bytes, store_le, load_le, length-store_le, load_le-store_le}
use jackalope.Prelude.Predicates.{All}
use jackalope.Sample.{new_sample}
use jackalope.Ranges.{Range}
use jackalope.Fuzzer.Entries.{SampleQueueEntry}

-- The representation of the double -n, which the C++ implementation chooses, and the reading of it.
pub record Doubles : Type 0 where
  pub store : ℕ → Bytes
  pub load : Bytes → ℕ
  pub length-store : (n : ℕ) → length (store n) ≡ 8

-- `fread` of `n` bytes: the bytes and what is left of the file.
abbrev pub fread : ℕ → Bytes → Bytes × Bytes
fread n file = (take n file, drop n file)

unfoldable pub fread_number : ℕ → Bytes → ℕ × Bytes
fread_number n file = (load_le (take n file), drop n file)

-- A std::string from the bytes before the first 0.
unfoldable pub c_string : Bytes → Bytes
c_string [] = []
c_string (c ∷ cs) = let rest = c_string cs in if c == 0 then [] else c ∷ rest

unfoldable pub save_ranges : List Range → Bytes → Bytes
save_ranges [] rest = rest
save_ranges (r ∷ ranges) rest = store_le 8 r.from ++ (store_le 8 r.to ++ save_ranges ranges rest)

unfoldable pub load_ranges : ℕ → Bytes → List Range × Bytes
load_ranges zero file = ([], file)
load_ranges (suc n) file =
    let from = fread_number 8 file in
    let to = fread_number 8 from.1 in
    let more = load_ranges n to.1 in (record { from = from.0; to = to.0 } ∷ more.0, more.1)

abbrev flag : Bool → ℕ
flag true = 1
flag false = 0

-- SampleQueueEntry::Save: the file from its first write on, where `rest` is written after it.
unfoldable pub save_entry : Doubles → SampleQueueEntry → Bytes → Bytes
unfolding save_ranges
save_entry doubles e rest =
    store_le 8 (length e.sample_filename)
    ++ (e.sample_filename
        ++ (doubles.store e.priority_below_0
            ++ (store_le 8 e.sample_index
                ++ (store_le 8 e.num_runs
                    ++ (store_le 8 e.num_crashes
                        ++ (store_le 8 e.num_hangs
                            ++ (store_le 8 e.num_newcoverage
                                ++ (store_le 4 (flag e.discarded)
                                    ++ (store_le 8 (length e.ranges)
                                        ++ save_ranges e.ranges rest)))))))))

-- SampleQueueEntry::Load: the entry, without its sample, and what is left of the file.
unfoldable pub load_entry : Doubles → Bytes → SampleQueueEntry × Bytes
load_entry doubles file =
    let filename_size = fread_number 8 file in
    let str_buf = fread filename_size.0 filename_size.1 in
    let priority = fread 8 str_buf.1 in
    let sample_index = fread_number 8 priority.1 in
    let num_runs = fread_number 8 sample_index.1 in
    let num_crashes = fread_number 8 num_runs.1 in
    let num_hangs = fread_number 8 num_crashes.1 in
    let num_newcoverage = fread_number 8 num_hangs.1 in
    let discarded = fread_number 4 num_newcoverage.1 in
    let ranges_size = fread_number 8 discarded.1 in
    let ranges = load_ranges ranges_size.0 ranges_size.1 in
    (
      record {
        sample = new_sample;
        sample_filename = c_string str_buf.0;
        ranges = ranges.0;
        priority_below_0 = doubles.load priority.0;
        sample_index = sample_index.0;
        num_runs = num_runs.0;
        num_crashes = num_crashes.0;
        num_hangs = num_hangs.0;
        num_newcoverage = num_newcoverage.0;
        discarded = not (discarded.0 == 0);
      },
      ranges.1,
    )

-- The counters fit in 64 bits, and the file name has no byte 0.
pub record IsSavable (doubles : Doubles) (e : SampleQueueEntry) : Type 0 where
  pub named : All (λ c. c ≢ 0) e.sample_filename
  pub short : length e.sample_filename < 2 ^ 64
  pub priority : doubles.load (doubles.store e.priority_below_0) ≡ e.priority_below_0
  pub index : e.sample_index < 2 ^ 64
  pub runs : e.num_runs < 2 ^ 64
  pub crashes : e.num_crashes < 2 ^ 64
  pub hangs : e.num_hangs < 2 ^ 64
  pub newcoverage : e.num_newcoverage < 2 ^ 64
  pub few : length e.ranges < 2 ^ 64
  pub bounded : All (λ (r : Range). (r.from < 2 ^ 64) × (r.to < 2 ^ 64)) e.ranges

fread_number-store_le :
    (k v : ℕ) (rest : Bytes) → v < 256 ^ k → fread_number k (store_le k v ++ rest) ≡ (v, rest)
unfolding fread_number
fread_number-store_le k v rest h =
    let n = length-store_le k v in
    let head = take-append_length (store_le k v) rest k (sym n) in
    let tail = drop-append_length (store_le k v) rest k (sym n) in
    rw (head, tail, load_le-store_le k v h) refl

pub number_64 :
    (v : ℕ) (rest : Bytes) → v < 2 ^ 64 → fread_number 8 (store_le 8 v ++ rest) ≡ (v, rest)
number_64 v rest h = fread_number-store_le 8 v rest (omega arith)

c_string-named : (s : Bytes) → All (λ c. c ≢ 0) s → c_string s ≡ s
unfolding c_string
c_string-named [] h = refl
c_string-named (c ∷ cs) h =
    let other : (c == 0) ≡ false = ground (arith, h.0) in
    rw other (ap (λ rest. c ∷ rest) (c_string-named cs h.1))

load_ranges-save_ranges :
    (ranges : List Range) (rest : Bytes)
    → All (λ (r : Range). (r.from < 2 ^ 64) × (r.to < 2 ^ 64)) ranges
    → load_ranges (length ranges) (save_ranges ranges rest) ≡ (ranges, rest)
unfolding load_ranges save_ranges
load_ranges-save_ranges [] rest h = refl
load_ranges-save_ranges (r ∷ ranges) rest h =
    rw
      (
        number_64 r.from (store_le 8 r.to ++ save_ranges ranges rest) h.0.0,
        number_64 r.to (save_ranges ranges rest) h.0.1,
        load_ranges-save_ranges ranges rest h.1,
      )
      refl

flag-lt : (b : Bool) → flag b < 256 ^ 4
flag-lt true = omega arith
flag-lt false = omega arith

flag-not : (b : Bool) → not (flag b == 0) ≡ b
flag-not true = refl
flag-not false = refl

-- An entry that is saved and loaded again is the same, without its sample, which is loaded from its
-- own file, and what follows it in the file is read next; if its counters fit in 64 bits, its
-- priority is a double, and its file name has no byte 0.
pub load_entry-save_entry :
    (doubles : Doubles) (e : SampleQueueEntry) (rest : Bytes)
    → IsSavable doubles e
    → load_entry doubles (save_entry doubles e rest) ≡ (record e { sample = new_sample }, rest)
unfolding load_entry save_entry
load_entry-save_entry doubles e rest h =
    let t9 = save_ranges e.ranges rest in
    let t8 = store_le 8 (length e.ranges) ++ t9 in
    let t7 = store_le 4 (flag e.discarded) ++ t8 in
    let t6 = store_le 8 e.num_newcoverage ++ t7 in
    let t5 = store_le 8 e.num_hangs ++ t6 in
    let t4 = store_le 8 e.num_crashes ++ t5 in
    let t3 = store_le 8 e.num_runs ++ t4 in
    let t2 = store_le 8 e.sample_index ++ t3 in
    let d = doubles.store e.priority_below_0 in
    let d8 = sym (doubles.length-store e.priority_below_0) in
    rw
      (
        number_64 (length e.sample_filename) (e.sample_filename ++ (d ++ t2)) h.short,
        take-append_length e.sample_filename (d ++ t2) (length e.sample_filename) refl,
        drop-append_length e.sample_filename (d ++ t2) (length e.sample_filename) refl,
        take-append_length d t2 8 d8,
        drop-append_length d t2 8 d8,
        number_64 e.sample_index t3 h.index,
        number_64 e.num_runs t4 h.runs,
        number_64 e.num_crashes t5 h.crashes,
        number_64 e.num_hangs t6 h.hangs,
        number_64 e.num_newcoverage t7 h.newcoverage,
        fread_number-store_le 4 (flag e.discarded) t8 (flag-lt e.discarded),
        number_64 (length e.ranges) t9 h.few,
        load_ranges-save_ranges e.ranges rest h.bounded,
        c_string-named e.sample_filename h.named,
        h.priority,
        flag-not e.discarded,
      )
      refl
