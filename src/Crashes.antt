-- ===== src/Crashes.antt =====
-- The crashes that the fuzzer (fuzzer.cpp, RunSampleAndGetCoverage) and the server (server.cpp,
-- ReportCrash and CheckFilename) keep: at most a few samples for each description.
pub mod Kept
mod Examples
use jackalope.Prelude.{
  ℕ, zero, suc, ◌+◌, ◌≡◌, Option, none, some, List, [], ◌∷◌, ◌++◌, Bool, true, false, ◌&&◌, ◌||◌,
  ltb, leb, ◌==◌, if◌then◌else◌,
}
use jackalope.Prelude.Memory.{Bytes, load_le}
use jackalope.Sample.{Sample, content, new_sample}
use jackalope.Server.Socket.{Socket, read, recv_sample, recv_string}

-- `std::string::operator==`
abbrev pub same : Bytes → Bytes → Bool
same [] [] = true
same [] (y ∷ ys) = false
same (x ∷ xs) [] = false
same (x ∷ xs) (y ∷ ys) = x == y && same xs ys

-- The counters, `unique_crashes`, and the files written to the crash directory, the last one
-- first: each is named by its description and its number, and holds the bytes of the sample.
pub record Crashes : Type 0 where
  pub num_crashes : ℕ
  pub num_unique_crashes : ℕ
  pub unique_crashes : List (Bytes × ℕ)
  pub files : List (Bytes × ℕ × Bytes)

abbrev pub no_crashes : Crashes
no_crashes = record { num_crashes = 0; num_unique_crashes = 0; unique_crashes = []; files = [] }

-- `unique_crashes.find(crash_desc)`
abbrev pub find : Bytes → List (Bytes × ℕ) → Option ℕ
find desc [] = none
find desc (e ∷ es) = if same desc e.0 then some e.1 else find desc es

-- `crash_it->second = n`
abbrev pub update : Bytes → ℕ → List (Bytes × ℕ) → List (Bytes × ℕ)
update desc n [] = []
update desc n (e ∷ es) = if same desc e.0 then (e.0, n) ∷ es else e ∷ update desc n es

abbrev count_found : ℕ → Bytes → Bytes → Option ℕ → Crashes → Crashes
count_found limit desc saved none c = record c {
  num_crashes = suc c.num_crashes;
  num_unique_crashes = suc c.num_unique_crashes;
  unique_crashes = (desc, 1) ∷ c.unique_crashes;
  files = (desc, 1, saved) ∷ c.files;
}
count_found limit desc saved (some n) c =
    if ltb n limit
    then record c {
      num_crashes = suc c.num_crashes;
      unique_crashes = update desc (suc n) c.unique_crashes;
      files = (desc, suc n, saved) ∷ c.files;
    }
    else record c { num_crashes = suc c.num_crashes }

-- The block under `crash_mutex` and the saving of the sample, for a limit on the number of
-- samples with one description; `saved` are the bytes of the sample.
unfoldable pub count_crash : ℕ → Bytes → Bytes → Crashes → Crashes
count_crash limit desc saved c = count_found limit desc saved (find desc c.unique_crashes) c

-- MAX_IDENTICAL_CRASHES
abbrev pub max_identical_crashes : ℕ
max_identical_crashes = 4

-- MAX_SERVER_IDENTICAL_CRASHES
abbrev pub max_server_identical_crashes : ℕ
max_server_identical_crashes = 4

-- The fuzzer's description of a crash: `reproduced` is the name that the crash analysis finds when
-- one of the retries crashes again, if there are any retries.
unfoldable pub crash_desc : Bool → Option Bytes → Bytes → Bytes
crash_desc retries reproduced name =
    if retries
    then elim reproduced [
      | some better ↦ better
      | none ↦ (b'f' ∷ b'l' ∷ b'a' ∷ b'k' ∷ b'y' ∷ b'_' ∷ []) ++ name
    ]
    else name

abbrev between : ℕ → ℕ → ℕ → Bool
between a b c = leb a c && leb c b

-- CheckFilename
unfoldable pub check_filename : Bytes → Bool
check_filename [] = true
check_filename (c ∷ cs) =
    (between b'0' b'9' c || between b'a' b'z' c || between b'A' b'Z' c || c == b'-' || c == b'_')
    && check_filename cs

-- The bytes of the sample that was received, all of which Save writes.
abbrev pub note_checked : Bytes → Sample → Crashes → Crashes
note_checked desc sample c =
    if check_filename desc
    then count_crash max_server_identical_crashes desc (content sample) c
    else c

-- CoverageServer::ReportCrash: the flag is its return value, and `fuel` bounds the messages, which
-- are a sample and a description each, behind an `S`, up to an `N`.
unfoldable pub server_report_crash : ℕ → Socket → Crashes → Bool × Crashes
unfolding count_crash check_filename
server_report_crash zero sock c = (false, c)
server_report_crash (suc fuel) sock c = elim (read 1 sock) [
  | none ↦ (false, c)
  | some (command, sock1) ↦
      if load_le command == b'N'
      then (true, c)
      else if load_le command == b'S'
      then elim (recv_sample new_sample sock1) [
        | none ↦ (false, c)
        | some (sample, sock2) ↦ elim (recv_string sock2) [
          | none ↦ (false, c)
          | some (desc, sock3) ↦ server_report_crash fuel sock3 (note_checked desc sample c)
        ]
      ]
      else (false, c)
]
