-- ===== src/Sample.antt =====
-- sample.h and sample.cpp, class Sample: a buffer of bytes with its size and the file behind it.
-- A NULL pointer is `none`; the list under `some` is the allocation, so its length is what
-- `malloc` was given. Each memory access is checked, and `none` as a result is an access outside
-- an allocation. `malloc` does not fail. A file system is a function from names to contents.
pub mod Contents
pub mod FirstDiff
pub mod Storage
mod Examples
use jackalope.Prelude.{
  ℕ, ◌+◌, ◌-◌, ◌<◌, ◌≡◌, Option, none, some, List, [], ◌∷◌, ◌++◌, Bool, true, false, ltb, leb, ◌==◌,
  if◌then◌else◌, length, take, replicate, zero, suc, get_elem?,
}
use jackalope.Prelude.Memory.{Bytes, ◌>>=◌, read_block, write_block}

pub record Sample : Type 0 where
  pub bytes : Option Bytes
  pub size : ℕ
  pub filename : Bytes

-- The allocation behind a pointer; NULL has none.
abbrev pub block : Option Bytes → Bytes
block none = []
block (some b) = b

abbrev pub content : Sample → Bytes
content s = block s.bytes

-- The size field is the size of the allocation.
abbrev pub IsValid : Sample → Type 0
IsValid s = length (content s) ≡ s.size

-- Sample::Sample()
abbrev pub new_sample : Sample
new_sample = record { bytes = none; size = 0; filename = [] }

-- `realloc`: the bytes past the old end are indeterminate (here 0); each caller overwrites them.
unfoldable pub realloc : Bytes → ℕ → Bytes
realloc buf n = take n buf ++ replicate (n - length buf) 0

-- Sample::Clear frees the buffer and forgets the name. The size stays as it was.
unfoldable pub clear : Sample → Sample
clear s = record s { bytes = none; filename = [] }

-- Sample::Init(data, size): `data` is the source buffer from the pointer on.
unfoldable pub init : Sample → Bytes → ℕ → Option Sample
init s data' n = do b ← read_block data' 0 n; some (record s { bytes = some b; size = n })

-- Sample::Init(size)
unfoldable pub init_zero : Sample → ℕ → Sample
init_zero s n = record s { bytes = some (replicate n 0); size = n }

-- Sample::Append
unfoldable pub append : Sample → Bytes → ℕ → Option Sample
append s data' n = do
  b ← read_block data' 0 n
  b' ← write_block (realloc (content s) (s.size + n)) s.size b
  some (record s { bytes = some b'; size = s.size + n })

-- Sample::Trim
unfoldable pub trim : Sample → ℕ → Sample
trim s new_size =
    if ltb s.size new_size
    then s
    else if new_size == 0
    then record s { bytes = none; size = 0 }
    else record s { bytes = some (realloc (content s) new_size); size = new_size }

-- Sample::Resize
unfoldable pub resize : Sample → ℕ → Option Sample
unfolding trim
resize s new_size =
    if new_size == s.size
    then some s
    else if ltb new_size s.size
    then some (trim s new_size)
    else (do
      b ← write_block (realloc (content s) new_size) s.size (replicate (new_size - s.size) 0)
      some (record s { bytes = some b; size = new_size }))

-- Sample::Crop
unfoldable pub crop : Sample → ℕ → ℕ → Sample → Option Sample
unfolding clear init
crop s from to out =
    if leb to from
    then some (clear out)
    else if ltb s.size from
    then some (clear out)
    else (let end = if ltb s.size to then s.size else to in
        do b ← read_block (content s) from (end - from); init (clear out) b (end - from))

-- The loop of Sample::FindFirstDiff: `n` rounds are left, and the next index is `i`.
unfoldable pub find_first_diff_loop : ℕ → ℕ → Bytes → Bytes → Option ℕ
find_first_diff_loop zero i a b = some i
find_first_diff_loop (suc n) i a b =
    let rest = find_first_diff_loop n (i + 1) a b in
    do x ← get_elem? a i; y ← get_elem? b i; if x == y then rest else some i

-- Sample::FindFirstDiff
unfoldable pub find_first_diff : Sample → Sample → Option ℕ
find_first_diff s other =
    find_first_diff_loop (if ltb other.size s.size then other.size else s.size) 0 (content s)
      (content other)

-- What `fopen` finds under a name.
abbrev pub Files : Type 0
Files = Bytes → Option Bytes

-- The outcome of an operation that may stop the process by FATAL.
pub data Outcome (A : Type 0) : Type 0 where
  done : A → Outcome A
  fatal : Outcome A
  out_of_bounds : Outcome A

-- Sample::Save(filename), for a name that can be opened for writing: what the file then holds.
unfoldable pub save_bytes : Sample → Option Bytes
save_bytes s = read_block (content s) 0 s.size

-- Sample::Load(filename); the flag is its return value.
unfoldable pub load_from : Files → Bytes → Sample → Bool × Sample
load_from fs name s = elim (fs name) [
  | none ↦ (false, s)
  | some b ↦ (true, record s { bytes = some b; size = length b })
]

-- Sample::Load()
unfoldable pub load : Files → Sample → Outcome Sample
unfolding load_from
load fs s = elim s.filename [ [] ↦ fatal | _ ↦ done (load_from fs s.filename s).1 ]

-- Sample::FreeMemory
unfoldable pub free_memory : Sample → Sample
free_memory s = record s { bytes = none }

-- Sample::EnsureLoaded
unfoldable pub ensure_loaded : Files → Sample → Outcome Sample
unfolding load
ensure_loaded fs s =
    if s.size == 0 then done s else elim s.bytes [ some b ↦ done s | none ↦ load fs s ]
