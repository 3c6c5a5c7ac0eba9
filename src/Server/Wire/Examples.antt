-- ===== src/Server/Wire/Examples.antt =====
-- A coverage of two modules over a connection.
use jackalope.Prelude.{
  ℕ, ◌^◌, ◌<◌, ◌≤◌, ◌≡◌, refl, some, none, List, [], ◌∷◌, ◌++◌, ◌||◌, ◌&&◌, replicate, arith,
}
use jackalope.Prelude.Memory.{Bytes, store_le, load_le}
use jackalope.Prelude.Predicates.{All-replicate}
use jackalope.Crashes.{same}
use jackalope.Coverage.Lists.{Offsets, offsets, has, has-append}
use jackalope.Server.Socket.{
  Socket, send, send_sized, write, write_loop, read, read_loop, recv, recv_string, recv_sized,
}
use jackalope.Server.Transfer.{Pending}
use jackalope.Server.Updates.{send_command}
use jackalope.Server.Wire.{
  CoverageWire, among, member, send_coverage, send_modules, send_module, store_offsets,
  recv_coverage, recv_module,
}
use jackalope.Server.Wire.Blocks.{TakesBlocks}
use jackalope.Server.Wire.RoundTrip.{Fits, recv_coverage-send_coverage}

abbrev one_by_one : Offsets → List (Bytes × List ℕ)
one_by_one [] = []
one_by_one (e ∷ c) = (e.0, e.1 ∷ []) ∷ one_by_one c

abbrev in_module : Bytes → List ℕ → Offsets
in_module module_name [] = []
in_module module_name (x ∷ xs) = (module_name, x) ∷ in_module module_name xs

pub has-one_by_one : (c : Offsets) (m : Bytes) (x : ℕ) → has c m x ≡ among same m x (one_by_one c)
has-one_by_one [] m x = refl
has-one_by_one (e ∷ c) m x = ground (arith, has-one_by_one c m x)

has-in_module :
    (module_name : Bytes) (xs : List ℕ) (m : Bytes) (x : ℕ)
    → has (in_module module_name xs) m x ≡ same m module_name && member x xs
has-in_module module_name [] m x = ground arith
has-in_module module_name (y ∷ xs) m x = ground (arith, has-in_module module_name xs m x)

pub has-joined :
    (c : Offsets) (module_name : Bytes) (xs : List ℕ) (m : Bytes) (x : ℕ)
    → has (c ++ in_module module_name xs) m x ≡ has c m x || (same m module_name && member x xs)
has-joined c module_name xs m x =
    ground (arith, has-append c (in_module module_name xs) m x, has-in_module module_name xs m x)

abbrev pub wire : CoverageWire offsets
wire = record {
  modules = one_by_one;
  insert_offsets = λ c module_name xs. c ++ in_module module_name xs;
  same_module = same;
  has-modules = has-one_by_one;
  has-insert_offsets = has-joined;
}

abbrev pub two_offsets : Offsets
two_offsets = (b'a' ∷ [], 300) ∷ (b'b' ∷ [], 5) ∷ []

abbrev pub sender : Socket
sender = record { incoming = []; room = replicate 25 (2 ^ 31); outgoing = [] }

abbrev pub module_bytes : ℕ → ℕ → ℕ → Bytes
module_bytes name low high =
    b'C' ∷ 1 ∷ 0 ∷ 0 ∷ 0 ∷ 0 ∷ 0 ∷ 0 ∷ 0 ∷ name ∷ 1 ∷ 0 ∷ 0 ∷ 0 ∷ 0 ∷ 0 ∷ 0 ∷ 0 ∷ low ∷ high ∷ 0 ∷ 0
    ∷ 0 ∷ 0 ∷ 0 ∷ 0 ∷ []

-- The peer gets the first module in two pieces, and the rest with the next message.
abbrev receiver : Socket
receiver = record {
  incoming =
      (b'C' ∷ 1 ∷ 0 ∷ [])
      ∷ (0 ∷ 0 ∷ 0 ∷ 0 ∷ 0 ∷ 0 ∷ b'a' ∷ 1 ∷ 0 ∷ 0 ∷ 0 ∷ 0 ∷ 0 ∷ 0 ∷ 0 ∷ 44 ∷ 1 ∷ 0 ∷ 0 ∷ 0 ∷ 0 ∷ 0
          ∷ 0 ∷ [])
      ∷ (module_bytes b'b' 5 0 ++ (b'N' ∷ b'S' ∷ []))
      ∷ [];
  room = [];
  outgoing = [];
}

receiver-Pending :
    Pending receiver ((send_coverage wire two_offsets sender).outgoing ++ (b'S' ∷ []))
unfolding send_coverage send_modules send_module send_command send_sized write write_loop send
    store_offsets store_le
receiver-Pending = record {
  bytes = refl;
  full = ((λ e. ground (arith, e)), ((λ e. ground (arith, e)), ((λ e. ground (arith, e)), tt)));
}

pub sender-TakesBlocks : TakesBlocks sender 25
sender-TakesBlocks = record {
  takes = All-replicate (λ r. 2 ^ 31 ≤ r) 25 (2 ^ 31) (omega arith);
  enough = omega arith;
}

pub one_offset-Fits : (name x : ℕ) → x < 2 ^ 64 → Fits (name ∷ [], x ∷ [])
one_offset-Fits name x h = record {
  name_size = omega arith;
  offset_sizes = (h, tt);
  block_size = omega arith;
}

recv_coverage-send_coverage_example :
    (c : Offsets) × (peer' : Socket) × (recv_coverage wire 3 [] receiver ≡ some (c, peer'))
    × ((m : Bytes) (x : ℕ) → has c m x ≡ has two_offsets m x)
    × Pending peer' (b'S' ∷ [])
recv_coverage-send_coverage_example =
    recv_coverage-send_coverage offsets wire two_offsets sender receiver (b'S' ∷ [])
      (one_offset-Fits b'a' 300 (omega arith), (one_offset-Fits b'b' 5 (omega arith), tt)) refl
      sender-TakesBlocks receiver-Pending

-- A count of offsets whose size is greater than SIZE_MAX makes RecvCoverage fail.
count_too_great :
    recv_coverage wire 3 [] record {
      incoming = (b'C' ∷ 0 ∷ 0 ∷ 0 ∷ 0 ∷ 0 ∷ 0 ∷ 0 ∷ 0 ∷ 0 ∷ 0 ∷ 0 ∷ 0 ∷ 0 ∷ 0 ∷ 0 ∷ 32 ∷ []) ∷ [];
      room = [];
      outgoing = [];
    }
    ≡ none
unfolding recv_coverage recv_module recv_string recv_sized read read_loop recv load_le
count_too_great = refl
