-- ===== src/Grammar/Binary.antt =====
-- grammar.h and grammar.cpp, class BinaryRW: a growing buffer that is written, and one that is read.
-- Sizes are 64 bits wide. What is written fits in memory, so the writer's sums do not wrap; the
-- reader's sums take sizes out of the data, and their wrap is kept.
use jackalope.Prelude.{
  ℕ, zero, suc, ◌+◌, ◌-◌, ◌*◌, ◌%◌, ◌^◌, Option, none, some, true, false, ltb, if◌then◌else◌,
  length, replicate,
}
use jackalope.Prelude.Memory.{Bytes, ◌>>=◌, read_block, write_block, store_le, load_le}
use jackalope.Sample.{realloc}

-- BINARY_RW_INITIAL_SIZE
abbrev pub binary_rw_initial_size : ℕ
binary_rw_initial_size = 128

pub record Writer : Type 0 where
  pub bytes : Bytes
  pub size_allocated : ℕ
  pub size_current : ℕ

-- BinaryRW::BinaryRW()
abbrev pub new_writer : Writer
new_writer = record {
  bytes = replicate binary_rw_initial_size 0;
  size_allocated = binary_rw_initial_size;
  size_current = 0;
}

-- The loop of WriteData: the allocation is doubled until `needed` bytes fit. `none` means that the
-- fuel has run out.
unfoldable pub grow : ℕ → ℕ → Writer → Option Writer
grow zero needed w = none
grow (suc fuel) needed w = elim (ltb w.size_allocated needed) [
  | true ↦ grow fuel needed (record w {
    bytes = realloc w.bytes (w.size_allocated * 2);
    size_allocated = w.size_allocated * 2;
  })
  | false ↦ some w
]

-- BinaryRW::WriteData
unfoldable pub write_data : Bytes → Writer → Option Writer
unfolding grow
write_data data' w = do
  w' ← grow (suc (w.size_current + length data')) (w.size_current + length data') w
  b ← write_block w'.bytes w'.size_current data'
  some (record w' { bytes = b; size_current = w'.size_current + length data' })

-- BinaryRW::WriteSize
unfoldable pub write_size : ℕ → Writer → Option Writer
write_size n w = write_data (store_le 8 n) w

-- BinaryRW::WriteString
unfoldable pub write_string : Bytes → Writer → Option Writer
write_string s w = do w' ← write_size (length s) w; write_data s w'

pub record Reader : Type 0 where
  pub bytes : Bytes
  pub size_current : ℕ
  pub read_pos : ℕ

-- BinaryRW::BinaryRW(size, data), where `data` holds `size` bytes.
abbrev pub new_reader : Bytes → Reader
new_reader b = record { bytes = b; size_current = length b; read_pos = 0 }

-- `failed` is a return value of 0, or a NULL tree, and `length_error` the exception, which nothing
-- catches. The last two are no values of the code.
pub data Read (A : Type 0) : Type 0 where
  ok : A → Reader → Read A
  failed : Read A
  length_error : Read A
  out_of_bounds : Read A
  out_of_fuel : Read A

abbrev pub bind : {A B : Type 0} → Read A → (A → Reader → Read B) → Read B
bind (ok a r) f = f a r
bind failed f = failed
bind length_error f = length_error
bind out_of_bounds f = out_of_bounds
bind out_of_fuel f = out_of_fuel

-- A block behind the read position, which is moved past it.
abbrev pub advance : Reader → ℕ → Option Bytes → Read Bytes
advance r n none = out_of_bounds
advance r n (some b) = ok b (record r { read_pos = (r.read_pos + n) % 2 ^ 64 })

-- BinaryRW::ReadData
unfoldable pub read_data : ℕ → Reader → Read Bytes
read_data n r =
    if ltb r.size_current ((r.read_pos + n) % 2 ^ 64)
    then failed
    else advance r n (read_block r.bytes r.read_pos n)

-- BinaryRW::ReadSize
unfoldable pub read_size : Reader → Read ℕ
read_size r = bind (read_data 8 r) (λ b. ok (load_le b))

-- `std::string::max_size()`. It depends on the C++ library, and is taken to be the greatest
-- difference of two pointers of 64 bits, beyond which no buffer goes.
abbrev pub string_max_size : ℕ
string_max_size = 2 ^ 63 - 1

-- `s->assign(bytes + read_pos, n)` and the move of the position: `assign` throws std::length_error
-- for more than max_size() characters, before it reads any.
abbrev pub assign_string : Reader → ℕ → Read Bytes
assign_string r n =
    if ltb string_max_size n then length_error else advance r n (read_block r.bytes r.read_pos n)

-- BinaryRW::ReadString; its own check is that of ReadData.
unfoldable pub read_string : Reader → Read Bytes
read_string r = bind (read_size r) (λ n r'.
    if ltb r'.size_current ((r'.read_pos + n) % 2 ^ 64) then failed else assign_string r' n)
