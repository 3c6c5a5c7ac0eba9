-- ===== src/Prelude/Memory.antt =====
-- Reads and writes of byte buffers, as C does them: `none` is an access outside the buffer.
use jackalope.Prelude.Tests.{leb, if◌then◌else◌, le→leb}
use jackalope.Prelude.Lists.{length, take, drop, length-take, length-drop}
use Prim.Native.Nat.{ℕ, zero, suc, ◌+◌, ◌*◌, ◌/◌, ◌%◌, ◌^◌, ◌≤◌, ◌<◌}
use mathlib.Core.Path.{◌≡◌, refl}
use mathlib.Core.List.{List, [], ◌∷◌, ◌++◌}
use mathlib.Core.Option.{Option, none, some}
use native.Mathlib.Omega.{arith}

abbrev pub Bytes : Type 0
Bytes = List ℕ

infixl 5 ◌>>=◌
abbrev pub ◌>>=◌ {ℓ κ} : {A : Type ℓ} {B : Type κ} → Option A → (A → Option B) → Option B
none >>= f = none
some a >>= f = f a

-- The source range of `memcpy(dst, buf + pos, n)`.
unfoldable pub read_block : Bytes → ℕ → ℕ → Option Bytes
read_block buf pos n = if leb (pos + n) (length buf) then some (take n (drop pos buf)) else none

-- `memcpy(buf + pos, src, length src)`.
unfoldable pub write_block : Bytes → ℕ → Bytes → Option Bytes
write_block buf pos src =
    if leb (pos + length src) (length buf)
    then some (take pos buf ++ (src ++ drop (pos + length src) buf))
    else none

pub read_block_lem :
    (buf : Bytes) (pos n : ℕ)
    → pos + n ≤ length buf
    → read_block buf pos n ≡ some (take n (drop pos buf))
unfolding read_block
read_block_lem buf pos n h = rw (le→leb _ _ h)

pub write_block_lem :
    (buf : Bytes) (pos : ℕ) (src : Bytes)
    → pos + length src ≤ length buf
    → write_block buf pos src ≡ some (take pos buf ++ (src ++ drop (pos + length src) buf))
unfolding write_block
write_block_lem buf pos src h = rw (le→leb _ _ h)

pub length-take-drop :
    (buf : Bytes) (pos n : ℕ) → pos + n ≤ length buf → length (take n (drop pos buf)) ≡ n
length-take-drop buf pos n h = omega (arith, length-take n (drop pos buf), length-drop pos buf)

-- The object representation of an unsigned integer of `k` bytes on a little-endian machine.
unfoldable pub store_le : ℕ → ℕ → Bytes
store_le zero v = []
store_le (suc k) v = (v % 256) ∷ store_le k (v / 256)

unfoldable pub load_le : Bytes → ℕ
load_le [] = 0
load_le (b ∷ bs) = b + 256 * load_le bs

pub length-store_le : (k v : ℕ) → length (store_le k v) ≡ k
unfolding store_le
length-store_le zero v = refl
length-store_le (suc k) v = omega (arith, length-store_le k (v / 256))

pub load_le-store_le : (k v : ℕ) → v < 256 ^ k → load_le (store_le k v) ≡ v
unfolding store_le load_le
load_le-store_le zero v h = omega arith
load_le-store_le (suc k) v h = omega (arith, load_le-store_le k (v / 256) (omega arith))
