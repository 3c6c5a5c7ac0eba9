-- ===== src/Server/Wire.antt =====
-- server.cpp, SendCoverage and RecvCoverage: a coverage over the connection, module by module.
pub mod Blocks
pub mod Room
pub mod RoundTrip
pub mod Examples
use jackalope.Prelude.{
  ℕ, zero, suc, ◌+◌, ◌-◌, ◌*◌, ◌/◌, ◌%◌, ◌^◌, Option, none, some, List, [], ◌∷◌, ◌++◌, Bool, true,
  false, ◌&&◌, ◌||◌, ltb, ◌==◌, if◌then◌else◌, length, take, drop, ◌≡◌,
}
use jackalope.Prelude.Memory.{Bytes, ◌>>=◌, store_le, load_le}
use jackalope.Coverage.{CoverageOps}
use jackalope.Server.Socket.{Socket, read, send, send_sized, recv_string}
use jackalope.Server.Updates.{send_command}

-- `(int)n`, as it becomes a size again.
abbrev pub int_size : ℕ → ℕ
int_size n = let w = n % 2 ^ 32 in if ltb w (2 ^ 31) then w else 2 ^ 64 - 2 ^ 32 + w

-- The offsets as an array of uint64_t.
unfoldable pub store_offsets : List ℕ → Bytes
store_offsets [] = []
store_offsets (x ∷ offsets) = store_le 8 x ++ store_offsets offsets

unfoldable pub load_offsets : ℕ → Bytes → List ℕ
load_offsets zero block = []
load_offsets (suc n) block = load_le (take 8 block) ∷ load_offsets n (drop 8 block)

-- One round of the loop of SendCoverage; it ignores what `send` returns.
unfoldable pub send_module : Bytes × List ℕ → Socket → Socket
unfolding store_offsets
send_module (module_name, offsets) sock =
    let s1 = (send_sized module_name (send_command b'C' sock)).1 in
    let s2 = (send (store_le 8 (length offsets)) 8 s1).1 in
    (send (store_offsets offsets) (int_size (length offsets * 8)) s2).1

unfoldable pub send_modules : List (Bytes × List ℕ) → Socket → Socket
unfolding send_module
send_modules [] sock = send_command b'N' sock
send_modules (m ∷ modules) sock = send_modules modules (send_module m sock)

abbrev pub member : ℕ → List ℕ → Bool
member x [] = false
member x (y ∷ offsets) = x == y || member x offsets

-- Whether modules have an offset of a module.
abbrev pub among : (Bytes → Bytes → Bool) → Bytes → ℕ → List (Bytes × List ℕ) → Bool
among same m x [] = false
among same m x ((module_name, offsets) ∷ modules) =
    (same m module_name && member x offsets) || among same m x modules

-- What RecvCoverage does on a command: it ends on `N`, goes on on `C` and fails on any other.
abbrev pub on_command : {A : Type 0} → ℕ → Option A → Option A → Option A
on_command command ends more =
    if command == b'N' then ends else if command == b'C' then more else none

-- What SendCoverage and RecvCoverage use of TinyInst's coverage: its modules with their offsets, and
-- GetModuleCoverage, which finds a module to which offsets are then added, or adds it.
pub record CoverageWire {Coverage : Type 0} (ops : CoverageOps Coverage) : Type 0 where
  pub modules : Coverage → List (Bytes × List ℕ)
  pub insert_offsets : Coverage → Bytes → List ℕ → Coverage
  pub same_module : Bytes → Bytes → Bool
  pub has-modules :
      (c : Coverage) (m : Bytes) (x : ℕ) → ops.has c m x ≡ among same_module m x (modules c)
  pub has-insert_offsets :
      (c : Coverage) (module_name : Bytes) (offsets : List ℕ) (m : Bytes) (x : ℕ)
      → ops.has (insert_offsets c module_name offsets) m x
        ≡ ops.has c m x || (same_module m module_name && member x offsets)

module _ {Coverage : Type 0} {ops : CoverageOps Coverage} (wire : CoverageWire ops) where
  -- SendCoverage
  unfoldable pub send_coverage : Coverage → Socket → Socket
  unfolding send_modules
  send_coverage coverage sock = send_modules (wire.modules coverage) sock

  -- A module's offsets, behind its command.
  unfoldable pub recv_module : Coverage → Socket → Option (Coverage × Socket)
  unfolding load_offsets
  recv_module coverage sock = do
    (module_name, s1) ← recv_string sock
    (size, s2) ← read 8 s1
    if ltb ((2 ^ 64 - 1) / 8) (load_le size) then none else (do
      (block, s3) ← read (int_size (load_le size * 8)) s2
      some (wire.insert_offsets coverage module_name (load_offsets (load_le size) block), s3))

  -- The loop of RecvCoverage, with a bound on its rounds.
  unfoldable pub recv_coverage : ℕ → Coverage → Socket → Option (Coverage × Socket)
  recv_coverage zero coverage sock = none
  recv_coverage (suc fuel) coverage sock =
      let rest = λ (r : Coverage × Socket). recv_coverage fuel r.0 r.1 in
      (do
        (command, s1) ← read 1 sock
        on_command (load_le command) (some (coverage, s1)) (do r ← recv_module coverage s1; rest r))
