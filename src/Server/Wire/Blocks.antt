-- ===== src/Server/Wire/Blocks.antt =====
-- The parts of a coverage over the connection: a block that one `send` takes, and an array of
-- offsets.
use jackalope.Prelude.{
  ℕ, zero, suc, ◌+◌, ◌-◌, ◌*◌, ◌^◌, ◌≤◌, ◌<◌, ◌≡◌, refl, sym, ap, ◌∙◌, List, [], ◌∷◌, ◌++◌,
  Bool-cases, inl, inr, take-append_length, drop-append_length, ◌==◌, length, take, drop,
  length-take, length-append, take_all, arith, subst,
}
use jackalope.Prelude.Memory.{Bytes, store_le, load_le, length-store_le, load_le-store_le}
use jackalope.Prelude.Predicates.{All}
use jackalope.Server.Socket.{Socket, chunk_of, accept, send, write_loop, write, send_sized}
use jackalope.Server.Messages.{Ready, send_sized-Ready}
use jackalope.Server.Wire.{store_offsets, load_offsets, int_size}

-- `send` takes up to 2^31 bytes in each of its next `n` calls.
pub record TakesBlocks (sock : Socket) (n : ℕ) : Type 0 where
  pub takes : All (λ r. 2 ^ 31 ≤ r) sock.room
  pub enough : n ≤ length sock.room

All-positive : (room : List ℕ) → All (λ r. 2 ^ 31 ≤ r) room → All (λ r. 1 ≤ r) room
All-positive [] h = tt
All-positive (r ∷ room) h = (omega (arith, h.0), All-positive room h.1)

pub TakesBlocks-Ready : (sock : Socket) (n : ℕ) → TakesBlocks sock n → Ready sock n
TakesBlocks-Ready sock n h = record { takes = All-positive sock.room h.takes; enough = h.enough }

All-accept :
    (p : Bytes) (n : ℕ) (room : List ℕ)
    → All (λ r. 2 ^ 31 ≤ r) room
    → All (λ r. 2 ^ 31 ≤ r) (accept p n room).1
All-accept p n [] h = tt
All-accept p n (r ∷ room) h = h.1

All-send :
    (p : Bytes) (n : ℕ) (sock : Socket)
    → All (λ r. 2 ^ 31 ≤ r) sock.room
    → All (λ r. 2 ^ 31 ≤ r) (send p n sock).1.room
unfolding send
All-send p n sock h = All-accept p n sock.room h

All-write_loop :
    (fuel : ℕ) (p : Bytes) (n : ℕ) (sock : Socket)
    → All (λ r. 2 ^ 31 ≤ r) sock.room
    → All (λ r. 2 ^ 31 ≤ r) (write_loop fuel p n sock).1.room
unfolding write_loop
All-write_loop fuel p zero sock h = h
All-write_loop zero p (suc n) sock h = h
All-write_loop (suc fuel) p (suc n) sock h =
    let s = send p (chunk_of (suc n)) sock in
    let next = All-send p (chunk_of (suc n)) sock h in
    let rest = All-write_loop fuel (drop s.0 p) (suc n - s.0) s.1 next in
    elim (Bool-cases (s.0 == 0)) [ inl e ↦ rw e next | inr e ↦ rw e rest ]

All-send_sized :
    (p : Bytes) (sock : Socket)
    → All (λ r. 2 ^ 31 ≤ r) sock.room
    → All (λ r. 2 ^ 31 ≤ r) (send_sized p sock).1.room
unfolding send_sized write
All-send_sized p sock h =
    let header = store_le 8 (length p) in
    All-write_loop (length p) p (length p) (write header sock).1
      (All-write_loop (length header) header (length header) sock h)

-- A string goes out, and blocks can still be sent.
pub send_sized-TakesBlocks :
    (m : ℕ) (p : Bytes) (sock : Socket)
    → TakesBlocks sock (8 + length p + m)
    → ((send_sized p sock).1.outgoing ≡ sock.outgoing ++ (store_le 8 (length p) ++ p))
      × TakesBlocks (send_sized p sock).1 m
send_sized-TakesBlocks m p sock h =
    let (out, ready) = send_sized-Ready m p sock (TakesBlocks-Ready sock (8 + length p + m) h) in
    (out, record { takes = All-send_sized p sock h.takes; enough = ready.enough })

accept_whole :
    (p : Bytes) (m : ℕ) (room : List ℕ)
    → length p ≤ 2 ^ 31
    → All (λ r. 2 ^ 31 ≤ r) room
    → suc m ≤ length room
    → ((accept p (length p) room).0 ≡ length p) × (m ≤ length (accept p (length p) room).1)
accept_whole p m [] small h k = absurd (omega arith)
accept_whole p m (r ∷ room) small h k =
    (omega (arith, length-take r (take (length p) p), length-take (length p) p, h.0), omega arith)

send_whole :
    (m : ℕ) (p : Bytes) (sock : Socket)
    → length p ≤ 2 ^ 31
    → TakesBlocks sock (suc m)
    → ((send p (length p) sock).1.outgoing ≡ sock.outgoing ++ p)
      × TakesBlocks (send p (length p) sock).1 m
unfolding send
send_whole m p sock small h =
    let (all, enough) = accept_whole p m sock.room small h.takes h.enough in
    (
      ap (λ (k : ℕ). sock.outgoing ++ take k p) all
          ∙ ap (λ b. sock.outgoing ++ b) (take_all p (length p) (omega arith)),
      record { takes = All-accept p (length p) sock.room h.takes; enough = enough },
    )

-- One call of `send` takes the whole block.
pub send-TakesBlocks :
    (m n : ℕ) (p : Bytes) (sock : Socket)
    → length p ≡ n
    → n ≤ 2 ^ 31
    → TakesBlocks sock (suc m)
    → ((send p n sock).1.outgoing ≡ sock.outgoing ++ p) × TakesBlocks (send p n sock).1 m
send-TakesBlocks m n p sock e small h =
    subst
      (λ (k : ℕ).
        ((send p k sock).1.outgoing ≡ sock.outgoing ++ p) × TakesBlocks (send p k sock).1 m)
      e (send_whole m p sock (omega arith) h)

pub length-store_offsets : (offsets : List ℕ) → length (store_offsets offsets) ≡ length offsets * 8
unfolding store_offsets
length-store_offsets [] = refl
length-store_offsets (x ∷ offsets) = omega (
  arith,
  length-append (store_le 8 x) (store_offsets offsets),
  length-store_le 8 x,
  length-store_offsets offsets,
)

-- The offsets of a 64-bit size come back from their array.
pub load_offsets-store_offsets :
    (offsets : List ℕ)
    → All (λ x. x < 2 ^ 64) offsets
    → load_offsets (length offsets) (store_offsets offsets) ≡ offsets
unfolding load_offsets store_offsets
load_offsets-store_offsets [] h = refl
load_offsets-store_offsets (x ∷ offsets) h =
    let size = sym (length-store_le 8 x) in
    let tail = store_offsets offsets in
    ap (λ (b : Bytes). load_le b ∷ load_offsets (length offsets) (drop 8 (store_le 8 x ++ tail)))
      (take-append_length (store_le 8 x) tail 8 size)
    ∙ ap (λ (n : ℕ). n ∷ load_offsets (length offsets) (drop 8 (store_le 8 x ++ tail)))
        (load_le-store_le 8 x (omega (arith, h.0)))
    ∙ ap (λ (b : Bytes). x ∷ load_offsets (length offsets) b)
        (drop-append_length (store_le 8 x) tail 8 size)
    ∙ ap (◌∷◌ x) (load_offsets-store_offsets offsets h.1)

-- A size below 2^31 goes through an int.
pub int_size_small : (n : ℕ) → n < 2 ^ 31 → int_size n ≡ n
int_size_small n h = ground arith
