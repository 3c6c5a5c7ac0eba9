-- ===== src/Server/Transfer.antt =====
-- What Read and Write transfer, however the system splits the transfer.
use jackalope.Prelude.{
  ℕ, zero, suc, ◌-◌, ◌^◌, ◌≤◌, ◌<◌, ◌≡◌, ◌≢◌, refl, sym, ap, ◌∙◌, some, List, [], ◌∷◌, ◌++◌, false,
  ◌==◌, length, take, drop, length-append, length-take, length-drop, take-append, drop-append,
  take_min, drop_min, take-append-drop, arith,
}
use jackalope.Prelude.Memory.{Bytes, store_le, load_le, length-store_le, load_le-store_le}
use jackalope.Prelude.Predicates.{All}
use jackalope.Server.Socket.{
  Socket, chunk_of, unread, take_bytes, recv, read_loop, read, recv_sized,
}

abbrev pub joined : List Bytes → Bytes
joined [] = []
joined (segment ∷ rest) = segment ++ joined rest

-- The peer's bytes that are still to be read are `xs`, in segments none of which is empty.
pub record Pending (sock : Socket) (xs : Bytes) : Type 0 where
  pub bytes : joined sock.incoming ≡ xs
  pub full : All (λ segment. segment ≢ []) sock.incoming

joined-unread : (b : Bytes) (rest : List Bytes) → joined (unread b rest) ≡ b ++ joined rest
joined-unread [] rest = refl
joined-unread (x ∷ b) rest = refl

unread-full :
    (b : Bytes) (rest : List Bytes)
    → All (λ segment. segment ≢ []) rest
    → All (λ segment. segment ≢ []) (unread b rest)
unread-full [] rest h = h
unread-full (x ∷ b) rest h = (λ e. ground (arith, e), h)

length_pos : (b : Bytes) → b ≢ [] → 1 ≤ length b
length_pos [] h = absurd (h refl)
length_pos (x ∷ b) h = omega arith

take_bytes-full :
    (n : ℕ) (segments : List Bytes) (xs tail : Bytes)
    → joined segments ≡ xs ++ tail
    → All (λ segment. segment ≢ []) segments
    → 1 ≤ n
    → n ≤ length xs
    → (1 ≤ length (take_bytes n segments).0)
      × (length (take_bytes n segments).0 ≤ n)
      × ((take_bytes n segments).0 ≡ take (length (take_bytes n segments).0) xs)
      × (joined (take_bytes n segments).1 ≡ drop (length (take_bytes n segments).0) xs ++ tail)
      × All (λ segment. segment ≢ []) (take_bytes n segments).1
take_bytes-full n [] xs tail e full h k = absurd (omega (arith, length-append xs tail, ap length e))
take_bytes-full n (b ∷ rest) xs tail e full h k =
    let m = length (take n b) in
    let inside : m ≤ length b = omega (arith, length-take n b) in
    let short : m ≤ length xs = omega (arith, length-take n b) in
    (
      omega (arith, length-take n b, length_pos b full.0),
      omega (arith, length-take n b),
      take_min n b
          ∙ sym (take-append m b (joined rest) inside)
          ∙ ap (take m) e
          ∙ take-append m xs tail short,
      joined-unread (drop n b) rest
          ∙ ap (λ d. d ++ joined rest) (drop_min n b)
          ∙ sym (drop-append m b (joined rest) inside)
          ∙ ap (drop m) e
          ∙ drop-append m xs tail short,
      unread-full (drop n b) rest full.1,
    )

read_loop_none : (fuel : ℕ) (sock : Socket) → read_loop fuel 0 sock ≡ some ([], sock)
unfolding read_loop
read_loop_none fuel sock = refl

read_loop_more :
    (fuel n : ℕ) (sock s : Socket) (ys : Bytes)
    → let r = recv sock (chunk_of (suc n)) in
      1 ≤ length r.0
      → read_loop fuel (suc n - length r.0) r.1 ≡ some (ys, s)
      → read_loop (suc fuel) (suc n) sock ≡ some (r.0 ++ ys, s)
unfolding read_loop
read_loop_more fuel n sock s ys pos rest =
    let more : (length (recv sock (chunk_of (suc n))).0 == 0) ≡ false = ground arith in
    rw (more, rest)

recv-Pending :
    (sock : Socket) (n : ℕ) (xs tail : Bytes)
    → Pending sock (xs ++ tail)
    → 1 ≤ n
    → n ≤ length xs
    → let r = recv sock n in
      (1 ≤ length r.0)
      × (length r.0 ≤ n)
      × (r.0 ≡ take (length r.0) xs)
      × Pending r.1 (drop (length r.0) xs ++ tail)
      × (r.1.outgoing ≡ sock.outgoing)
unfolding recv
recv-Pending sock n xs tail p h k =
    let (some_bytes, at_most, these, left, full) =
      take_bytes-full n sock.incoming xs tail p.bytes p.full h k in
    (some_bytes, at_most, these, record { bytes = left; full = full }, refl)

-- The loop of Read gets the `n` bytes that come first, in whatever pieces they come.
read_loop-Pending :
    (fuel n : ℕ) (sock : Socket) (xs tail : Bytes)
    → Pending sock (xs ++ tail)
    → length xs ≡ n
    → n ≤ fuel
    → (s : Socket) × (read_loop fuel n sock ≡ some (xs, s))
      × Pending s tail
      × (s.outgoing ≡ sock.outgoing)
read_loop-Pending fuel zero sock [] tail p e f = (sock, read_loop_none fuel sock, p, refl)
read_loop-Pending fuel zero sock (x ∷ xs) tail p e f = absurd (omega arith)
read_loop-Pending zero (suc n) sock xs tail p e f = absurd (omega arith)
read_loop-Pending (suc fuel) (suc n) sock xs tail p e f =
    let (some_bytes, at_most, these, next, same) =
      recv-Pending sock (chunk_of (suc n)) xs tail p (ground arith) (ground arith) in
    let k = length (recv sock (chunk_of (suc n))).0 in
    let (s, r, q, o) =
      read_loop-Pending fuel (suc n - k) (recv sock (chunk_of (suc n))).1 (drop k xs) tail next
        (omega (arith, length-drop k xs)) (omega arith) in
    (
      s,
      read_loop_more fuel n sock s (drop k xs) some_bytes r
          ∙ ap (λ b. some (b, s)) (ap (λ b. b ++ drop k xs) these ∙ take-append-drop k xs),
      q,
      o ∙ same,
    )

-- Read gets the bytes that the peer sent first, in whatever pieces they come.
pub read-Pending :
    (sock : Socket) (xs tail : Bytes) (n : ℕ)
    → Pending sock (xs ++ tail)
    → length xs ≡ n
    → (s : Socket) × (read n sock ≡ some (xs, s)) × Pending s tail × (s.outgoing ≡ sock.outgoing)
unfolding read
read-Pending sock xs tail n p e = read_loop-Pending n n sock xs tail p e (omega arith)

-- RecvString and RecvSample get the bytes that are ahead with their size.
pub recv_sized-Pending :
    (sock : Socket) (xs tail : Bytes)
    → length xs < 2 ^ 64
    → Pending sock (store_le 8 (length xs) ++ (xs ++ tail))
    → (s : Socket) × (recv_sized sock ≡ some (xs, s))
      × Pending s tail
      × (s.outgoing ≡ sock.outgoing)
unfolding recv_sized
recv_sized-Pending sock xs tail h p =
    let (s1, r1, p1, o1) =
      read-Pending sock (store_le 8 (length xs)) (xs ++ tail) 8 p (length-store_le 8 (length xs)) in
    let size = load_le-store_le 8 (length xs) (omega arith) in
    let (s2, r2, p2, o2) =
      read-Pending s1 xs tail (load_le (store_le 8 (length xs))) p1 (sym size) in
    (s2, rw (r1, r2) refl, p2, o2 ∙ o1)
