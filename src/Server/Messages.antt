-- ===== src/Server/Messages.antt =====
-- Samples and strings over the connection: what one side sends is what the other side gets.
use jackalope.Prelude.{
  ℕ, zero, suc, ◌+◌, ◌-◌, ◌^◌, ◌≤◌, ◌<◌, ◌≡◌, refl, sym, ap, subst, ◌∙◌, some, List, [], ◌∷◌, ◌++◌,
  Bool, true, false, ◌==◌, length, take, drop, length-take, length-drop, append_assoc, append-nil,
  take_all, take-append-drop, arith,
}
use jackalope.Prelude.Memory.{Bytes, store_le, length-store_le}
use jackalope.Prelude.Predicates.{All}
use jackalope.Sample.{Sample, content, init, IsValid}
use jackalope.Sample.Contents.{init_lem}
use jackalope.Server.Socket.{
  Socket, chunk_of, accept, send, write_loop, write, send_sized, send_sample, recv_sample,
}
use jackalope.Server.Transfer.{Pending, recv_sized-Pending}

-- `send` takes a byte at least in each of its next `n` calls.
pub record Ready (sock : Socket) (n : ℕ) : Type 0 where
  pub takes : All (λ r. 1 ≤ r) sock.room
  pub enough : n ≤ length sock.room

accept-Ready :
    (p : Bytes) (n m : ℕ) (room : List ℕ)
    → All (λ r. 1 ≤ r) room
    → suc m ≤ length room
    → 1 ≤ n
    → n ≤ length p
    → (1 ≤ (accept p n room).0)
      × ((accept p n room).0 ≤ n)
      × All (λ r. 1 ≤ r) (accept p n room).1
      × (m ≤ length (accept p n room).1)
accept-Ready p n m [] all enough one inside = absurd (omega arith)
accept-Ready p n m (r ∷ room) all enough one inside = (
  omega (arith, length-take r (take n p), length-take n p, all.0),
  omega (arith, length-take r (take n p), length-take n p),
  all.1,
  omega arith,
)

pub send-Ready :
    (p : Bytes) (n m : ℕ) (sock : Socket)
    → Ready sock (suc m)
    → 1 ≤ n
    → n ≤ length p
    → let s = send p n sock in
      (1 ≤ s.0) × (s.0 ≤ n) × (s.1.outgoing ≡ sock.outgoing ++ take s.0 p) × Ready s.1 m
unfolding send
send-Ready p n m sock h one inside =
    let (some_bytes, at_most, takes, enough) =
      accept-Ready p n m sock.room h.takes h.enough one inside in
    (some_bytes, at_most, refl, record { takes = takes; enough = enough })

write_loop_none : (fuel : ℕ) (p : Bytes) (sock : Socket) → write_loop fuel p 0 sock ≡ (true, sock)
unfolding write_loop
write_loop_none fuel p sock = refl

write_loop_more :
    (fuel : ℕ) (p : Bytes) (n : ℕ) (sock : Socket)
    → let s = send p (chunk_of (suc n)) sock in
      1 ≤ s.0
      → write_loop (suc fuel) p (suc n) sock ≡ write_loop fuel (drop s.0 p) (suc n - s.0) s.1
unfolding write_loop
write_loop_more fuel p n sock pos =
    let more : ((send p (chunk_of (suc n)) sock).0 == 0) ≡ false = ground arith in rw more

pub Ready-le : (sock : Socket) (n m : ℕ) → m ≤ n → Ready sock n → Ready sock m
Ready-le sock n m le h = record { takes = h.takes; enough = omega (arith, h.enough) }

-- Where `send` goes on taking bytes, the loop of Write sends them all.
write_loop-Ready :
    (fuel n m : ℕ) (p : Bytes) (sock : Socket)
    → length p ≡ n
    → n ≤ fuel
    → Ready sock (n + m)
    → (s : Socket) × (write_loop fuel p n sock ≡ (true, s))
      × (s.outgoing ≡ sock.outgoing ++ p)
      × Ready s m
write_loop-Ready fuel zero m [] sock e f h = (
  sock,
  write_loop_none fuel [] sock,
  sym (append-nil sock.outgoing),
  Ready-le sock (0 + m) m (omega arith) h,
)
write_loop-Ready fuel zero m (x ∷ p) sock e f h = absurd (omega arith)
write_loop-Ready zero (suc n) m p sock e f h = absurd (omega arith)
write_loop-Ready (suc fuel) (suc n) m p sock e f h =
    let (some_bytes, at_most, out, ready) =
      send-Ready p (chunk_of (suc n)) (n + m) sock
        (Ready-le sock (suc n + m) (suc (n + m)) (omega arith) h) (ground arith) (ground arith) in
    let s1 = send p (chunk_of (suc n)) sock in
    let (s, r, o, q) =
      write_loop-Ready fuel (suc n - s1.0) m (drop s1.0 p) s1.1 (omega (arith, length-drop s1.0 p))
        (omega arith) (Ready-le s1.1 (n + m) (suc n - s1.0 + m) (ground arith) ready) in
    (
      s,
      write_loop_more fuel p n sock some_bytes ∙ r,
      o
          ∙ ap (λ b. b ++ drop s1.0 p) out
          ∙ append_assoc sock.outgoing (take s1.0 p) (drop s1.0 p)
          ∙ ap (λ b. sock.outgoing ++ b) (take-append-drop s1.0 p),
      q,
    )

pub write-Ready :
    (m : ℕ) (p : Bytes) (sock : Socket)
    → Ready sock (length p + m)
    → (s : Socket) × (write p sock ≡ (true, s)) × (s.outgoing ≡ sock.outgoing ++ p) × Ready s m
unfolding write
write-Ready m p sock h = write_loop-Ready (length p) (length p) m p sock refl (omega arith) h

-- The sender of a string or a sample: its size and its bytes go out.
pub send_sized-Ready :
    (m : ℕ) (p : Bytes) (sock : Socket)
    → Ready sock (8 + length p + m)
    → ((send_sized p sock).1.outgoing ≡ sock.outgoing ++ (store_le 8 (length p) ++ p))
      × Ready (send_sized p sock).1 m
unfolding send_sized
send_sized-Ready m p sock h =
    let header = store_le 8 (length p) in
    let (s1, r1, o1, q1) = write-Ready (length p + m) header sock (
      Ready-le sock (8 + length p + m) (length header + (length p + m))
        (omega (arith, length-store_le 8 (length p))) h) in
    let (s2, r2, o2, q2) = write-Ready m p s1 q1 in
    let e : write p (write header sock).1 ≡ (true, s2) =
      ap (λ (w : Bool × Socket). write p w.1) r1 ∙ r2 in
    (
      ap (λ (w : Bool × Socket). w.1.outgoing) e
          ∙ o2
          ∙ ap (λ b. b ++ p) o1
          ∙ append_assoc sock.outgoing header p,
      subst (λ (w : Bool × Socket). Ready w.1 m) (sym e) q2,
    )

-- The same for a valid sample.
pub send_sample-Ready :
    (m : ℕ) (sample : Sample) (sock : Socket)
    → IsValid sample
    → Ready sock (8 + sample.size + m)
    → ((send_sample sample sock).1.outgoing
        ≡ sock.outgoing ++ (store_le 8 sample.size ++ content sample))
      × Ready (send_sample sample sock).1 m
unfolding send_sample
send_sample-Ready m sample sock valid ready =
    let whole = take_all (content sample) sample.size (omega arith) in
    subst
      (λ b.
        ((send_sized b sock).1.outgoing
          ≡ sock.outgoing ++ (store_le 8 sample.size ++ content sample))
        × Ready (send_sized b sock).1 m)
      (sym whole)
      (subst
        (λ n.
          ((send_sized (content sample) sock).1.outgoing
            ≡ sock.outgoing ++ (store_le 8 n ++ content sample))
          × Ready (send_sized (content sample) sock).1 m)
        valid
        (send_sized-Ready m (content sample) sock
          (subst (λ n. Ready sock (8 + n + m)) (sym valid) ready)))

-- RecvSample where a sample is ahead.
pub recv_sample-Pending :
    (sample into : Sample) (peer : Socket) (tail : Bytes)
    → IsValid sample
    → sample.size < 2 ^ 64
    → Pending peer (store_le 8 sample.size ++ (content sample ++ tail))
    → (peer' : Socket) × (recv_sample into peer
        ≡ some (record into { bytes = some (content sample); size = sample.size }, peer'))
      × Pending peer' tail
unfolding recv_sample
recv_sample-Pending sample into peer tail valid small p =
    let bytes = content sample in
    let (peer', r, q, o) =
      recv_sized-Pending peer bytes tail (omega arith)
        (subst (λ n. Pending peer (store_le 8 n ++ (bytes ++ tail))) (sym valid) p) in
    let copy : init into bytes (length bytes)
        ≡ some (record into { bytes = some bytes; size = sample.size }) =
      init_lem into bytes (length bytes) (omega arith)
      ∙ ap (λ b. some (record into { bytes = some b; size = length bytes }))
          (take_all bytes (length bytes) (omega arith))
      ∙ ap (λ n. some (record into { bytes = some bytes; size = n })) valid in
    (peer', rw (r, copy) refl, q)

-- A valid sample that SendSample sends over a fresh connection, on which `send` goes on taking
-- bytes, arrives whole at the peer's RecvSample, in whatever pieces both ends transfer it; the
-- bytes behind it stay for the next message.
pub recv_sample-send_sample :
    (sample into : Sample) (sock peer : Socket) (tail : Bytes)
    → IsValid sample
    → sample.size < 2 ^ 64
    → sock.outgoing ≡ []
    → Ready sock (8 + sample.size)
    → Pending peer ((send_sample sample sock).1.outgoing ++ tail)
    → (s : Sample) × (peer' : Socket) × (recv_sample into peer ≡ some (s, peer'))
      × (content s ≡ content sample)
      × IsValid s
      × Pending peer' tail
recv_sample-send_sample sample into sock peer tail valid small fresh ready p =
    let (out, _) =
      send_sample-Ready 0 sample sock valid
        (Ready-le sock (8 + sample.size) (8 + sample.size + 0) (omega arith) ready) in
    let sent : (send_sample sample sock).1.outgoing ++ tail
        ≡ store_le 8 sample.size ++ (content sample ++ tail) =
      ap (λ b. b ++ tail) (out ∙ ap (λ b. b ++ (store_le 8 sample.size ++ content sample)) fresh)
      ∙ append_assoc (store_le 8 sample.size) (content sample) tail in
    let (peer', r, q) =
      recv_sample-Pending sample into peer tail valid small (subst (Pending peer) sent p) in
    (record into { bytes = some (content sample); size = sample.size }, peer', r, refl, valid, q)
