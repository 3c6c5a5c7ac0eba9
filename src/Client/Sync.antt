-- ===== src/Client/Sync.antt =====
-- An update from the server to a client: what the server has sent is what the client adds.
use jackalope.Prelude.{
  ℕ, zero, suc, ◌+◌, ◌^◌, ◌<◌, ◌≡◌, refl, sym, ap, subst, ◌∙◌, some, List, [], ◌∷◌, ◌++◌, map, true,
  length, take, length-append, append_assoc, append-nil, arith,
}
use jackalope.Prelude.Memory.{Bytes, store_le, load_le, length-store_le, load_le-store_le}
use jackalope.Prelude.Predicates.{All}
use jackalope.Sample.{Sample, new_sample, content, IsValid, done}
use jackalope.Server.Socket.{Socket, read, send, send_sample, recv_sample}
use jackalope.Server.Transfer.{joined, Pending, read-Pending}
use jackalope.Server.Messages.{
  Ready, Ready-le, send-Ready, write-Ready, send_sample-Ready, recv_sample-Pending,
}
use jackalope.Server.Updates.{send_command, send_samples, reply}
use jackalope.Client.{CoverageClient, recv_updates, get_updates}

-- A sample that can be sent.
abbrev pub IsSendable : Sample → Type 0
IsSendable s = IsValid s × (s.size < 2 ^ 64)

-- The client's copy of a sample.
abbrev pub received : Sample → Sample
received s = record { bytes = some (content s); size = s.size; filename = [] }

-- The bytes of the samples and the final `N`.
abbrev pub wire : List Sample → Bytes
wire [] = b'N' ∷ []
wire (s ∷ samples) = (b'S' ∷ []) ++ ((store_le 8 s.size ++ content s) ++ wire samples)

pub send_command-Ready :
    (c m : ℕ) (sock : Socket)
    → Ready sock (suc m)
    → ((send_command c sock).outgoing ≡ sock.outgoing ++ (c ∷ [])) × Ready (send_command c sock) m
unfolding send_command
send_command-Ready c m sock h =
    let (some_bytes, at_most, out, ready) =
      send-Ready (c ∷ []) 1 m sock h (omega arith) (omega arith) in
    let one : (send (c ∷ []) 1 sock).0 ≡ 1 = omega arith in
    (out ∙ ap (λ k. sock.outgoing ++ take k (c ∷ [])) one, ready)

-- The server sends these bytes.
pub send_samples-Ready :
    (m : ℕ) (samples : List Sample) (sock : Socket)
    → All IsSendable samples
    → Ready sock (length (wire samples) + m)
    → (s : Socket) × (send_samples samples sock ≡ (true, s))
      × ((send_command b'N' s).outgoing ≡ sock.outgoing ++ wire samples)
      × Ready (send_command b'N' s) m
unfolding send_samples send_sample
send_samples-Ready m [] sock h ready =
    let (out, rest) =
      send_command-Ready b'N' m sock (Ready-le sock (1 + m) (suc m) (omega arith) ready) in
    (sock, refl, out, rest)
send_samples-Ready m (x ∷ xs) sock h ready =
    let block = store_le 8 x.size ++ content x in
    let (o1, r1) = send_command-Ready b'S' (length (block ++ wire xs) + m) sock (
      Ready-le sock (length (wire (x ∷ xs)) + m) (suc (length (block ++ wire xs) + m)) (omega arith)
        ready) in
    let (o2, r2) = send_sample-Ready (length (wire xs) + m) x (send_command b'S' sock) h.0.0 (
      subst (Ready (send_command b'S' sock))
        (omega (
          arith,
          length-append block (wire xs),
          length-append (store_le 8 x.size) (content x),
          length-store_le 8 x.size,
          h.0.0,
        ))
        r1) in
    let s2 = (send_sample x (send_command b'S' sock)).1 in
    let (s, e, o3, r3) = send_samples-Ready m xs s2 h.1 r2 in
    (
      s,
      e,
      o3
          ∙ ap (λ b. b ++ wire xs) (o2 ∙ ap (λ b. b ++ block) o1)
          ∙ append_assoc (sock.outgoing ++ (b'S' ∷ [])) block (wire xs)
          ∙ append_assoc sock.outgoing (b'S' ∷ []) (block ++ wire xs),
      r3,
    )

-- The server sends its time and the samples.
reply-Ready :
    (now : ℕ) (samples : List Sample) (sock : Socket)
    → All IsSendable samples
    → Ready sock (8 + length (wire samples))
    → (s : Socket) × (reply now (done samples) sock ≡ done (true, s))
      × (s.outgoing ≡ sock.outgoing ++ (store_le 8 now ++ wire samples))
unfolding reply
reply-Ready now samples sock h ready =
    let (s1, e1, o1, r1) =
      write-Ready (length (wire samples) + 0) (store_le 8 now) sock
        (subst (Ready sock) (omega (arith, length-store_le 8 now)) ready) in
    let (s2, e2, o2, r2) = send_samples-Ready 0 samples s1 h r1 in
    (
      send_command b'N' s2,
      rw (e1, e2) refl,
      o2
          ∙ ap (λ b. b ++ wire samples) o1
          ∙ append_assoc sock.outgoing (store_le 8 now) (wire samples),
    )

recv_updates_end :
    (fuel : ℕ) (peer s : Socket)
    → read 1 peer ≡ some (b'N' ∷ [], s)
    → recv_updates (suc fuel) peer ≡ some ([], s)
unfolding recv_updates load_le
recv_updates_end fuel peer s e = rw e refl

recv_updates_sample :
    (fuel : ℕ) (peer s1 s2 s3 : Socket) (x : Sample) (xs : List Sample)
    → read 1 peer ≡ some (b'S' ∷ [], s1)
    → recv_sample new_sample s1 ≡ some (x, s2)
    → recv_updates fuel s2 ≡ some (xs, s3)
    → recv_updates (suc fuel) peer ≡ some (x ∷ xs, s3)
unfolding recv_updates load_le
recv_updates_sample fuel peer s1 s2 s3 x xs e1 e2 e3 = rw (e1, e2, e3) refl

-- The client gets these samples, and needs one message more than there are samples.
pub recv_updates-Pending :
    (fuel : ℕ) (samples : List Sample) (peer : Socket) (tail : Bytes)
    → All IsSendable samples
    → length samples < fuel
    → Pending peer (wire samples ++ tail)
    → (s : Socket) × (recv_updates fuel peer ≡ some (map received samples, s)) × Pending s tail
recv_updates-Pending zero samples peer tail h f p = absurd (omega arith)
recv_updates-Pending (suc fuel) [] peer tail h f p =
    let (s, e, q, o) = read-Pending peer (b'N' ∷ []) tail 1 p refl in
    (s, recv_updates_end fuel peer s e, q)
recv_updates-Pending (suc fuel) (x ∷ xs) peer tail h f p =
    let block = store_le 8 x.size ++ content x in
    let split : wire (x ∷ xs) ++ tail
        ≡ (b'S' ∷ []) ++ (store_le 8 x.size ++ (content x ++ (wire xs ++ tail))) =
      ap (λ b. b'S' ∷ b)
        (append_assoc block (wire xs) tail
          ∙ append_assoc (store_le 8 x.size) (content x) (wire xs ++ tail)) in
    let (s1, e1, q1, o1) =
      read-Pending peer (b'S' ∷ []) (store_le 8 x.size ++ (content x ++ (wire xs ++ tail))) 1
        (subst (Pending peer) split p) refl in
    let (s2, e2, q2) = recv_sample-Pending x new_sample s1 (wire xs ++ tail) h.0.0 h.0.1 q1 in
    let (s3, e3, q3) = recv_updates-Pending fuel xs s2 tail h.1 (omega arith) q2 in
    (s3, recv_updates_sample fuel peer s1 s2 s3 (received x) (map received xs) e1 e2 e3, q3)

-- What the server replies with over a fresh connection, on which `send` goes on taking bytes, is
-- what GetUpdates adds, however the bytes are split on their way: the samples in their order, and
-- the server's time as the client's last timestamp. They are valid samples that a 64-bit size
-- can measure.
pub get_updates-reply :
    (client : CoverageClient) (now : ℕ) (samples : List Sample) (sock peer : Socket)
    → now < 2 ^ 64
    → All IsSendable samples
    → sock.outgoing ≡ []
    → Ready sock (8 + length (wire samples))
    → Pending peer (store_le 8 now ++ wire samples)
    → (s : Socket) × (reply now (done samples) sock ≡ done (true, s))
      × (s.outgoing ≡ joined peer.incoming)
      × (get_updates (suc (length samples)) client peer
          ≡ some (map received samples, record client { last_timestamp = now }))
unfolding get_updates
get_updates-reply client now samples sock peer small h fresh ready p =
    let (s, e, out) = reply-Ready now samples sock h ready in
    let (s1, e1, q1, o1) =
      read-Pending peer (store_le 8 now) (wire samples) 8 p (length-store_le 8 now) in
    let (s2, e2, q2) =
      recv_updates-Pending (suc (length samples)) samples s1 [] h (omega arith)
        (subst (Pending s1) (sym (append-nil (wire samples))) q1) in
    (
      s,
      e,
      out ∙ ap (λ b. b ++ (store_le 8 now ++ wire samples)) fresh ∙ sym p.bytes,
      rw (e1, e2)
          (ap (λ n. some (map received samples, record client { last_timestamp = n }))
            (load_le-store_le 8 now (omega arith))),
    )
