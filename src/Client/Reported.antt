-- ===== src/Client/Reported.antt =====
-- ReportNewCoverage at both ends: what a client reports is what the server enters.
use jackalope.Prelude.{
  ℕ, zero, suc, ◌+◌, ◌^◌, ◌≤◌, ◌≡◌, refl, sym, ap, subst, ◌∙◌, some, List, [], ◌∷◌, ◌++◌, Bool,
  true, false, ◌&&◌, ◌||◌, not, length, append_assoc, length-append, not_both, arith, Bool-cases,
  inl, inr,
}
use jackalope.Prelude.Memory.{Bytes, load_le, store_le, length-store_le}
use jackalope.Prelude.Predicates.{All}
use jackalope.Sample.{Sample, content, IsValid}
use jackalope.Coverage.{CoverageOps}
use jackalope.Server.Socket.{Socket, read, send_sample}
use jackalope.Server.Transfer.{Pending, read-Pending}
use jackalope.Server.Updates.{ServerState, send_samples, enter_report, send_command}
use jackalope.Server.Wire.{CoverageWire, send_coverage, send_modules, among}
use jackalope.Server.Wire.Blocks.{TakesBlocks, TakesBlocks-Ready}
use jackalope.Server.Wire.RoundTrip.{
  Fits, calls, wire_modules, send_modules-TakesBlocks, TakesBlocks-cast, recv_coverage-Pending,
}
use jackalope.Server.Wire.Room.{read-room}
use jackalope.Server.ServeReport.{
  recv_reported, ask_report, finish_report, serve_report, enter_report_new, has_new_coverage_new,
  send_command-Pending,
}
use jackalope.Client.{recv_updates}
use jackalope.Client.Sync.{send_samples-Ready, IsSendable, received, recv_updates-Pending, wire}
use jackalope.Client.Report.{send_new_sample, after_reply, send_report}

-- The server reads samples the way the client does.
recv_reported-recv_updates :
    (fuel : ℕ) (sock : Socket) → recv_reported fuel sock ≡ recv_updates fuel sock
unfolding recv_reported recv_updates
recv_reported-recv_updates zero sock = refl
recv_reported-recv_updates (suc fuel) sock = refl

send_samples-send_new_sample :
    (sample : Sample) (sock : Socket)
    → (send_samples (sample ∷ []) sock).1 ≡ send_new_sample (some sample) sock
unfolding send_samples send_new_sample
send_samples-send_new_sample sample sock =
    elim (Bool-cases (send_sample sample (send_command b'S' sock)).0) [
      | inl e ↦ rw e refl
      | inr e ↦ rw e refl
    ]

length-wire_one :
    (sample : Sample) → IsValid sample → length (wire (sample ∷ [])) ≡ 10 + sample.size
length-wire_one sample valid = omega (
  arith,
  valid,
  length-append (store_le 8 sample.size ++ content sample) (b'N' ∷ []),
  length-append (store_le 8 sample.size) (content sample),
  length-store_le 8 sample.size,
)

-- What the client sends after a `Y`.
send_new_sample-TakesBlocks :
    (sample : Sample) (sock : Socket)
    → IsSendable sample
    → TakesBlocks sock (10 + sample.size)
    → (send_command b'N' (send_new_sample (some sample) sock)).outgoing
      ≡ sock.outgoing ++ wire (sample ∷ [])
send_new_sample-TakesBlocks sample sock ok h =
    let ready = TakesBlocks-Ready sock (length (wire (sample ∷ [])) + 0) (
      TakesBlocks-cast sock (10 + sample.size) (length (wire (sample ∷ [])) + 0)
        (omega (arith, length-wire_one sample ok.0)) h) in
    let (s, e, out, left) = send_samples-Ready 0 (sample ∷ []) sock (ok, tt) ready in
    subst (λ (k : Socket). (send_command b'N' k).outgoing ≡ sock.outgoing ++ wire (sample ∷ []))
      (ap (λ (r : Bool × Socket). r.1) (sym e) ∙ send_samples-send_new_sample sample sock) out

module _ {Coverage : Type 0} (ops : CoverageOps Coverage) (w : CoverageWire ops) where
  -- All that the client sends when the answer is a `Y`, and its return value.
  send_report-TakesBlocks :
      (coverage : Coverage) (sample : Sample) (sock : Socket) (rest : Bytes)
      → All Fits (w.modules coverage)
      → IsSendable sample
      → TakesBlocks sock (calls (w.modules coverage) + (10 + sample.size))
      → Pending (send_coverage w coverage sock) (b'Y' ∷ rest)
      → ((send_report w coverage (some sample) sock).0 ≡ true)
        × ((send_report w coverage (some sample) sock).1.outgoing
            ≡ sock.outgoing ++ (wire_modules (w.modules coverage) ++ wire (sample ∷ [])))
  unfolding send_report after_reply send_coverage load_le
  send_report-TakesBlocks coverage sample sock rest f ok h p =
      let modules = w.modules coverage in
      let (out, left) = send_modules-TakesBlocks modules (10 + sample.size) sock f h in
      let s1 = send_modules modules sock in
      let (s2, r, q, same) = read-Pending s1 (b'Y' ∷ []) rest 1 p refl in
      let kept : TakesBlocks s2 (10 + sample.size) = record {
        takes = subst (All (λ (k : ℕ). 2 ^ 31 ≤ k)) (sym (read-room 1 s1 r)) left.takes;
        enough =
            subst (λ (k : List ℕ). 10 + sample.size ≤ length k) (sym (read-room 1 s1 r))
              left.enough;
      } in
      let sent : (after_reply (some sample) s1 (read 1 s1))
          ≡ (true, send_command b'N' (send_new_sample (some sample) s2)) =
        rw r refl in
      (
        ap (λ (k : Bool × Socket). k.0) sent,
        ap (λ (k : Bool × Socket). k.1.outgoing) sent
            ∙ send_new_sample-TakesBlocks sample s2 ok kept
            ∙ ap (λ b. b ++ wire (sample ∷ [])) (same ∙ out)
            ∙ append_assoc sock.outgoing (wire_modules modules) (wire (sample ∷ [])),
      )

  -- The server's side of it.
  serve_report-Pending :
      (modules : List (Bytes × List ℕ)) (sample : Sample) (s later : ServerState Coverage)
      (peer : Socket) (tail m : Bytes) (x : ℕ)
      → All Fits modules
      → IsSendable sample
      → Pending peer ((wire_modules modules ++ wire (sample ∷ [])) ++ tail)
      → among w.same_module m x modules ≡ true
      → ops.has s.total_coverage m x ≡ false
      → (c : Coverage) × (peer' : Socket) × (serve_report w (suc (length modules)) 2 s later peer
          ≡ some (
            enter_report ops
                (ops.coverage_difference s.total_coverage c)
                (received sample ∷ [])
                later,
            peer',
          ))
        × ((n : Bytes) (y : ℕ) → ops.has c n y ≡ among w.same_module n y modules)
        × Pending peer' tail
  unfolding serve_report ask_report finish_report
  serve_report-Pending modules sample s later peer tail m x f ok p new old =
      let (c, s1, r, has, q) =
        recv_coverage-Pending ops w modules ops.none_covered peer (wire (sample ∷ []) ++ tail) f (
          subst (Pending peer) (append_assoc (wire_modules modules) (wire (sample ∷ [])) tail) p) in
      let exact = λ (n : Bytes) (y : ℕ).
        (has n y
          ∙ ap (λ (b : Bool). b || among w.same_module n y modules) (ops.has-none_covered n y)) in
      let yes = has_new_coverage_new ops s c m x (exact m x ∙ new) old in
      let (s2, r2, q2) =
        recv_updates-Pending 2 (sample ∷ []) (send_command b'Y' s1) tail (ok, tt) (omega arith)
          (send_command-Pending b'Y' s1 (wire (sample ∷ []) ++ tail) q) in
      let got = recv_reported-recv_updates 2 (send_command b'Y' s1) ∙ r2 in
      (c, s2, rw (r, yes, got) refl, exact, q2)

  -- What the server has after it has entered what it did not have.
  has-entered :
      (s later : ServerState Coverage) (total c : Coverage) (n : Bytes) (y : ℕ)
      → (ops.has s.total_coverage n y ≡ true → ops.has later.total_coverage n y ≡ true)
      → total
        ≡ ops.merge_coverage later.total_coverage (
            ops.coverage_difference later.total_coverage
              (ops.coverage_difference s.total_coverage c))
      → ops.has total n y ≡ ops.has later.total_coverage n y || ops.has c n y
  has-entered s later total c n y grows e =
      let new = ops.coverage_difference s.total_coverage c in
      let added = ops.coverage_difference later.total_coverage new in
      ap (λ (k : Coverage). ops.has k n y) e
      ∙ ops.has-merge later.total_coverage added n y
      ∙ ap (λ (b : Bool). ops.has later.total_coverage n y || b)
          (ops.has-difference later.total_coverage new n y
            ∙ ap (λ (b : Bool). b && not (ops.has later.total_coverage n y))
                (ops.has-difference s.total_coverage c n y))
      ∙ elim (Bool-cases (ops.has s.total_coverage n y)) [
        | inl h ↦ rw (h, grows h) refl
        | inr h ↦ rw h (ground arith)
      ]

  -- A client reports a coverage and a sample over a fresh connection on which each call of `send`
  -- takes all it is given, and the server, whose coverage may grow between its two locks, still lacks
  -- one of the offsets under the second. Names, offsets and the sample have 64-bit sizes and
  -- each module's offsets fill less than 2^31 bytes. Then, if the client gets its `Y`,
  -- ReportNewCoverage returns 1 at both ends, the server puts exactly the client's sample behind
  -- its corpus, raises its time by one, and has exactly the offsets that it or the client had.
  pub serve_report-send_report :
      (coverage : Coverage) (sample : Sample) (s later : ServerState Coverage) (sock peer : Socket)
      (rest tail m : Bytes) (x : ℕ)
      → All Fits (w.modules coverage)
      → IsSendable sample
      → sock.outgoing ≡ []
      → TakesBlocks sock (calls (w.modules coverage) + (10 + sample.size))
      → Pending (send_coverage w coverage sock) (b'Y' ∷ rest)
      → Pending peer ((send_report w coverage (some sample) sock).1.outgoing ++ tail)
      → ((n : Bytes) (y : ℕ)
          → ops.has s.total_coverage n y ≡ true
          → ops.has later.total_coverage n y ≡ true)
      → ops.has coverage m x ≡ true
      → ops.has later.total_coverage m x ≡ false
      → ((send_report w coverage (some sample) sock).0 ≡ true)
        × (s' : ServerState Coverage) × (peer' : Socket) × (serve_report w
              (suc (length (w.modules coverage)))
              2
              s
              later
              peer
            ≡ some (s', peer'))
        × (s'.corpus.samples ≡ later.corpus.samples ++ (received sample ∷ []))
        × (s'.server_timestamp ≡ suc later.server_timestamp)
        × ((n : Bytes) (y : ℕ)
            → ops.has s'.total_coverage n y
              ≡ ops.has later.total_coverage n y || ops.has coverage n y)
        × Pending peer' tail
  serve_report-send_report coverage sample s later sock peer rest tail m x f ok fresh h y p grows
        new old =
      let modules = w.modules coverage in
      let (returns, out) = send_report-TakesBlocks coverage sample sock rest f ok h y in
      let sent = out ∙ ap (λ b. b ++ (wire_modules modules ++ wire (sample ∷ []))) fresh in
      let lacked : ops.has s.total_coverage m x ≡ false =
        elim (Bool-cases (ops.has s.total_coverage m x)) [
          | inl e ↦ absurd (not_both (grows m x e) old)
          | inr e ↦ e
        ] in
      let (c, peer', r, exact, q) =
        serve_report-Pending modules sample s later peer tail m x f ok
          (subst (λ b. Pending peer (b ++ tail)) sent p) (sym (w.has-modules coverage m x) ∙ new)
          lacked in
      let same = λ (n : Bytes) (k : ℕ). (exact n k ∙ sym (w.has-modules coverage n k)) in
      let difference = ops.coverage_difference s.total_coverage c in
      let is_new : ops.has difference m x ≡ true =
        ops.has-difference s.total_coverage c m x ∙ rw (same m x, new, lacked) refl in
      let s' = enter_report ops difference (received sample ∷ []) later in
      let (samples, time, total) =
        enter_report_new ops later difference (received sample) m x is_new old in
      (
        returns,
        s',
        peer',
        r,
        samples,
        time,
        (λ n k.
            has-entered s later s'.total_coverage c n k (grows n k) total
            ∙ ap (λ (b : Bool). ops.has later.total_coverage n k || b) (same n k)),
        q,
      )
