-- ===== src/Server/Wire/RoundTrip.antt =====
-- A coverage over the connection: what SendCoverage sends is what RecvCoverage gets.
use jackalope.Prelude.{
  ℕ, suc, ◌+◌, ◌-◌, ◌*◌, ◌/◌, ◌^◌, ◌<◌, ◌≡◌, refl, sym, ap, ◌∙◌, some, List, [], ◌∷◌, ◌++◌, false,
  ◌||◌, ltb, length, append_assoc, arith, subst,
}
use jackalope.Prelude.Memory.{Bytes, store_le, load_le, length-store_le, load_le-store_le}
use jackalope.Prelude.Predicates.{All}
use jackalope.Coverage.{CoverageOps}
use jackalope.Server.Socket.{Socket, send, send_sized, recv_string}
use jackalope.Server.Transfer.{Pending, read-Pending, recv_sized-Pending}
use jackalope.Server.Updates.{send_command}
use jackalope.Server.Wire.{
  CoverageWire, store_offsets, load_offsets, int_size, send_module, send_modules, send_coverage,
  recv_module, recv_coverage, among,
}
use jackalope.Server.Wire.Blocks.{
  TakesBlocks, send_sized-TakesBlocks, send-TakesBlocks, length-store_offsets,
  load_offsets-store_offsets, int_size_small,
}

-- A module whose name and offsets have 64-bit sizes and whose offsets fill less than 2^31 bytes.
pub record Fits (m : Bytes × List ℕ) : Type 0 where
  pub name_size : length m.0 < 2 ^ 64
  pub offset_sizes : All (λ x. x < 2 ^ 64) m.1
  pub block_size : length m.1 * 8 < 2 ^ 31

-- What one module is on the wire, behind its command.
abbrev pub wire_module : Bytes × List ℕ → Bytes
wire_module (module_name, offsets) =
    store_le 8 (length module_name)
    ++ (module_name ++ (store_le 8 (length offsets) ++ store_offsets offsets))

abbrev pub wire_modules : List (Bytes × List ℕ) → Bytes
wire_modules [] = b'N' ∷ []
wire_modules (m ∷ modules) = b'C' ∷ (wire_module m ++ wire_modules modules)

-- How many calls of `send` are enough for modules.
abbrev pub calls : List (Bytes × List ℕ) → ℕ
calls [] = 1
calls ((module_name, offsets) ∷ modules) = 11 + length module_name + calls modules

pub send_command-TakesBlocks :
    (command m : ℕ) (sock : Socket)
    → TakesBlocks sock (suc m)
    → ((send_command command sock).outgoing ≡ sock.outgoing ++ (command ∷ []))
      × TakesBlocks (send_command command sock) m
unfolding send_command
send_command-TakesBlocks command m sock h =
    send-TakesBlocks m 1 (command ∷ []) sock refl (omega arith) h

pub TakesBlocks-cast : (sock : Socket) (n m : ℕ) → m ≡ n → TakesBlocks sock n → TakesBlocks sock m
TakesBlocks-cast sock n m e h = subst (TakesBlocks sock) (sym e) h

append_five :
    (a c n x o y : Bytes)
    → ((((a ++ c) ++ (n ++ x)) ++ o) ++ y) ≡ a ++ (c ++ (n ++ (x ++ (o ++ y))))
append_five a c n x o y = simp append_assoc

send_module-TakesBlocks :
    (m : Bytes × List ℕ) (k : ℕ) (sock : Socket)
    → Fits m
    → TakesBlocks sock (11 + length m.0 + k)
    → ((send_module m sock).outgoing ≡ sock.outgoing ++ (b'C' ∷ wire_module m))
      × TakesBlocks (send_module m sock) k
unfolding send_module
send_module-TakesBlocks (module_name, offsets) k sock f h =
    let s0 = send_command b'C' sock in
    let (o0, q0) = send_command-TakesBlocks b'C' (8 + length module_name + suc (suc k)) sock (
      TakesBlocks-cast sock (11 + length module_name + k)
        (suc (8 + length module_name + suc (suc k))) (omega arith) h) in
    let (o1, q1) = send_sized-TakesBlocks (suc (suc k)) module_name s0 q0 in
    let s1 = (send_sized module_name s0).1 in
    let size = store_le 8 (length offsets) in
    let (o2, q2) =
      send-TakesBlocks (suc k) 8 size s1 (length-store_le 8 (length offsets)) (omega arith) q1 in
    let s2 = (send size 8 s1).1 in
    let block = store_offsets offsets in
    let n = int_size_small (length offsets * 8) f.block_size in
    let (o3, q3) =
      send-TakesBlocks k (int_size (length offsets * 8)) block s2
        (length-store_offsets offsets ∙ sym n) (omega (arith, n, f.block_size)) q2 in
    (
      o3
          ∙ ap (λ b. b ++ block)
              (o2
                ∙ ap (λ b. b ++ size)
                    (o1 ∙ ap (λ b. b ++ (store_le 8 (length module_name) ++ module_name)) o0))
          ∙ append_five sock.outgoing (b'C' ∷ []) (store_le 8 (length module_name)) module_name size
              block,
      q3,
    )

pub send_modules-TakesBlocks :
    (modules : List (Bytes × List ℕ)) (k : ℕ) (sock : Socket)
    → All Fits modules
    → TakesBlocks sock (calls modules + k)
    → ((send_modules modules sock).outgoing ≡ sock.outgoing ++ wire_modules modules)
      × TakesBlocks (send_modules modules sock) k
unfolding send_modules
send_modules-TakesBlocks [] k sock f h =
    send_command-TakesBlocks b'N' k sock (TakesBlocks-cast sock (1 + k) (suc k) (omega arith) h)
send_modules-TakesBlocks (m ∷ modules) k sock f h =
    let (out, next) = send_module-TakesBlocks m (calls modules + k) sock f.0 (
      TakesBlocks-cast sock (calls (m ∷ modules) + k) (11 + length m.0 + (calls modules + k))
        (omega arith) h) in
    let (all, left) = send_modules-TakesBlocks modules k (send_module m sock) f.1 next in
    (
      all
          ∙ ap (λ b. b ++ wire_modules modules) out
          ∙ append_assoc sock.outgoing (b'C' ∷ wire_module m) (wire_modules modules),
      left,
    )

append_three : (c n s o y : Bytes) → (c ++ (n ++ (s ++ o))) ++ y ≡ c ++ (n ++ (s ++ (o ++ y)))
append_three c n s o y = simp append_assoc

module _ {Coverage : Type 0} (ops : CoverageOps Coverage) (wire : CoverageWire ops) where
  recv_module-Pending :
      (m : Bytes × List ℕ) (coverage : Coverage) (peer : Socket) (tail : Bytes)
      → Fits m
      → Pending peer (wire_module m ++ tail)
      → (s : Socket) × (recv_module wire coverage peer
          ≡ some (wire.insert_offsets coverage m.0 m.1, s))
        × Pending s tail
  unfolding recv_module recv_string
  recv_module-Pending (module_name, offsets) coverage peer tail f p =
      let header = store_le 8 (length offsets) in
      let block = store_offsets offsets in
      let (s1, r1, p1, o1) =
        recv_sized-Pending peer module_name (header ++ (block ++ tail)) f.name_size (
          subst (Pending peer)
            (append_three (store_le 8 (length module_name)) module_name header block tail) p) in
      let (s2, r2, p2, o2) =
        read-Pending s1 header (block ++ tail) 8 p1 (length-store_le 8 (length offsets)) in
      let size : load_le header ≡ length offsets =
        load_le-store_le 8 (length offsets) (omega (arith, f.block_size)) in
      let n : int_size (load_le header * 8) ≡ length offsets * 8 =
        ap (λ (k : ℕ). int_size (k * 8)) size ∙ int_size_small (length offsets * 8) f.block_size in
      let (s3, r3, p3, o3) =
        read-Pending s2 block tail (int_size (load_le header * 8)) p2
          (length-store_offsets offsets ∙ sym n) in
      let small : ltb ((2 ^ 64 - 1) / 8) (load_le header) ≡ false =
        ground (arith, size, f.block_size) in
      let back : load_offsets (load_le header) block ≡ offsets =
        ap (λ (k : ℕ). load_offsets k block) size
        ∙ load_offsets-store_offsets offsets f.offset_sizes in
      (s3, rw (r1, r2, small, r3, back) refl, p3)

  -- What RecvCoverage gets, when it starts with any coverage.
  pub recv_coverage-Pending :
      (modules : List (Bytes × List ℕ)) (coverage : Coverage) (peer : Socket) (tail : Bytes)
      → All Fits modules
      → Pending peer (wire_modules modules ++ tail)
      → (c : Coverage) × (s : Socket) × (recv_coverage wire (suc (length modules)) coverage peer
          ≡ some (c, s))
        × ((m : Bytes) (x : ℕ)
            → ops.has c m x ≡ ops.has coverage m x || among wire.same_module m x modules)
        × Pending s tail
  unfolding recv_coverage load_le
  recv_coverage-Pending [] coverage peer tail f p =
      let (s, r, q, o) = read-Pending peer (b'N' ∷ []) tail 1 p refl in
      (coverage, s, rw r refl, (λ m x. ground arith), q)
  recv_coverage-Pending (m ∷ modules) coverage peer tail f p =
      let (s1, r1, p1, o1) =
        read-Pending peer (b'C' ∷ []) (wire_module m ++ (wire_modules modules ++ tail)) 1
          (subst (λ b. Pending peer (b'C' ∷ b))
            (append_assoc (wire_module m) (wire_modules modules) tail) p)
          refl in
      let (s2, r2, p2) = recv_module-Pending m coverage s1 (wire_modules modules ++ tail) f.0 p1 in
      let (c, s, r, has, q) =
        recv_coverage-Pending modules (wire.insert_offsets coverage m.0 m.1) s2 tail f.1 p2 in
      (
        c,
        s,
        rw (r1, r2, r) refl,
        (λ k x. ground (arith, has k x, wire.has-insert_offsets coverage m.0 m.1 k x)),
        q,
      )

  -- A coverage that SendCoverage sends over a fresh connection, where each call of `send` takes all
  -- it is given, comes out of RecvCoverage with exactly the same offsets, if its names and offsets
  -- have 64-bit sizes and each module's offsets fill less than 2^31 bytes; what is sent behind it
  -- stays for the next message.
  pub recv_coverage-send_coverage :
      (coverage : Coverage) (sock peer : Socket) (tail : Bytes)
      → All Fits (wire.modules coverage)
      → sock.outgoing ≡ []
      → TakesBlocks sock (calls (wire.modules coverage))
      → Pending peer ((send_coverage wire coverage sock).outgoing ++ tail)
      → (c : Coverage) × (peer' : Socket) × (recv_coverage wire
            (suc (length (wire.modules coverage)))
            ops.none_covered
            peer
          ≡ some (c, peer'))
        × ((m : Bytes) (x : ℕ) → ops.has c m x ≡ ops.has coverage m x)
        × Pending peer' tail
  unfolding send_coverage
  recv_coverage-send_coverage coverage sock peer tail f fresh h p =
      let modules = wire.modules coverage in
      let sent : (send_modules modules sock).outgoing ≡ wire_modules modules =
        (send_modules-TakesBlocks modules 0 sock f
          (TakesBlocks-cast sock (calls modules) (calls modules + 0) (omega arith) h)).0
        ∙ ap (λ b. b ++ wire_modules modules) fresh in
      let (c, s, r, has, q) =
        recv_coverage-Pending modules ops.none_covered peer tail f
          (subst (λ b. Pending peer (b ++ tail)) sent p) in
      (
        c,
        s,
        r,
        (λ m x. ground (arith, has m x, ops.has-none_covered m x, wire.has-modules coverage m x)),
        q,
      )
