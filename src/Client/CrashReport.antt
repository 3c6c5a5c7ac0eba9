-- ===== src/Client/CrashReport.antt =====
-- ReportCrash at both ends: what a client reports is what the server counts and keeps.
use jackalope.Prelude.{
  ℕ, suc, ◌+◌, ◌^◌, ◌<◌, ◌≡◌, refl, ap, subst, ◌∙◌, some, [], ◌∷◌, ◌++◌, true, if◌then◌else◌,
  length, append_assoc, arith,
}
use jackalope.Prelude.Memory.{Bytes, load_le, store_le}
use jackalope.Sample.{Sample, new_sample, content, IsValid}
use jackalope.Crashes.{
  Crashes, check_filename, count_crash, note_checked, max_server_identical_crashes,
  server_report_crash,
}
use jackalope.Server.Socket.{Socket, read, send_sample, send_sized, recv_sample, recv_string}
use jackalope.Server.Transfer.{Pending, read-Pending, recv_sized-Pending}
use jackalope.Server.Messages.{
  Ready, Ready-le, send_sample-Ready, send_sized-Ready, recv_sample-Pending,
}
use jackalope.Server.Updates.{send_command}
use jackalope.Client.{report_crash}
use jackalope.Client.Sync.{IsSendable, send_command-Ready}

-- A crash on the wire.
abbrev crash_bytes : Sample → Bytes → Bytes
crash_bytes crash desc =
    b'S'
    ∷ ((store_le 8 crash.size ++ content crash)
        ++ ((store_le 8 (length desc) ++ desc) ++ (b'N' ∷ [])))

append_four : (a s b d n : Bytes) → ((((a ++ s) ++ b) ++ d) ++ n) ≡ a ++ (s ++ (b ++ (d ++ n)))
append_four a s b d n = simp append_assoc

report_crash-Ready :
    (crash : Sample) (desc : Bytes) (sock : Socket)
    → IsValid crash
    → Ready sock (18 + crash.size + length desc)
    → (report_crash crash desc sock).outgoing ≡ sock.outgoing ++ crash_bytes crash desc
unfolding report_crash
report_crash-Ready crash desc sock valid h =
    let (o1, h1) = send_command-Ready b'S' (8 + crash.size + (8 + length desc + 1)) sock (
      Ready-le sock (18 + crash.size + length desc) (suc (8 + crash.size + (8 + length desc + 1)))
        (omega arith) h) in
    let s1 = send_command b'S' sock in
    let (o2, h2) = send_sample-Ready (8 + length desc + 1) crash s1 valid h1 in
    let s2 = (send_sample crash s1).1 in
    let (o3, h3) = send_sized-Ready 1 desc s2 h2 in
    let s3 = (send_sized desc s2).1 in
    let (o4, h4) = send_command-Ready b'N' 0 s3 h3 in
    let block = store_le 8 crash.size ++ content crash in
    let string = store_le 8 (length desc) ++ desc in
    o4
    ∙ ap (λ b. b ++ (b'N' ∷ [])) (o3 ∙ ap (λ b. b ++ string) (o2 ∙ ap (λ b. b ++ block) o1))
    ∙ append_four sock.outgoing (b'S' ∷ []) block string (b'N' ∷ [])

append_ahead :
    (s k b l d n y : Bytes)
    → (s ++ ((k ++ b) ++ ((l ++ d) ++ n))) ++ y ≡ s ++ (k ++ (b ++ (l ++ (d ++ (n ++ y)))))
append_ahead s k b l d n y = simp append_assoc

server_report_crash_end :
    (fuel : ℕ) (peer s : Socket) (c : Crashes)
    → read 1 peer ≡ some (b'N' ∷ [], s)
    → server_report_crash (suc fuel) peer c ≡ (true, c)
unfolding server_report_crash load_le
server_report_crash_end fuel peer s c e = rw (server_report_crash, e) refl

server_report_crash_more :
    (fuel : ℕ) (peer s1 s2 s3 : Socket) (c : Crashes) (crash : Sample) (desc : Bytes)
    → read 1 peer ≡ some (b'S' ∷ [], s1)
    → recv_sample new_sample s1 ≡ some (crash, s2)
    → recv_string s2 ≡ some (desc, s3)
    → server_report_crash (suc fuel) peer c
      ≡ server_report_crash fuel s3 (note_checked desc crash c)
unfolding server_report_crash load_le
server_report_crash_more fuel peer s1 s2 s3 c crash desc e1 e2 e3 =
    rw (server_report_crash, e1, e2, e3) refl

-- A valid crash and its description, of 64-bit sizes, that a client's ReportCrash sends over a
-- fresh connection whose `send` goes on taking bytes, make the server's ReportCrash return 1, in
-- whatever pieces the bytes come. If CheckFilename takes the description, the crash is counted
-- under it, and the sample's bytes are saved within the limit for one description; if not, the
-- counters and the files stay as they were.
pub server_report_crash-report_crash :
    (crash : Sample) (desc tail : Bytes) (c : Crashes) (sock peer : Socket)
    → IsSendable crash
    → length desc < 2 ^ 64
    → sock.outgoing ≡ []
    → Ready sock (18 + crash.size + length desc)
    → Pending peer ((report_crash crash desc sock).outgoing ++ tail)
    → server_report_crash 2 peer c ≡ (
      true,
      if check_filename desc
          then count_crash max_server_identical_crashes desc (content crash) c
          else c,
    )
unfolding recv_string
server_report_crash-report_crash crash desc tail c sock peer ok small fresh h p =
    let block = store_le 8 crash.size ++ content crash in
    let string = store_le 8 (length desc) ++ desc in
    let sent =
      report_crash-Ready crash desc sock ok.0 h ∙ ap (λ b. b ++ crash_bytes crash desc) fresh in
    let split =
      ap (λ b. b ++ tail) sent
      ∙ append_ahead (b'S' ∷ []) (store_le 8 crash.size) (content crash) (store_le 8 (length desc))
          desc (b'N' ∷ []) tail in
    let (s1, r1, p1, o1) = read-Pending peer (b'S' ∷ []) _ 1 (subst (Pending peer) split p) refl in
    let (s2, r2, p2) = recv_sample-Pending crash new_sample s1 _ ok.0 ok.1 p1 in
    let (s3, r3, p3, o3) = recv_sized-Pending s2 desc ((b'N' ∷ []) ++ tail) small p2 in
    let (s4, r4, p4, o4) = read-Pending s3 (b'N' ∷ []) tail 1 p3 refl in
    server_report_crash_more 1 peer s1 s2 s3 c _ desc r1 r2 r3
    ∙ server_report_crash_end 0 s3 s4
        (note_checked desc (record new_sample { bytes = some (content crash); size = crash.size })
          c)
        r4
