-- ===== src/Server/ServeReport.antt =====
-- server.cpp, ReportNewCoverage: the whole handler, from the client's coverage to the corpus.
use jackalope.Prelude.{
  ℕ, zero, suc, ◌≡◌, refl, Option, none, some, List, [], ◌∷◌, ◌++◌, Bool, true, false, ◌==◌,
  if◌then◌else◌, Bool-cases, inl, inr, arith,
}
use jackalope.Prelude.Memory.{Bytes, ◌>>=◌, load_le}
use jackalope.Sample.{Sample, new_sample}
use jackalope.Coverage.{CoverageOps}
use jackalope.Server.Socket.{Socket, read, send, recv_sample}
use jackalope.Server.Transfer.{Pending}
use jackalope.Server.Updates.{
  ServerState, has_new_coverage, on_new_coverage, add_samples, enter_report, send_command,
}
use jackalope.Server.Wire.{CoverageWire, recv_coverage}

-- The samples that the client sends, each behind an `S`, up to an `N`.
unfoldable pub recv_reported : ℕ → Socket → Option (List Sample × Socket)
recv_reported zero sock = none
recv_reported (suc fuel) sock = do
  (command, sock1) ← read 1 sock
  if load_le command == b'N'
      then some ([], sock1)
      else if load_le command == b'S'
      then (do
        (sample, sock2) ← recv_sample new_sample sock1
        (samples, sock3) ← recv_reported fuel sock2
        some (sample ∷ samples, sock3))
      else none

-- The answer to HasNewCoverage: an `N`, or a `Y` and the coverage that is new.
abbrev pub answer_report : {Coverage : Type 0} → Bool × Coverage → Socket → Option Coverage × Socket
answer_report (false, new_client_coverage) sock = (none, send_command b'N' sock)
answer_report (true, new_client_coverage) sock = (some new_client_coverage, send_command b'Y' sock)

module _ {Coverage : Type 0} {ops : CoverageOps Coverage} (wire : CoverageWire ops) where
  -- Up to the answer.
  unfoldable pub ask_report : ℕ → ServerState Coverage → Socket → Option (Option Coverage × Socket)
  unfolding has_new_coverage
  ask_report modules_fuel s sock = do
    (client_coverage, sock1) ← recv_coverage wire modules_fuel ops.none_covered sock
    some (answer_report (has_new_coverage ops s client_coverage) sock1)

  -- After a `Y`.
  unfoldable pub finish_report :
      ℕ → Coverage → ServerState Coverage → Socket → Option (ServerState Coverage × Socket)
  unfolding recv_reported
  finish_report samples_fuel new_client_coverage s sock = do
    (new_samples, sock1) ← recv_reported samples_fuel sock
    some (enter_report ops new_client_coverage new_samples s, sock1)

  abbrev pub after_answer :
      ℕ
      → ServerState Coverage
      → ServerState Coverage
      → Option Coverage × Socket
      → Option (ServerState Coverage × Socket)
  after_answer samples_fuel s later (none, sock) = some (s, sock)
  after_answer samples_fuel s later (some new_client_coverage, sock) =
      finish_report samples_fuel new_client_coverage later sock

  -- ReportNewCoverage: it reads the state `s` under the first lock, and finds `later` under the
  -- second, as other connections have left it; `none` where it returns 0.
  unfoldable pub serve_report :
      ℕ
      → ℕ
      → ServerState Coverage
      → ServerState Coverage
      → Socket
      → Option (ServerState Coverage × Socket)
  unfolding ask_report
  serve_report modules_fuel samples_fuel s later sock = do
    asked ← ask_report modules_fuel s sock
    after_answer samples_fuel s later asked

pub send_command-Pending :
    (command : ℕ) (sock : Socket) (xs : Bytes)
    → Pending sock xs
    → Pending (send_command command sock) xs
unfolding send_command send
send_command-Pending command sock xs p = record { bytes = p.bytes; full = p.full }

-- What has an offset is not empty.
not-empty :
    {Coverage : Type 0} (ops : CoverageOps Coverage) (c : Coverage) (m : Bytes) (x : ℕ)
    → ops.has c m x ≡ true
    → ops.empty c ≡ false
not-empty ops c m x h = elim (Bool-cases (ops.empty c)) [
  | inl e ↦ absurd (ground (arith, h, ops.has-empty c e m x))
  | inr e ↦ e
]

-- The state after a report whose coverage is new under the second lock.
pub enter_report_new :
    {Coverage : Type 0} (ops : CoverageOps Coverage) (s : ServerState Coverage) (c : Coverage)
    (sample : Sample) (m : Bytes) (x : ℕ)
    → ops.has c m x ≡ true
    → ops.has s.total_coverage m x ≡ false
    → let s' = enter_report ops c (sample ∷ []) s in
      (s'.corpus.samples ≡ s.corpus.samples ++ (sample ∷ []))
      × (s'.server_timestamp ≡ suc s.server_timestamp)
      × (s'.total_coverage
          ≡ ops.merge_coverage s.total_coverage (ops.coverage_difference s.total_coverage c))
unfolding enter_report on_new_coverage add_samples
enter_report_new ops s c sample m x h k =
    let new =
      not-empty ops (ops.coverage_difference s.total_coverage c) m x
        (ground (arith, h, k, ops.has-difference s.total_coverage c m x)) in
    rw new (refl, refl, refl)

-- The answer to a report that has an offset that the server does not have.
pub has_new_coverage_new :
    {Coverage : Type 0} (ops : CoverageOps Coverage) (s : ServerState Coverage) (c : Coverage)
    (m : Bytes) (x : ℕ)
    → ops.has c m x ≡ true
    → ops.has s.total_coverage m x ≡ false
    → has_new_coverage ops s c ≡ (true, ops.coverage_difference s.total_coverage c)
unfolding has_new_coverage
has_new_coverage_new ops s c m x h k =
    let new =
      not-empty ops (ops.coverage_difference s.total_coverage c) m x
        (ground (arith, h, k, ops.has-difference s.total_coverage c m x)) in
    rw new refl
