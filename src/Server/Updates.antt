-- ===== src/Server/Updates.antt =====
-- server.cpp, ServeUpdates, HasNewCoverage, OnNewCoverage and the end of ReportNewCoverage: what the
-- server keeps of the clients' reports, and what it hands out.
use jackalope.Prelude.{
  ℕ, suc, Option, none, some, List, [], ◌∷◌, ◌++◌, Bool, true, false, not, leb, if◌then◌else◌,
  length, drop,
}
use jackalope.Prelude.Memory.{Bytes, store_le, load_le}
use jackalope.Sample.{Sample, Outcome, done, fatal, out_of_bounds}
use jackalope.Coverage.{CoverageOps}
use jackalope.Server.Socket.{Socket, read, send, write, send_sample}
use jackalope.Server.Corpus.{ServerCorpus, get_index}

-- `send(sock, "X", 1, 0)`
unfoldable pub send_command : ℕ → Socket → Socket
send_command command sock = (send (command ∷ []) 1 sock).1

-- The loop of ServeUpdates: each sample behind an `S`; the flag is false where SendSample fails.
unfoldable pub send_samples : List Sample → Socket → Bool × Socket
send_samples [] sock = (true, sock)
send_samples (sample ∷ samples) sock =
    let sent = send_sample sample (send_command b'S' sock) in
    let rest = send_samples samples sent.1 in if sent.0 then rest else (false, sent.1)

abbrev from_index : List Sample → Outcome ℕ → Outcome (List Sample)
from_index samples (done i) = done (if leb (length samples) i then [] else drop i samples)
from_index samples fatal = fatal
from_index samples out_of_bounds = out_of_bounds

-- The samples that ServeUpdates sends to a client whose last update has the given timestamp.
unfoldable pub updates_since : ServerCorpus → ℕ → ℕ → Outcome (List Sample)
updates_since corpus server_timestamp timestamp =
    if leb server_timestamp timestamp
    then done []
    else from_index corpus.samples (get_index corpus.timestamps timestamp (length corpus.samples))

-- The reply: the server's time, the samples, and an `N`.
unfoldable pub reply : ℕ → Outcome (List Sample) → Socket → Outcome (Bool × Socket)
unfolding send_samples send_command
reply server_timestamp (done samples) sock =
    let s = send_samples samples (write (store_le 8 server_timestamp) sock).1 in
    if s.0 then done (true, send_command b'N' s.1) else done s
reply server_timestamp fatal sock = fatal
reply server_timestamp out_of_bounds sock = out_of_bounds

abbrev serve_read : ℕ → ServerCorpus → Socket → Option (Bytes × Socket) → Outcome (Bool × Socket)
serve_read server_timestamp corpus sock none = done (false, sock)
serve_read server_timestamp corpus sock (some (timestamp, sock')) =
    reply server_timestamp (updates_since corpus server_timestamp (load_le timestamp)) sock'

-- Three numbers of 8 bytes: the client's id, its count of executions, and its timestamp.
abbrev read_third : Option (Bytes × Socket) → Option (Bytes × Socket)
read_third none = none
read_third (some (number, sock)) = read 8 sock

-- ServeUpdates
unfoldable pub serve_updates : ℕ → ServerCorpus → Socket → Outcome (Bool × Socket)
unfolding updates_since reply
serve_updates server_timestamp corpus sock =
    serve_read server_timestamp corpus sock (read_third (read_third (read 8 sock)))

-- The state behind `mutex`.
pub record ServerState (Coverage : Type 0) : Type 0 where
  pub corpus : ServerCorpus
  pub total_coverage : Coverage
  pub server_timestamp : ℕ
  pub num_samples : ℕ

module _ {Coverage : Type 0} (ops : CoverageOps Coverage) where
  -- HasNewCoverage: its result, and what it leaves in `new_coverage`.
  unfoldable pub has_new_coverage : ServerState Coverage → Coverage → Bool × Coverage
  has_new_coverage s client_coverage =
      let new_coverage = ops.coverage_difference s.total_coverage client_coverage in
      (not (ops.empty new_coverage), new_coverage)

  -- OnNewCoverage
  unfoldable pub on_new_coverage : ServerState Coverage → Coverage → Bool × ServerState Coverage
  on_new_coverage s client_coverage =
      let new_client_coverage = ops.coverage_difference s.total_coverage client_coverage in
      if ops.empty new_client_coverage then (false, s) else (
        true,
        record s {
          server_timestamp = suc s.server_timestamp;
          total_coverage = ops.merge_coverage s.total_coverage new_client_coverage;
        },
      )

-- `if (!new_samples.empty()) corpus.timestamps.push_back(...)` and the loop over the samples.
unfoldable pub add_samples :
    {Coverage : Type 0} → List Sample → ServerState Coverage → ServerState Coverage
add_samples [] s = record s { num_samples = length s.corpus.samples }
add_samples (x ∷ xs) s = record s {
  corpus = record {
    samples = s.corpus.samples ++ (x ∷ xs);
    timestamps =
        s.corpus.timestamps
        ++ (record { timestamp = s.server_timestamp; index = length s.corpus.samples } ∷ []);
  };
  num_samples = length (s.corpus.samples ++ (x ∷ xs));
}

-- ReportNewCoverage from `mutex.LockWrite` on.
unfoldable pub enter_report :
    {Coverage : Type 0}
    → CoverageOps Coverage
    → Coverage
    → List Sample
    → ServerState Coverage
    → ServerState Coverage
unfolding on_new_coverage add_samples
enter_report ops new_client_coverage new_samples s =
    let r = on_new_coverage ops s new_client_coverage in
    if r.0 then add_samples new_samples r.1 else r.1
