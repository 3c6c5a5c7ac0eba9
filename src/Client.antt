-- ===== src/Client.antt =====
-- client.cpp, CoverageClient: the messages of the server's clients. Connecting is left out; samples
-- are kept in memory, as by default.
pub mod Sync
pub mod Report
pub mod Reported
pub mod CrashReport
mod Examples
mod ReportExamples
mod CrashExamples
use jackalope.Prelude.{
  ℕ, zero, suc, ◌+◌, ◌≡◌, Option, none, some, List, [], ◌∷◌, ◌++◌, Bool, true, false, ltb, ◌==◌,
  if◌then◌else◌, length,
}
use jackalope.Prelude.Memory.{Bytes, ◌>>=◌, store_le, load_le}
use jackalope.Sample.{Sample, new_sample}
use jackalope.Server.Socket.{Socket, read, send, send_sample, send_sized, recv_sample}
use jackalope.Server.Updates.{send_command}

-- The fields of CoverageClient that updates depend on.
pub record CoverageClient : Type 0 where
  pub last_timestamp : ℕ
  pub client_id : ℕ

-- `send` of a buffer, in one call whose result is ignored.
unfoldable pub send_once : Bytes → Socket → Socket
send_once buf sock = (send buf (length buf) sock).1

-- The loop of GetUpdates: samples behind an `S` each, up to an `N`; `none` where it returns 0.
-- `fuel` bounds the number of messages.
unfoldable pub recv_updates : ℕ → Socket → Option (List Sample × Socket)
recv_updates zero sock = none
recv_updates (suc fuel) sock = do
  (reply, sock1) ← read 1 sock
  if load_le reply == b'N'
      then some ([], sock1)
      else if load_le reply == b'S'
      then (do
        (sample, sock2) ← recv_sample new_sample sock1
        (samples, sock3) ← recv_updates fuel sock2
        some (sample ∷ samples, sock3))
      else none

-- GetUpdates: the three numbers that it sends.
unfoldable pub ask_updates : CoverageClient → ℕ → Socket → Socket
unfolding send_once
ask_updates client total_execs sock =
    send_once (store_le 8 client.last_timestamp)
      (send_once (store_le 8 total_execs) (send_once (store_le 8 client.client_id) sock))

-- GetUpdates after that: the samples that it adds to `new_samples`, and the client's new state.
unfoldable pub get_updates : ℕ → CoverageClient → Socket → Option (List Sample × CoverageClient)
unfolding recv_updates
get_updates fuel client sock = do
  (server_timestamp, sock1) ← read 8 sock
  (samples, sock2) ← recv_updates fuel sock1
  some (samples, record client { last_timestamp = load_le server_timestamp })

-- ReportCrash, over an open connection.
unfoldable pub report_crash : Sample → Bytes → Socket → Socket
unfolding send_command
report_crash crash crash_desc sock =
    send_command b'N' (send_sized crash_desc (send_sample crash (send_command b'S' sock)).1).1
