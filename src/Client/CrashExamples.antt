-- ===== src/Client/CrashExamples.antt =====
-- A crash with its description, at both ends.
use jackalope.Prelude.{◌≤◌, ◌≡◌, refl, some, [], ◌∷◌, ◌++◌, true, replicate, arith}
use jackalope.Prelude.Predicates.{All-replicate}
use jackalope.Prelude.Memory.{store_le}
use jackalope.Sample.{Sample}
use jackalope.Crashes.{no_crashes, check_filename, count_crash, server_report_crash}
use jackalope.Server.Socket.{Socket, send, send_sized, send_sample, write, write_loop}
use jackalope.Server.Transfer.{Pending}
use jackalope.Server.Messages.{Ready}
use jackalope.Server.Updates.{send_command}
use jackalope.Client.{report_crash}
use jackalope.Client.CrashReport.{server_report_crash-report_crash}

abbrev one_byte : Sample
one_byte = record { bytes = some (7 ∷ []); size = 1; filename = [] }

-- `send` takes 4 bytes at a time.
abbrev reporter : Socket
reporter = record { incoming = []; room = replicate 21 4; outgoing = [] }

abbrev server_end : Socket
server_end = record {
  incoming =
      (b'S' ∷ 1 ∷ 0 ∷ 0 ∷ 0 ∷ 0 ∷ 0 ∷ [])
      ∷ (0 ∷ 0 ∷ 7 ∷ 2 ∷ 0 ∷ 0 ∷ 0 ∷ 0 ∷ 0 ∷ 0 ∷ 0 ∷ b'a' ∷ b'1' ∷ b'N' ∷ [])
      ∷ [];
  room = [];
  outgoing = [];
}

reporter-Ready : Ready reporter 21
reporter-Ready = record {
  takes = All-replicate (λ r. 1 ≤ r) 21 4 (omega arith);
  enough = omega arith;
}

server_end-Pending :
    Pending server_end ((report_crash one_byte (b'a' ∷ b'1' ∷ []) reporter).outgoing ++ [])
unfolding report_crash send_command send_sample send_sized write write_loop send store_le
server_end-Pending = record {
  bytes = refl;
  full = ((λ e. ground (arith, e)), ((λ e. ground (arith, e)), tt));
}

server_report_crash-report_crash_example : server_report_crash 2 server_end no_crashes ≡ (
  true,
  record {
    num_crashes = 1;
    num_unique_crashes = 1;
    unique_crashes = (b'a' ∷ b'1' ∷ [], 1) ∷ [];
    files = (b'a' ∷ b'1' ∷ [], 1, 7 ∷ []) ∷ [];
  },
)
unfolding count_crash check_filename
server_report_crash-report_crash_example =
    server_report_crash-report_crash one_byte (b'a' ∷ b'1' ∷ []) [] no_crashes reporter server_end
      (refl, omega arith) (omega arith) refl reporter-Ready server_end-Pending
