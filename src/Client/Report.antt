-- ===== src/Client/Report.antt =====
-- client.cpp, ReportNewCoverage: a coverage and a sample for the server.
use jackalope.Prelude.{Option, none, some, Bool, true, false, ◌==◌, if◌then◌else◌}
use jackalope.Prelude.Memory.{Bytes, load_le}
use jackalope.Sample.{Sample}
use jackalope.Coverage.{CoverageOps}
use jackalope.Server.Socket.{Socket, read, send_sample}
use jackalope.Server.Updates.{send_command}
use jackalope.Server.Wire.{CoverageWire, send_coverage}

-- The sample, if there is one; SendSample never returns 0.
unfoldable pub send_new_sample : Option Sample → Socket → Socket
send_new_sample none sock = sock
send_new_sample (some new_sample) sock = (send_sample new_sample (send_command b'S' sock)).1

-- What is done about the reply, if it can be read; the flag is the return value.
unfoldable pub after_reply : Option Sample → Socket → Option (Bytes × Socket) → Bool × Socket
unfolding send_new_sample
after_reply new_sample sock none = (false, sock)
after_reply new_sample sock (some (reply, sock1)) =
    if load_le reply == b'N'
    then (true, sock1)
    else (true, send_command b'N' (send_new_sample new_sample sock1))

-- ReportNewCoverage, over an open connection.
unfoldable pub send_report :
    {Coverage : Type 0} {ops : CoverageOps Coverage}
    → CoverageWire ops
    → Coverage
    → Option Sample
    → Socket
    → Bool × Socket
unfolding after_reply
send_report wire new_coverage new_sample sock =
    let sock1 = send_coverage wire new_coverage sock in after_reply new_sample sock1 (read 1 sock1)
