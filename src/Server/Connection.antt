-- ===== src/Server/Connection.antt =====
-- server.cpp, HandleConnection: which connections are served, and by what.
use jackalope.Prelude.{ℕ, suc, ◌-◌, Option, none, some, ltb, ◌==◌, if◌then◌else◌}
use jackalope.Prelude.Memory.{load_le}
use jackalope.Server.Socket.{Socket, read}
use jackalope.Server.Updates.{send_command}

-- MAX_CONNECTIONS
abbrev pub max_connections : ℕ
max_connections = 8

-- The handler that a command asks for.
pub data Handler : Type 0 where
  report_crash : Handler
  report_new_coverage : Handler
  serve_updates : Handler
  refuse : Handler

abbrev pub handler_of : ℕ → Handler
handler_of command =
    if command == b'X'
    then report_crash
    else if command == b'S'
    then report_new_coverage
    else if command == b'U'
    then serve_updates
    else refuse

abbrev answer : ℕ → ℕ → Socket → (Option Handler × Socket) × ℕ
answer command num_connections sock =
    if ltb max_connections num_connections
    then ((none, send_command b'W' sock), num_connections)
    else ((some (handler_of command), send_command b'K' sock), num_connections)

-- HandleConnection up to the call of the handler, with the number of connections that are open: the
-- handler, unless the client is told to wait, and the number after it; `none` where the command
-- cannot be read.
unfoldable pub open_connection : Socket → ℕ → Option ((Option Handler × Socket) × ℕ)
unfolding send_command
open_connection sock num_connections = elim (read 1 sock) [
  | none ↦ none
  | some (command, sock') ↦ some (answer (load_le command) (suc num_connections) sock')
]

-- The end of HandleConnection; this connection is counted, so the number is not 0.
abbrev pub close_connection : ℕ → ℕ
close_connection num_connections = num_connections - 1
