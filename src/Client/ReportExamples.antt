-- ===== src/Client/ReportExamples.antt =====
-- A report of one offset with a sample, at both ends.
use jackalope.Prelude.{ℕ, ◌≡◌, refl, some, [], ◌∷◌, ◌++◌, true, ◌||◌, arith}
use jackalope.Prelude.Memory.{Bytes, store_le, load_le}
use jackalope.Sample.{Sample}
use jackalope.Coverage.Lists.{Offsets, offsets, has}
use jackalope.Server.Socket.{
  Socket, send, send_sized, send_sample, write, write_loop, read, read_loop, recv,
}
use jackalope.Server.Transfer.{Pending}
use jackalope.Server.Updates.{ServerState, send_command}
use jackalope.Server.Wire.{send_coverage, send_modules, send_module, store_offsets}
use jackalope.Server.Wire.Blocks.{TakesBlocks}
use jackalope.Server.Wire.Examples.{wire, sender, sender-TakesBlocks, module_bytes, one_offset-Fits}
use jackalope.Server.ServeReport.{serve_report}
use jackalope.Client.Sync.{received}
use jackalope.Client.Report.{send_report, after_reply, send_new_sample}
use jackalope.Client.Reported.{serve_report-send_report}

abbrev one_offset : Offsets
one_offset = (b'b' ∷ [], 5) ∷ []

abbrev reported : Sample
reported = record { bytes = some (7 ∷ 9 ∷ []); size = 2; filename = [] }

abbrev fresh_server : ServerState Offsets
fresh_server = record {
  corpus = record { samples = []; timestamps = [] };
  total_coverage = [];
  server_timestamp = 1;
  num_samples = 0;
}

-- While the first lock is free, another client's offset is entered.
abbrev later_server : ServerState Offsets
later_server = record fresh_server { total_coverage = (b'a' ∷ [], 300) ∷ []; server_timestamp = 2 }

abbrev answered : Socket
answered = record sender { incoming = (b'Y' ∷ []) ∷ [] }

abbrev server_end : Socket
server_end = record {
  incoming =
      (module_bytes b'b' 5 0 ++ (b'N' ∷ b'S' ∷ 2 ∷ 0 ∷ 0 ∷ 0 ∷ 0 ∷ 0 ∷ 0 ∷ 0 ∷ 7 ∷ 9 ∷ b'N' ∷ []))
      ∷ [];
  room = [];
  outgoing = [];
}

answered-TakesBlocks : TakesBlocks answered 25
answered-TakesBlocks = record {
  takes = sender-TakesBlocks.takes;
  enough = sender-TakesBlocks.enough;
}

answered-Pending : Pending (send_coverage wire one_offset answered) (b'Y' ∷ [])
unfolding send_coverage send_modules send_module send_command send_sized write write_loop send
    store_offsets store_le
answered-Pending = record { bytes = refl; full = ((λ e. ground (arith, e)), tt) }

server_end-Pending :
    Pending server_end ((send_report wire one_offset (some reported) answered).1.outgoing ++ [])
unfolding send_report after_reply send_new_sample send_coverage send_modules send_module
    send_command send_sample send_sized write write_loop send store_offsets store_le read read_loop
    recv load_le
server_end-Pending = record { bytes = refl; full = ((λ e. ground (arith, e)), tt) }

serve_report-send_report_example :
    ((send_report wire one_offset (some reported) answered).0 ≡ true)
    × (s' : ServerState Offsets) × (peer' : Socket) × (serve_report wire 2 2 fresh_server
          later_server server_end
        ≡ some (s', peer'))
    × (s'.corpus.samples ≡ received reported ∷ [])
    × (s'.server_timestamp ≡ 3)
    × ((n : Bytes) (y : ℕ)
        → has s'.total_coverage n y ≡ has later_server.total_coverage n y || has one_offset n y)
    × Pending peer' []
serve_report-send_report_example =
    serve_report-send_report offsets wire one_offset reported fresh_server later_server answered
      server_end [] [] (b'b' ∷ []) 5 (one_offset-Fits b'b' 5 (omega arith), tt) (refl, omega arith)
      refl answered-TakesBlocks answered-Pending server_end-Pending
      (λ n y e. absurd (ground (arith, e))) refl refl
