-- ===== src/Server/Examples.antt =====
-- The server's theorems at concrete messages and reports.
use jackalope.Prelude.{
  ◌≤◌, ◌⊎◌, true, false, ◌≡◌, refl, some, List, [], ◌∷◌, ◌++◌, ◌||◌, length, replicate,
  if◌then◌else◌, ◌==◌, arith,
}
use jackalope.Prelude.Predicates.{All-replicate}
use jackalope.Prelude.Memory.{store_le}
use jackalope.Sample.{Sample, new_sample, content, IsValid, done}
use jackalope.Coverage.Lists.{Offsets, offsets}
use jackalope.Server.Socket.{Socket, send_sample, recv_sample, send_sized, write, write_loop, send}
use jackalope.Server.Transfer.{Pending}
use jackalope.Server.Messages.{Ready, recv_sample-send_sample}
use jackalope.Server.Corpus.{TimestampIndex, get_index}
use jackalope.Server.Index.{first_after, get_index-first_after}
use jackalope.Server.Updates.{
  ServerState, updates_since, on_new_coverage, add_samples, enter_report,
}
use jackalope.Server.Log.{Implements, newer, stamp}
use jackalope.Server.Reports.{enter_report-Implements, report_new, IsEntered, updates_since-newer}

abbrev two_bytes : Sample
two_bytes = record { bytes = some (7 ∷ 9 ∷ []); size = 2; filename = [] }

-- `send` takes 3 bytes at a time.
abbrev slow : Socket
slow = record { incoming = []; room = replicate 12 3; outgoing = [] }

-- The 10 bytes come in two pieces, with the next message's first byte.
abbrev peer : Socket
peer = record {
  incoming = (2 ∷ 0 ∷ 0 ∷ 0 ∷ 0 ∷ []) ∷ (0 ∷ 0 ∷ 0 ∷ 7 ∷ 9 ∷ b'N' ∷ []) ∷ [];
  room = [];
  outgoing = [];
}

slow-Ready : Ready slow 10
slow-Ready = record { takes = All-replicate (λ r. 1 ≤ r) 12 3 (omega arith); enough = omega arith }

peer-Pending : Pending peer ((send_sample two_bytes slow).1.outgoing ++ (b'N' ∷ []))
unfolding send_sample send_sized write write_loop send store_le
peer-Pending = record {
  bytes = refl;
  full = (λ e. ground (arith, e), (λ e. ground (arith, e), tt));
}

recv_sample-send_sample_example :
    (s : Sample) × (peer' : Socket) × (recv_sample new_sample peer ≡ some (s, peer'))
    × (content s ≡ content two_bytes)
    × IsValid s
    × Pending peer' (b'N' ∷ [])
recv_sample-send_sample_example =
    recv_sample-send_sample two_bytes new_sample slow peer (b'N' ∷ []) refl (omega arith) refl
      slow-Ready peer-Pending

abbrev three_times : List TimestampIndex
three_times =
    record { timestamp = 2; index = 0 }
    ∷ record { timestamp = 5; index = 4 }
    ∷ record { timestamp = 6; index = 7 }
    ∷ []

get_index-first_after_example :
    get_index three_times 3 9
    ≡ done (if 3 == 0 || length three_times == 0 then 0 else first_after three_times 3 9)
get_index-first_after_example =
    get_index-first_after three_times 3 9 (omega arith, (omega arith, tt))

abbrev start : ServerState Offsets
start = record {
  corpus = record { samples = []; timestamps = [] };
  total_coverage = [];
  server_timestamp = 0;
  num_samples = 0;
}

start-Implements : Implements start []
start-Implements = record {
  samples = refl;
  sorted = tt;
  entries = tt;
  positions = λ t. refl;
  times = tt;
}

abbrev one_offset : Offsets
one_offset = (b'm' ∷ [], 16) ∷ []

enter_report-Implements_example :
    let s' = enter_report offsets one_offset (two_bytes ∷ []) start in
    ((offsets.empty (offsets.coverage_difference start.total_coverage one_offset) ≡ true)
      × (s' ≡ start))
    ⊎ ((offsets.empty (offsets.coverage_difference start.total_coverage one_offset) ≡ false)
        × Implements s' ([] ++ stamp 1 (two_bytes ∷ []))
        × IsEntered offsets start one_offset (two_bytes ∷ []) s')
enter_report-Implements_example =
    enter_report-Implements offsets start [] one_offset (two_bytes ∷ []) start-Implements

abbrev reported : ServerState Offsets
reported = record {
  corpus = record {
    samples = two_bytes ∷ [];
    timestamps = record { timestamp = 1; index = 0 } ∷ [];
  };
  total_coverage = one_offset;
  server_timestamp = 1;
  num_samples = 1;
}

reported-Implements : Implements reported ((1, two_bytes) ∷ [])
unfolding enter_report on_new_coverage add_samples
reported-Implements =
    (report_new offsets start [] one_offset (two_bytes ∷ []) start-Implements refl).0

updates_since-newer_example :
    updates_since reported.corpus 1 0 ≡ done (newer 0 ((1, two_bytes) ∷ []))
updates_since-newer_example =
    updates_since-newer reported ((1, two_bytes) ∷ []) 0 reported-Implements
