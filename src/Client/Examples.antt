-- ===== src/Client/Examples.antt =====
-- An update of one sample.
use jackalope.Prelude.{
  ◌+◌, ◌≤◌, ◌≡◌, refl, some, List, [], ◌∷◌, ◌++◌, map, true, length, replicate, arith,
}
use jackalope.Prelude.Predicates.{All-replicate}
use jackalope.Prelude.Memory.{store_le}
use jackalope.Sample.{Sample, done}
use jackalope.Server.Socket.{Socket}
use jackalope.Server.Transfer.{Pending, joined}
use jackalope.Server.Messages.{Ready}
use jackalope.Server.Updates.{reply}
use jackalope.Client.{CoverageClient, get_updates}
use jackalope.Client.Sync.{wire, received, get_updates-reply}

abbrev one_sample : List Sample
one_sample = record { bytes = some (7 ∷ []); size = 1; filename = [] } ∷ []

abbrev sender : Socket
sender = record { incoming = []; room = replicate 19 1; outgoing = [] }

abbrev receiver : Socket
receiver = record {
  incoming =
      (5 ∷ 0 ∷ 0 ∷ [])
      ∷ (0 ∷ 0 ∷ 0 ∷ 0 ∷ 0 ∷ b'S' ∷ 1 ∷ 0 ∷ 0 ∷ 0 ∷ 0 ∷ 0 ∷ 0 ∷ 0 ∷ 7 ∷ b'N' ∷ [])
      ∷ [];
  room = [];
  outgoing = [];
}

abbrev client : CoverageClient
client = record { last_timestamp = 3; client_id = 1 }

sender-Ready : Ready sender (8 + length (wire one_sample))
unfolding store_le
sender-Ready = record {
  takes = All-replicate (λ r. 1 ≤ r) 19 1 (omega arith);
  enough = omega arith;
}

receiver-Pending : Pending receiver (store_le 8 5 ++ wire one_sample)
unfolding store_le
receiver-Pending = record {
  bytes = refl;
  full = (λ e. ground (arith, e), (λ e. ground (arith, e), tt));
}

get_updates-reply_example :
    (s : Socket) × (reply 5 (done one_sample) sender ≡ done (true, s))
    × (s.outgoing ≡ joined receiver.incoming)
    × (get_updates 2 client receiver
        ≡ some (map received one_sample, record client { last_timestamp = 5 }))
get_updates-reply_example =
    get_updates-reply client 5 one_sample sender receiver (omega arith) ((refl, omega arith), tt)
      refl sender-Ready receiver-Pending
