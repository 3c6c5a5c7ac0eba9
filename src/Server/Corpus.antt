-- ===== src/Server/Corpus.antt =====
-- server.h, ServerCorpus, and server.cpp, GetIndex: where in the list of samples a client's update
-- begins.
use jackalope.Prelude.{
  ℕ, zero, suc, ◌+◌, ◌-◌, ◌/◌, Option, none, some, List, Bool, false, ltb, leb, ◌==◌, if◌then◌else◌,
  length, get_elem?,
}
use jackalope.Sample.{Sample, Outcome, done, fatal, out_of_bounds}

pub record TimestampIndex : Type 0 where
  pub timestamp : ℕ
  pub index : ℕ

pub record ServerCorpus : Type 0 where
  pub samples : List Sample
  pub timestamps : List TimestampIndex

-- A test on the timestamp at a position; the loops below stay inside the vector.
abbrev pub time_test : (ℕ → Bool) → Option TimestampIndex → Bool
time_test test none = false
time_test test (some e) = test e.timestamp

-- `timestamps[m].timestamp > timestamp`
abbrev pub is_after : List TimestampIndex → ℕ → ℕ → Bool
is_after timestamps timestamp m = time_test (ltb timestamp) (get_elem? timestamps m)

-- `timestamps[m].timestamp < timestamp`
abbrev pub is_before : List TimestampIndex → ℕ → ℕ → Bool
is_before timestamps timestamp m = time_test (λ t. ltb t timestamp) (get_elem? timestamps m)

-- The binary search. `r` is the source's, plus 1, since that one reaches -1; `m` is the last
-- middle, and `fuel` the bound on the rounds.
unfoldable pub search : ℕ → List TimestampIndex → ℕ → ℕ → ℕ → ℕ → Option ℕ
search zero timestamps timestamp l r m = if ltb l r then none else some m
search (suc fuel) timestamps timestamp l r m =
    let mid = (l + (r - 1)) / 2 in
    let right = search fuel timestamps timestamp (mid + 1) r mid in
    let left = search fuel timestamps timestamp l mid mid in
    if ltb l r
    then (if is_before timestamps timestamp mid
        then right
        else if is_after timestamps timestamp mid
        then left
        else some mid)
    else some m

-- `while ((m > 0) && (timestamps[m - 1].timestamp > timestamp)) m--`
unfoldable pub scan_back : List TimestampIndex → ℕ → ℕ → ℕ
scan_back timestamps timestamp zero = zero
scan_back timestamps timestamp (suc m) =
    let rest = scan_back timestamps timestamp m in
    if is_after timestamps timestamp m then rest else suc m

-- `while ((m < size - 1) && (timestamps[m].timestamp <= timestamp)) m++`, with `n` steps to the
-- last position.
unfoldable pub scan_forward : ℕ → List TimestampIndex → ℕ → ℕ → ℕ
scan_forward zero timestamps timestamp m = m
scan_forward (suc n) timestamps timestamp m =
    let rest = scan_forward n timestamps timestamp (suc m) in
    if is_after timestamps timestamp m then m else rest

unfoldable pub adjust : List TimestampIndex → ℕ → ℕ → ℕ
unfolding scan_back scan_forward
adjust timestamps timestamp m =
    if is_after timestamps timestamp m
    then scan_back timestamps timestamp m
    else scan_forward (length timestamps - 1 - m) timestamps timestamp m

abbrev pub index_at : ℕ → Option TimestampIndex → Outcome ℕ
index_at timestamp none = out_of_bounds
index_at timestamp (some e) = if leb e.timestamp timestamp then fatal else done e.index

abbrev pub index_found : List TimestampIndex → ℕ → Option ℕ → Outcome ℕ
index_found timestamps timestamp none = out_of_bounds
index_found timestamps timestamp (some m) =
    index_at timestamp (get_elem? timestamps (adjust timestamps timestamp m))

-- `timestamp >= timestamps[timestamps.size() - 1].timestamp`
abbrev pub up_to_date : List TimestampIndex → ℕ → Bool
up_to_date timestamps timestamp =
    time_test (λ t. leb t timestamp) (get_elem? timestamps (length timestamps - 1))

-- CoverageServer::GetIndex
unfoldable pub get_index : List TimestampIndex → ℕ → ℕ → Outcome ℕ
unfolding search adjust
get_index timestamps timestamp last_index =
    if timestamp == 0
    then done 0
    else if length timestamps == 0
    then done 0
    else if up_to_date timestamps timestamp
    then done last_index
    else index_found timestamps timestamp
        (search (length timestamps) timestamps timestamp 0 (length timestamps) 0)
