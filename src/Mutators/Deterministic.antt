-- ===== src/Mutators/Deterministic.antt =====
-- mutator.h and mutator.cpp: BaseDeterministicContext, the regions around hot offsets that a
-- deterministic mutator goes through byte by byte, and the two mutators. Offsets are far below
-- 2^64, where the additions to them do not wrap. One thread holds the context at a time, as its
-- mutex makes AddHotOffset and GetNextByteToMutate atomic.
pub mod Pending
pub mod Covered
pub mod Calls
pub mod Effects
pub mod Stage
pub mod Expected
pub mod Rounds
mod Examples
use jackalope.Prelude.{
  ℕ, zero, suc, ◌+◌, ◌-◌, Option, none, some, List, [], ◌∷◌, Bool, true, false, ltb, leb, ◌==◌,
  if◌then◌else◌, length, get_elem?,
}
use jackalope.Prelude.Memory.{Bytes, ◌>>=◌, read_block, write_block}
use jackalope.Sample.{Sample, content, resize}

-- DETERMINISTIC_MUTATE_BYTES_NEXT and DETERMINISTIC_MUTATE_BYTES_PREVIOUS
abbrev pub bytes_next : ℕ
bytes_next = 20

abbrev pub bytes_previous : ℕ
bytes_previous = 3

-- BaseDeterministicContext::MutateRegion
pub record Region : Type 0 where
  pub start : ℕ
  pub end : ℕ
  pub cur : ℕ
  pub cur_progress : ℕ

-- BaseDeterministicContext
pub record Context : Type 0 where
  pub regions : List Region
  pub cur_region : ℕ

-- BaseDeterministicMutator::CreateSampleContext
abbrev pub create_context : Context
create_context = record { regions = []; cur_region = 0 }

abbrev pub new_region : ℕ → ℕ → Region
new_region start end = record { start = start; end = end; cur = start; cur_progress = 0 }

-- The loop of AddHotOffset, for a new region from `start` to `end`.
unfoldable pub put_region : ℕ → ℕ → List Region → List Region
put_region start end [] = new_region start end ∷ []
put_region start end (r ∷ rs) =
    let rest = put_region start end rs in
    if ltb start r.start
    then new_region start (if ltb end r.start then end else r.start) ∷ (r ∷ rs)
    else if leb start r.end
    then (if leb end r.end then r ∷ rs else record r { end = end } ∷ rs)
    else r ∷ rest

abbrev pub region_start : ℕ → ℕ
region_start offset = if ltb offset bytes_previous then 0 else offset - bytes_previous

-- BaseDeterministicContext::AddHotOffset
unfoldable pub add_hot_offset : ℕ → Context → Context
unfolding put_region
add_hot_offset offset c = record c {
  regions = put_region (region_start offset) (offset + bytes_next) c.regions;
  cur_region = 0;
}

-- What GetNextByteToMutate leaves behind, and the position and the progress that it hands out.
pub record Next : Type 0 where
  pub found : Option (ℕ × ℕ)
  pub context : Context

-- `if(region->cur_progress >= max_progress)`: on to the next byte of the region.
abbrev pub advance : ℕ → Region → Region
advance max_progress r =
    if leb max_progress r.cur_progress then record r { cur_progress = 0; cur = r.cur + 1 } else r

abbrev pub behind : Region → Next → Next
behind r n = record n {
  context = record { regions = r ∷ n.context.regions; cur_region = suc n.context.cur_region };
}

abbrev pub try_region : Region → List Region → Next → Next
try_region r rs rest = if leb r.end r.cur then behind r rest else record {
  found = some (r.cur, r.cur_progress);
  context = record {
    regions = record r { cur_progress = r.cur_progress + 1 } ∷ rs;
    cur_region = 0;
  };
}

-- The loop of GetNextByteToMutate on the list of regions: the first argument counts the regions
-- before cur_region, and cur_region counts from the head of the list.
unfoldable pub scan_regions : ℕ → ℕ → List Region → Next
scan_regions max_progress i [] = record {
  found = none;
  context = record { regions = []; cur_region = i };
}
scan_regions max_progress zero (r ∷ rs) =
    let rest = scan_regions max_progress 0 rs in try_region (advance max_progress r) rs rest
scan_regions max_progress (suc i) (r ∷ rs) = behind r (scan_regions max_progress i rs)

-- BaseDeterministicContext::GetNextByteToMutate; `found` is `none` for the return value false.
unfoldable pub get_next_byte : ℕ → Context → Next
unfolding scan_regions
get_next_byte max_progress c = scan_regions max_progress c.cur_region c.regions

-- A mutator's result: its return value, the sample and its context.
abbrev pub Mutated : Type 0
Mutated = Bool × Sample × Context

-- `Resize` to hold `size` bytes at `pos`, where the sample is shorter.
abbrev pub make_room : ℕ → Sample → Option Sample
make_room end s = if ltb s.size end then resize s end else some s

-- Stores a block at a position.
unfoldable pub store_at : ℕ → Bytes → Sample → Option Sample
store_at pos value s = do
  t ← make_room (pos + length value) s
  b ← write_block (content t) pos value
  some (record t { bytes = some b })

abbrev pub flip_found : Sample → Option (ℕ × ℕ) → Context → Option Mutated
flip_found s none c = some (false, s, c)
flip_found s (some (pos, value)) c = do t ← store_at pos (value ∷ []) s; some (true, t, c)

-- DeterministicByteFlipMutator::Mutate; `none` is an access outside a buffer.
unfoldable pub deterministic_byte_flip : Sample → Context → Option Mutated
unfolding get_next_byte store_at
deterministic_byte_flip s c = let n = get_next_byte 256 c in flip_found s n.found n.context

abbrev pub put_found : List Sample → Sample → Option (ℕ × ℕ) → Context → Option Mutated
put_found values s none c = some (false, s, c)
put_found values s (some (pos, value_index)) c = do
  v ← get_elem? values value_index
  block ← read_block (content v) 0 v.size
  t ← store_at pos block s
  some (true, t, c)

-- DeterministicInterestingValueMutator::Mutate
unfoldable pub deterministic_interesting_value : List Sample → Sample → Context → Option Mutated
unfolding get_next_byte store_at
deterministic_interesting_value values s c =
    let n = get_next_byte (length values) c in put_found values s n.found n.context
