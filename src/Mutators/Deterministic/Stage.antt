-- ===== src/Mutators/Deterministic/Stage.antt =====
-- main.cpp, CreateMutator: the sequence of the two deterministic mutators, as FuzzJob calls it, each
-- time on a copy of the entry's sample.
use jackalope.Prelude.{
  ℕ, zero, suc, ◌-◌, ◌≤◌, ◌<◌, inl, inr, some, List, [], ◌∷◌, ◌++◌, Bool, false, true, ltb, length,
  map, Bool-cases, arith,
}
use jackalope.Prelude.Memory.{Bytes, ◌>>=◌}
use jackalope.Prelude.Predicates.{All, All-append}
use jackalope.Sample.{Sample, content}
use jackalope.Mutators.Deterministic.{
  Region, Context, deterministic_byte_flip, deterministic_interesting_value, add_hot_offset,
}
use jackalope.Mutators.Deterministic.Pending.{counting, row, rows, rows_left, pending_from, pending}
use jackalope.Mutators.Combinators.{Child, sequence_mutate, sequence_hot}

-- The entry's sample, the contexts of the two children, and the contents of the mutated samples with
-- which Mutate has returned true, in their order.
pub record Stage : Type 0 where
  pub sample : Sample
  pub flips : Context
  pub values : Context
  pub mutated : List Bytes

abbrev pub with_mutated : Bool → Sample → List Bytes → List Bytes
with_mutated true t samples = samples ++ (content t ∷ [])
with_mutated false t samples = samples

-- The call of each child on a copy of the sample.
unfoldable pub flip_child : Child Stage
flip_child s = do
  r ← deterministic_byte_flip s.sample s.flips
  some (r.0, record s { flips = r.2; mutated = with_mutated r.0 r.1 s.mutated })

unfoldable pub value_child : List Sample → Child Stage
value_child interesting_values s = do
  r ← deterministic_interesting_value interesting_values s.sample s.values
  some (r.0, record s { values = r.2; mutated = with_mutated r.0 r.1 s.mutated })

abbrev pub stage : List Sample → Child (ℕ × Stage)
stage interesting_values = sequence_mutate (flip_child ∷ (value_child interesting_values ∷ []))

-- AddHotOffset of the sequence, which goes to both children and starts from the first one again.
unfoldable pub stage_hot : ℕ → ℕ × Stage → ℕ × Stage
stage_hot offset (i, s) = (
  sequence_hot true i,
  record s { flips = add_hot_offset offset s.flips; values = add_hot_offset offset s.values },
)

-- Values below the bound.
abbrev pub Below : ℕ → ℕ × ℕ → Type 0
Below max p = p.1 < max

pub counting-Below :
    (max pos from n : ℕ) → n ≤ max - from → All (Below max) (map (λ v. (pos, v)) (counting from n))
counting-Below max pos from zero h = tt
counting-Below max pos from (suc n) h =
    (omega arith, counting-Below max pos (suc from) n (omega arith))

pub row-Below : (max pos from : ℕ) → All (Below max) (row max pos from)
row-Below max pos from = counting-Below max pos from (max - from) (omega arith)

pub rows-Below : (max pos n : ℕ) → All (Below max) (rows max pos n)
rows-Below max pos zero = tt
rows-Below max pos (suc n) =
    All-append (Below max) (row max pos 0) (rows max (suc pos) n) (row-Below max pos 0)
      (rows-Below max (suc pos) n)

pub rows_left-Below : (max : ℕ) (r : Region) → All (Below max) (rows_left max r)
unfolding rows_left
rows_left-Below max r = elim (Bool-cases (ltb r.cur r.end)) [
  | inl h ↦ rw h (
      All-append (Below max) (row max r.cur r.cur_progress)
        (rows max (suc r.cur) (r.end - suc r.cur)) (row-Below max r.cur r.cur_progress)
        (rows-Below max (suc r.cur) (r.end - suc r.cur)))
  | inr h ↦ rw h tt
]

pub pending_from-Below : (max i : ℕ) (rs : List Region) → All (Below max) (pending_from max i rs)
unfolding pending_from
pending_from-Below max i [] = tt
pending_from-Below max zero (r ∷ rs) =
    All-append (Below max) (rows_left max r) (pending_from max 0 rs) (rows_left-Below max r)
      (pending_from-Below max 0 rs)
pending_from-Below max (suc i) (r ∷ rs) = pending_from-Below max i rs

pub pending-Below : (max : ℕ) (c : Context) → All (Below max) (pending max c)
unfolding pending
pending-Below max c = pending_from-Below max c.cur_region c.regions

abbrev pub flips_left : Stage → ℕ
flips_left s = length (pending 256 s.flips)

abbrev pub values_left : List Sample → Stage → ℕ
values_left interesting_values s = length (pending (length interesting_values) s.values)
