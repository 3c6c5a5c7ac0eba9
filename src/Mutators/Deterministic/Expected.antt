-- ===== src/Mutators/Deterministic/Expected.antt =====
-- What the deterministic stage is to do for a hot offset, and what a call of the byte flip does of it.
use jackalope.Prelude.{
  ℕ, zero, suc, ◌+◌, ◌-◌, ◌*◌, ◌<◌, ◌≡◌, refl, ap, ◌∙◌, sym, subst, inl, inr, Option, none, some,
  List, [], ◌∷◌, ◌++◌, get_elem?, true, false, length, map, length-append, append-nil, Option-cases,
  arith,
}
use jackalope.Sample.{Sample, content, IsValid}
use jackalope.Prelude.Memory.{Bytes}
use jackalope.Mutators.Blocks.{replaced}
use jackalope.Mutators.Deterministic.{
  Context, get_next_byte, flip_found, deterministic_byte_flip, create_context, add_hot_offset,
  region_start, bytes_next, new_region, put_region,
}
use jackalope.Mutators.Deterministic.Pending.{
  rows_left_live, rows_next, counting, row, rows, rows_left, pending_from, pending, Splits,
  get_next_byte-Splits,
}
use jackalope.Mutators.Deterministic.Effects.{padded, deterministic_byte_flip_lem}
use jackalope.Mutators.Deterministic.Stage.{Stage, flip_child, flips_left}

pub length_none : {A : Type 0} (l : List A) → length l ≡ 0 → l ≡ []
length_none [] h = refl
length_none (x ∷ l) h = absurd (omega arith)

pub length_some :
    {A : Type 0} (l : List A) (n : ℕ)
    → length l ≡ suc n
    → (x : A) × (m : List A) × (l ≡ x ∷ m) × (length m ≡ n)
length_some [] n h = absurd (omega arith)
length_some (x ∷ l) n h = (x, l, refl, omega arith)

-- A call with nothing pending returns false, and nothing is pending after it.
pub found_none :
    (max : ℕ) (c : Context)
    → 0 < max
    → pending max c ≡ []
    → ((get_next_byte max c).found ≡ none) × (pending max (get_next_byte max c).context ≡ [])
found_none max c h e = elim (Option-cases (get_next_byte max c).found) [
  | inl f ↦
      let s : Splits (pending max c) none (pending max (get_next_byte max c).context) =
        subst
          (λ (o : Option (ℕ × ℕ)).
            Splits (pending max c) o (pending max (get_next_byte max c).context))
          f (get_next_byte-Splits max c h) in
      (f, s.1)
  | inr (q, f) ↦
      let s : Splits (pending max c) (some q) (pending max (get_next_byte max c).context) =
        subst
          (λ (o : Option (ℕ × ℕ)).
            Splits (pending max c) o (pending max (get_next_byte max c).context))
          f (get_next_byte-Splits max c h) in
      cc
]

pub flip_done :
    (s : Stage)
    → pending 256 s.flips ≡ []
    → (c : Context) × (flip_child s ≡ some (false, record s { flips = c })) × (pending 256 c ≡ [])
unfolding flip_child deterministic_byte_flip
flip_done s e =
    let (f, g) = found_none 256 s.flips (omega arith) e in
    let c = (get_next_byte 256 s.flips).context in
    let r : flip_found s.sample (get_next_byte 256 s.flips).found c ≡ some (false, s.sample, c) =
      ap (λ (o : Option (ℕ × ℕ)). flip_found s.sample o c) f in
    (c, rw r refl, g)

-- The sample with a byte stored at a position, after zeros up to there where it is shorter.
abbrev pub flip_of : Sample → ℕ × ℕ → Bytes
flip_of s (pos, value) = replaced (padded s (pos + 1)) pos (value ∷ [])

pub flip_more :
    (s : Stage) (n : ℕ)
    → IsValid s.sample
    → flips_left s ≡ suc n
    → (p : ℕ × ℕ) × (c : Context) × (flip_child s
        ≡ some (true, record s { flips = c; mutated = s.mutated ++ (flip_of s.sample p ∷ []) }))
      × (pending 256 s.flips ≡ p ∷ pending 256 c)
      × (length (pending 256 c) ≡ n)
unfolding flip_child
flip_more s n v e =
    let ((pos, value), rest, f, k) = length_some (pending 256 s.flips) n e in
    let (t, c, r, same, valid, left) =
      deterministic_byte_flip_lem s.sample s.flips pos value rest v f in
    let l : length (pending 256 c) ≡ length rest = ap (λ (l : List (ℕ × ℕ)). length l) left in
    (
      (pos, value),
      c,
      rw (r, same) refl,
      f ∙ ap (λ (l : List (ℕ × ℕ)). (pos, value) ∷ l) (sym left),
      omega (arith, l, k),
    )

abbrev pub new_stage : Sample → ℕ × Stage
new_stage s =
    (0, record { sample = s; flips = create_context; values = create_context; mutated = [] })

length-counting : {A : Type 0} (f : ℕ → A) (a n : ℕ) → length (map f (counting a n)) ≡ n
length-counting f a zero = refl
length-counting f a (suc n) = ap suc (length-counting f (suc a) n)

pub length-rows : (max pos n : ℕ) → length (rows max pos n) ≡ n * max
length-rows max pos zero = omega arith
length-rows max pos (suc n) =
    let f : suc n * max ≡ max + n * max = grind arith in
    omega (
      arith,
      length-append (row max pos 0) (rows max (suc pos) n),
      length-counting {A = ℕ × ℕ} (λ v. (pos, v)) 0 (max - 0),
      length-rows max (suc pos) n,
      f,
    )

-- The places around a hot offset: from 3 before it, or from 0, to 19 behind it.
abbrev pub first_place : ℕ → ℕ
first_place offset = offset - 3

abbrev pub places : ℕ → ℕ
places offset = offset + 20 - (offset - 3)

pub pending_new :
    (max offset : ℕ)
    → pending max (add_hot_offset offset create_context)
      ≡ rows max (first_place offset) (places offset)
unfolding pending pending_from add_hot_offset put_region
pending_new max offset =
    let a = region_start offset in
    let b = offset + bytes_next in
    let start : a ≡ offset - 3 = ground arith in
    append-nil (rows_left max (new_region a b))
    ∙ rows_left_live max (new_region a b) (ground arith)
    ∙ sym (rows_next max a b (ground arith))
    ∙ ap (λ (k : ℕ). rows max k (b - k)) start

-- The sample with an interesting value stored at a position.
abbrev pub value_at : Sample → ℕ → Option Sample → Bytes
value_at s pos none = []
value_at s pos (some v) = replaced (padded s (pos + length (content v))) pos (content v)

abbrev pub value_of : List Sample → Sample → ℕ × ℕ → Bytes
value_of interesting_values s (pos, index) = value_at s pos (get_elem? interesting_values index)

-- The mutated samples of the stage for one hot offset: each byte value at each place, then each
-- interesting value at each place.
abbrev pub expected : List Sample → Sample → ℕ → List Bytes
expected interesting_values s offset =
    map (flip_of s) (rows 256 (first_place offset) (places offset))
    ++ map (value_of interesting_values s)
        (rows (length interesting_values) (first_place offset) (places offset))

-- What has been handed out, and what is to come.
abbrev pub Accounts : List Sample → List Bytes → Stage → Type 0
Accounts interesting_values total s =
    IsValid s.sample
    × (s.mutated
          ++ (map (flip_of s.sample) (pending 256 s.flips)
              ++ map (value_of interesting_values s.sample)
                  (pending (length interesting_values) s.values))
        ≡ total)
