-- ===== src/Mutators/Deterministic/Effects.antt =====
-- mutator.cpp, the deterministic mutators: what a call makes of the sample.
use jackalope.Prelude.{
  ℕ, ◌+◌, ◌-◌, ◌≤◌, ◌<◌, ◌≡◌, refl, ap, ◌∙◌, sym, subst, inl, inr, Option, none, some, List, [],
  ◌∷◌, ◌++◌, true, ltb, length, take, replicate, get_elem?, take_all, append-nil, Bool-cases,
  Option-cases, arith,
}
use jackalope.Prelude.Memory.{Bytes, read_block, read_block_lem, write_block_lem}
use jackalope.Sample.{Sample, content, IsValid}
use jackalope.Sample.Contents.{resize_lem}
use jackalope.Mutators.Blocks.{replaced, length-replaced}
use jackalope.Mutators.Deterministic.{
  Context, make_room, store_at, get_next_byte, flip_found, put_found, deterministic_byte_flip,
  deterministic_interesting_value,
}
use jackalope.Mutators.Deterministic.Pending.{pending, Splits, get_next_byte-Splits}

-- The bytes of a sample, with zeros up to a size.
abbrev pub padded : Sample → ℕ → Bytes
padded s end = content s ++ replicate (end - s.size) 0

make_room_lem :
    (end : ℕ) (s : Sample)
    → IsValid s
    → (t : Sample) × (make_room end s ≡ some t)
      × (content t ≡ padded s end)
      × IsValid t
      × (end ≤ t.size)
make_room_lem end s v = elim (Bool-cases (ltb s.size end)) [
  | inl short ↦
      let (t, e, c, size, valid) = resize_lem s end v in
      let all : take end (content s) ≡ content s =
        take_all (content s) end (ground (arith, short)) in
      (
        t,
        rw short e,
        c ∙ ap (λ (b : Bytes). b ++ replicate (end - s.size) 0) all,
        valid,
        omega (arith, size),
      )
  | inr enough ↦
      let none_left : end - s.size ≡ 0 = ground (arith, enough) in
      (
        s,
        rw enough refl,
        sym (ap (λ (n : ℕ). content s ++ replicate n 0) none_left ∙ append-nil (content s)),
        v,
        ground (arith, enough),
      )
]

pub store_at_lem :
    (pos : ℕ) (value : Bytes) (s : Sample)
    → IsValid s
    → (t : Sample) × (store_at pos value s ≡ some t)
      × IsValid t
      × (content t ≡ replaced (padded s (pos + length value)) pos value)
unfolding store_at
store_at_lem pos value s v =
    let (t, e, c, valid, room) = make_room_lem (pos + length value) s v in
    (
      record t { bytes = some (replaced (content t) pos value) },
      rw (e, write_block_lem (content t) pos value (omega arith)) refl,
      omega (arith, length-replaced (content t) pos value (omega arith)),
      ap (λ (b : Bytes). replaced b pos value) c,
    )

-- The pair at the head of a list of pending pairs is the one that the call finds.
pub found_first :
    (max : ℕ) (c : Context) {p : ℕ × ℕ} {rest : List (ℕ × ℕ)}
    → 0 < max
    → pending max c ≡ p ∷ rest
    → ((get_next_byte max c).found ≡ some p) × (pending max (get_next_byte max c).context ≡ rest)
found_first max c {p} {rest} h e = elim (Option-cases (get_next_byte max c).found) [
  | inl none_found ↦
      let s : Splits (pending max c) none (pending max (get_next_byte max c).context) =
        subst
          (λ (o : Option (ℕ × ℕ)).
            Splits (pending max c) o (pending max (get_next_byte max c).context))
          none_found (get_next_byte-Splits max c h) in
      let f = s.0 in cc
  | inr (q, one_found) ↦
      let s : Splits (pending max c) (some q) (pending max (get_next_byte max c).context) =
        subst
          (λ (o : Option (ℕ × ℕ)).
            Splits (pending max c) o (pending max (get_next_byte max c).context))
          one_found (get_next_byte-Splits max c h) in
      (cc, cc)
]

-- DeterministicByteFlipMutator on a valid sample, where the next pending pair is a position and a
-- value: it returns true, the sample has the value at the position, its other bytes as they were,
-- and zeros where it had to grow; it is valid, and the pair is no longer pending.
pub deterministic_byte_flip_lem :
    (s : Sample) (c : Context) (pos value : ℕ) (rest : List (ℕ × ℕ))
    → IsValid s
    → pending 256 c ≡ (pos, value) ∷ rest
    → (t : Sample) × (c' : Context) × (deterministic_byte_flip s c ≡ some (true, t, c'))
      × (content t ≡ replaced (padded s (pos + 1)) pos (value ∷ []))
      × IsValid t
      × (pending 256 c' ≡ rest)
unfolding deterministic_byte_flip
deterministic_byte_flip_lem s c pos value rest v e =
    let (found, left) = found_first 256 c (omega arith) e in
    let (t, stored, valid, same) = store_at_lem pos (value ∷ []) s v in
    (
      t,
      (get_next_byte 256 c).context,
      ap (λ (o : Option (ℕ × ℕ)). flip_found s o (get_next_byte 256 c).context) found
          ∙ rw stored refl,
      same,
      valid,
      left,
    )

-- DeterministicInterestingValueMutator on a valid sample, where the next pending pair is a position
-- and the index of a valid interesting value: the same, with the bytes of that value.
pub deterministic_interesting_value_lem :
    (values : List Sample) (s v : Sample) (c : Context) (pos index : ℕ) (rest : List (ℕ × ℕ))
    → IsValid s
    → IsValid v
    → get_elem? values index ≡ some v
    → pending (length values) c ≡ (pos, index) ∷ rest
    → (t : Sample) × (c' : Context) × (deterministic_interesting_value values s c
        ≡ some (true, t, c'))
      × (content t ≡ replaced (padded s (pos + length (content v))) pos (content v))
      × IsValid t
      × (pending (length values) c' ≡ rest)
unfolding deterministic_interesting_value
deterministic_interesting_value_lem [] s v c pos index rest valid valid_v at e = cc
deterministic_interesting_value_lem (w ∷ values) s v c pos index rest valid valid_v at e =
    let (found, left) = found_first (length (w ∷ values)) c (omega arith) e in
    let (t, stored, valid', same) = store_at_lem pos (content v) s valid in
    let whole : read_block (content v) 0 v.size ≡ some (content v) =
      read_block_lem (content v) 0 v.size (omega arith)
      ∙ ap (λ (b : Bytes). some b) (take_all (content v) v.size (omega arith)) in
    (
      t,
      (get_next_byte (length (w ∷ values)) c).context,
      ap
            (λ (o : Option (ℕ × ℕ)).
              put_found (w ∷ values) s o (get_next_byte (length (w ∷ values)) c).context)
            found
          ∙ rw (at, whole, stored) refl,
      same,
      valid',
      left,
    )
