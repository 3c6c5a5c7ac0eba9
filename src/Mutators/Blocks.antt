-- ===== src/Mutators/Blocks.antt =====
-- What the mutators of blocks make of a sample, and that they stay inside its buffer and below the
-- greatest size.
use jackalope.Prelude.{
  ℕ, ◌+◌, ◌-◌, ◌≤◌, ◌<◌, ◌≡◌, ◌⊎◌, inl, inr, refl, sym, ap, subst, ◌∙◌, some, [], ◌∷◌, ◌++◌, Bool,
  false, leb, ◌==◌, length, take, drop, length-append, length-take, length-drop, append-nil,
  Bool-cases, arith,
}
use jackalope.Prelude.Memory.{Bytes, write_block, write_block_lem}
use jackalope.Sample.{Sample, content, IsValid, realloc}
use jackalope.Sample.Contents.{grow_lem}
use jackalope.Mutators.{
  Prng, rand, random_bytes, get_rand_block, flip_bytes, flip_block, block_flip, fit, append_mutate,
  byte_flip,
}
use jackalope.Mutators.Bounds.{rand_lem, length-random_bytes, length-flip_bytes, get_rand_block_lem}

-- The bytes from `pos` on are replaced by `new`.
abbrev pub replaced : Bytes → ℕ → Bytes → Bytes
replaced b pos new = take pos b ++ (new ++ drop (pos + length new) b)

pub length-replaced :
    (b : Bytes) (pos : ℕ) (new : Bytes)
    → pos + length new ≤ length b
    → length (replaced b pos new) ≡ length b
length-replaced b pos new h = omega (
  arith,
  length-append (take pos b) (new ++ drop (pos + length new) b),
  length-append new (drop (pos + length new) b),
  length-take pos b,
  length-drop (pos + length new) b,
)

-- ByteFlipMutator on a valid sample of a byte at least stays inside the buffer, and replaces
-- one byte inside the sample.
pub byte_flip_lem :
    (s : Sample) (prng : Prng)
    → IsValid s
    → 1 ≤ s.size
    → (pos : ℕ) × (c : ℕ) × (prng' : Prng) × (pos < s.size)
      × (byte_flip s prng
          ≡ some (record s { bytes = some (replaced (content s) pos (c ∷ [])) }, prng'))
unfolding byte_flip
byte_flip_lem s prng v h =
    let pos = rand 0 (s.size - 1) prng in
    let c = rand 0 255 pos.1 in
    let b = rand_lem 0 (s.size - 1) prng (omega arith) in
    let full : (s.size == 0) ≡ false = ground arith in
    (
      pos.0,
      c.0,
      c.1,
      omega (arith, b),
      rw (full, write_block_lem (content s) pos.0 (c.0 ∷ []) (omega (arith, b))) refl,
    )

-- BlockFlipMutator on a valid sample stays inside the buffer. The sample stays as it is, or a block
-- inside it, of a size in the mutator's bounds, is replaced by as many bytes.
pub block_flip_lem :
    (uniform : Bool) (lo hi : ℕ) (s : Sample) (prng : Prng)
    → IsValid s
    → lo ≤ hi
    → (prng' : Prng) × ((block_flip uniform lo hi s prng ≡ some (s, prng'))
        ⊎ ((pos : ℕ) × (new : Bytes) × (pos + length new ≤ s.size)
            × (lo ≤ length new)
            × (length new ≤ hi)
            × (block_flip uniform lo hi s prng
                ≡ some (record s { bytes = some (replaced (content s) pos new) }, prng'))))
unfolding block_flip
block_flip_lem uniform lo hi s prng v h =
    let g = get_rand_block s.size lo hi prng in
    elim (get_rand_block_lem s.size lo hi prng h) [
      | inl refused ↦ (g.1, inl (ap (λ o. flip_block uniform s (o, g.1)) refused))
      | inr (pos, n, e, inside, low, high) ↦
          let new = flip_bytes uniform n g.1 in
          let size = length-flip_bytes uniform n g.1 in
          (
            new.1,
            inr (
              pos,
              new.0,
              omega (arith, size),
              omega (arith, size),
              omega (arith, size),
              ap (λ o. flip_block uniform s (o, g.1)) e
                  ∙ rw (write_block_lem (content s) pos new.0 (omega (arith, size))) refl,
            ),
          )
    ]

-- AppendMutator on a valid sample up to the greatest size, with bounds in order, stays inside the
-- new buffer. It puts some bytes behind the sample, at most as many as its bound says, and stays
-- within the greatest size.
pub append_mutate_lem :
    (max_size lo hi : ℕ) (s : Sample) (prng : Prng)
    → IsValid s
    → s.size ≤ max_size
    → lo ≤ hi
    → (t : Sample) × (new : Bytes) × (prng' : Prng) × (append_mutate max_size lo hi s prng
        ≡ some (t, prng'))
      × (content t ≡ content s ++ new)
      × IsValid t
      × (length new ≤ hi)
      × (t.size ≤ max_size)
unfolding append_mutate
append_mutate_lem max_size lo hi s prng v h o = elim (Bool-cases (leb max_size s.size)) [
  | inl full ↦ (s, [], prng, rw full refl, sym (append-nil (content s)), v, omega arith, h)
  | inr room ↦
      let n = rand lo hi prng in
      let b = rand_lem lo hi prng o in
      let k = fit max_size s.size n.0 in
      elim (Bool-cases (k == 0)) [
        | inl nothing ↦
            (s, [], n.1, rw (room, nothing) refl, sym (append-nil (content s)), v, omega arith, h)
        | inr something ↦
            let new = random_bytes k n.1 in
            let size = length-random_bytes k n.1 in
            let grown : write_block (realloc (content s) (s.size + k)) s.size new.0
                ≡ some (content s ++ new.0) =
              subst
                (λ m. write_block (realloc (content s) (m + k)) m new.0 ≡ some (content s ++ new.0))
                v (grow_lem (content s) new.0 (length (content s) + k) (omega (arith, size))) in
            (
              record s { bytes = some (content s ++ new.0); size = s.size + k },
              new.0,
              new.1,
              rw (room, something, grown) refl,
              refl,
              omega (arith, length-append (content s) new.0, size),
              ground (arith, b, size),
              ground arith,
            )
      ]
]
