-- ===== src/Mutators/Arithmetic/Change.antt =====
-- What ArithmeticMutator makes of a sample.
use jackalope.Prelude.{
  ℕ, zero, suc, [], ◌∷◌, ◌+◌, ◌-◌, ◌^◌, ◌≤◌, ◌<◌, ◌≡◌, ◌⊎◌, inl, inr, refl, ap, ◌∙◌, some, Bool,
  ◌==◌, length, take, drop, Bool-cases, arith,
}
use native.Mathlib.Nat.{mod-lt}
use jackalope.Prelude.Memory.{
  Bytes, load_le, length-store_le, read_block_lem, write_block_lem, length-take-drop,
}
use jackalope.Sample.{Sample, content, IsValid}
use jackalope.Mutators.{Prng, rand, get_rand_block}
use jackalope.Mutators.Bounds.{rand_lem, get_rand_block_lem}
use jackalope.Mutators.Blocks.{replaced}
use jackalope.Mutators.Arithmetic.{
  flipped, changed, new_bytes, change_block, mutate_arithmetic_value, type_size, arithmetic_mutate,
}
use jackalope.Mutators.Arithmetic.Bytewise.{AreBytes, number, number-load, number-store}

AreBytes-drop : (n : ℕ) (b : Bytes) → AreBytes b → AreBytes (drop n b)
AreBytes-drop zero b h = h
AreBytes-drop (suc n) [] h = tt
AreBytes-drop (suc n) (x ∷ b) h = AreBytes-drop n b h.1

AreBytes-take : (n : ℕ) (b : Bytes) → AreBytes b → AreBytes (take n b)
AreBytes-take zero b h = tt
AreBytes-take (suc n) [] h = tt
AreBytes-take (suc n) (x ∷ b) h = (h.0, AreBytes-take n b h.1)

pow_pos : (k : ℕ) → 0 < 256 ^ k
pow_pos zero = omega arith
pow_pos (suc k) = omega (arith, pow_pos k)

-- The new bytes are the old number, changed, in the same order of bytes.
number-new_bytes :
    (flip : Bool) (k change : ℕ) (block : Bytes)
    → length block ≡ k
    → AreBytes block
    → number flip (new_bytes flip k change block) ≡ changed k change (number flip block)
number-new_bytes flip k change block e h =
    number-store flip k (changed k change (flipped flip k (load_le block)))
      (mod-lt (flipped flip k (load_le block) + 256 ^ k + change - 256) (pow_pos k))
    ∙ ap (changed k change) (number-load flip k block e h)

-- A type's worth of bytes is changed.
pub record IsChanged (s : Sample) (t : Sample) : Type 0 where
  pub flip : Bool
  pub k : ℕ
  pub pos : ℕ
  pub change : ℕ
  pub new : Bytes
  pub sizes : (k ≡ 2) ⊎ ((k ≡ 4) ⊎ (k ≡ 8))
  pub inside : pos + k ≤ s.size
  pub width : length new ≡ k
  pub small : change ≤ 512
  pub value : number flip new ≡ changed k change (number flip (take k (drop pos (content s))))
  pub result : t ≡ record s { bytes = some (replaced (content s) pos new) }

type_size-cases : (n : ℕ) → (type_size n ≡ 2) ⊎ ((type_size n ≡ 4) ⊎ (type_size n ≡ 8))
type_size-cases n = elim (Bool-cases (n == 0)) [
  | inl e ↦ inl (rw e refl)
  | inr e ↦ elim (Bool-cases (n == 1)) [
    | inl f ↦ inr (inl (rw (e, f) refl))
    | inr f ↦ inr (inr (rw (e, f) refl))
  ]
]

change_block-IsChanged :
    (flip : Bool) (k pos : ℕ) (s : Sample) (prng : Prng)
    → IsValid s
    → AreBytes (content s)
    → (k ≡ 2) ⊎ ((k ≡ 4) ⊎ (k ≡ 8))
    → pos + k ≤ s.size
    → (t : Sample) × (prng' : Prng) × (change_block flip k s (some (pos, k), prng)
        ≡ some (t, prng'))
      × IsChanged s t
change_block-IsChanged flip k pos s prng v h sizes inside =
    let c = rand 0 512 prng in
    let block = take k (drop pos (content s)) in
    let new = new_bytes flip k c.0 block in
    let wide : length new ≡ k =
      length-store_le k (flipped flip k (changed k c.0 (flipped flip k (load_le block)))) in
    let read = read_block_lem (content s) pos k (omega arith) in
    let write = write_block_lem (content s) pos new (omega (arith, wide)) in
    let t = record s { bytes = some (replaced (content s) pos new) } in
    (
      t,
      c.1,
      rw (read, write) refl,
      record {
        flip = flip;
        k = k;
        pos = pos;
        change = c.0;
        new = new;
        sizes = sizes;
        inside = inside;
        width = wide;
        small = (rand_lem 0 512 prng (omega arith)).1;
        value =
            number-new_bytes flip k c.0 block (length-take-drop (content s) pos k (omega arith))
              (AreBytes-take k (drop pos (content s)) (AreBytes-drop pos (content s) h));
        result = refl;
      },
    )

-- ArithmeticMutator on a valid sample of bytes stays inside the buffer. The sample stays as it is,
-- or 2, 4 or 8 bytes inside it are replaced: the number that they are, in one of the orders of
-- bytes, becomes the number less 256 plus a change of up to 512, wrapped around to the size of
-- the bytes.
pub arithmetic_mutate_lem :
    (s : Sample) (prng : Prng)
    → IsValid s
    → AreBytes (content s)
    → (prng' : Prng) × ((arithmetic_mutate s prng ≡ some (s, prng'))
        ⊎ ((t : Sample) × (arithmetic_mutate s prng ≡ some (t, prng')) × IsChanged s t))
unfolding arithmetic_mutate mutate_arithmetic_value
arithmetic_mutate_lem s prng v h =
    let flip = rand 0 1 prng in
    let size = rand 0 2 flip.1 in
    let k = type_size size.0 in
    let g = get_rand_block s.size k k size.1 in
    elim (get_rand_block_lem s.size k k size.1 (omega arith)) [
      | inl refused ↦ (g.1, inl (ap (λ o. change_block (flip.0 == 1) k s (o, g.1)) refused))
      | inr (pos, n, e, inside, low, high) ↦
          let same : n ≡ k = omega arith in
          let (t, prng', r, c) =
            change_block-IsChanged (flip.0 == 1) k pos s g.1 v h (type_size-cases size.0)
              (omega arith) in
          (
            prng',
            inr (
              t,
              ap (λ o. change_block (flip.0 == 1) k s (o, g.1))
                    (e ∙ ap (λ (m : ℕ). some (pos, m)) same)
                  ∙ r,
              c,
            ),
          )
    ]
