-- ===== src/Mutators/Bounds.antt =====
-- The bounds of the random choices.
use jackalope.Prelude.{
  ℕ, zero, suc, ◌+◌, ◌-◌, ◌%◌, ◌^◌, ◌≤◌, ◌<◌, ◌≡◌, ◌⊎◌, inl, inr, refl, ap, none, some, Bool, true,
  false, ltb, ◌==◌, if◌then◌else◌, length, length-replicate, Bool-cases, arith,
}
use native.Mathlib.Nat.{mod-lt}
use jackalope.Mutators.{Prng, rand, random_bytes, get_rand_block, flip_bytes}

pub rand_lem :
    (lo hi : ℕ) (prng : Prng) → lo ≤ hi → (lo ≤ (rand lo hi prng).0) × ((rand lo hi prng).0 ≤ hi)
unfolding rand
rand_lem lo hi prng h = elim (Bool-cases (lo == hi)) [
  | inl equal ↦ (ground (arith, equal), ground (arith, equal))
  | inr differ ↦
      let m : (prng.numbers prng.given % 2 ^ 32) % (hi - lo + 1) < hi - lo + 1 =
        mod-lt (prng.numbers prng.given % 2 ^ 32) (omega arith) in
      (rw differ (omega arith), rw differ (omega (arith, m)))
]

pub length-random_bytes : (n : ℕ) (prng : Prng) → length (random_bytes n prng).0 ≡ n
unfolding random_bytes
length-random_bytes zero prng = refl
length-random_bytes (suc n) prng = ap suc (length-random_bytes n (rand 0 255 prng).1)

pub length-flip_bytes : (u : Bool) (n : ℕ) (prng : Prng) → length (flip_bytes u n prng).0 ≡ n
length-flip_bytes true n prng = length-replicate {A = ℕ} n (rand 0 255 prng).0
length-flip_bytes false n prng = length-random_bytes n prng

-- A block that GetRandBlock gives lies in the sample and has a size in the given bounds.
pub get_rand_block_lem :
    (size lo hi : ℕ) (prng : Prng)
    → lo ≤ hi
    → ((get_rand_block size lo hi prng).0 ≡ none)
      ⊎ ((start : ℕ) × (n : ℕ) × ((get_rand_block size lo hi prng).0 ≡ some (start, n))
          × (start + n ≤ size)
          × (lo ≤ n)
          × (n ≤ hi))
unfolding get_rand_block
get_rand_block_lem size lo hi prng h = elim (Bool-cases (size == 0)) [
  | inl empty ↦ inl (rw empty refl)
  | inr full ↦ elim (Bool-cases (ltb size lo)) [
    | inl small ↦ inl (rw (full, small) refl)
    | inr large ↦
        let top = if ltb size hi then size else hi in
        let n = rand lo top prng in
        let b = rand_lem lo top prng (ground arith) in
        let start = rand 0 (size - n.0) n.1 in
        let s = rand_lem 0 (size - n.0) n.1 (omega arith) in
        inr (start.0, n.0, rw (full, large) refl, ground (arith, b, s), b.0, ground (arith, b))
  ]
]
