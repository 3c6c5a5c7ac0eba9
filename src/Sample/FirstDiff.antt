-- ===== src/Sample/FirstDiff.antt =====
-- Sample::FindFirstDiff finds the place where two samples part.
use native.Mathlib.Numerals.{add-one}
use jackalope.Prelude.{
  ℕ, zero, suc, ◌+◌, ◌≤◌, ◌<◌, ◌≡◌, refl, ◌≢◌, ◌⊎◌, inl, inr, some, [], ◌∷◌, ltb, ◌==◌,
  if◌then◌else◌, length, take, get_elem?, Bool-cases, arith,
}
use jackalope.Prelude.Memory.{Bytes}
use jackalope.Sample.{Sample, content, IsValid, find_first_diff_loop, find_first_diff}

-- Two lists agree before `i` and part at `i`, or one of them ends there.
pub record PartAt (a b : Bytes) (i : ℕ) : Type 0 where
  pub same : take i a ≡ take i b
  pub in_first : i ≤ length a
  pub in_second : i ≤ length b
  pub parted : (i ≡ length a) ⊎ ((i ≡ length b) ⊎ (get_elem? a i ≢ get_elem? b i))

get_elem?_inside : (a : Bytes) (i : ℕ) → i < length a → (x : ℕ) × (get_elem? a i ≡ some x)
get_elem?_inside [] i h = absurd (omega arith)
get_elem?_inside (x ∷ a) zero h = (x, refl)
get_elem?_inside (x ∷ a) (suc i) h = get_elem?_inside a i (omega arith)

take-suc_eq :
    (i x : ℕ) (a b : Bytes)
    → take i a ≡ take i b
    → get_elem? a i ≡ some x
    → get_elem? b i ≡ some x
    → take (suc i) a ≡ take (suc i) b
take-suc_eq i x [] b p q r = cc
take-suc_eq i x (y ∷ a) [] p q r = cc
take-suc_eq zero x (y ∷ a) (z ∷ b) p q r = ground arith
take-suc_eq (suc i) x (y ∷ a) (z ∷ b) p q r = ground (arith, take-suc_eq i x a b (ground arith) q r)

-- The loop stays inside both buffers, and ends where they part.
find_first_diff_loop_lem :
    (n i : ℕ) (a b : Bytes)
    → i + n ≤ length a
    → i + n ≤ length b
    → (i + n ≡ length a) ⊎ (i + n ≡ length b)
    → take i a ≡ take i b
    → (j : ℕ) × (find_first_diff_loop n i a b ≡ some j) × PartAt a b j
unfolding find_first_diff_loop
find_first_diff_loop_lem zero i a b ha hb end p = (
  i,
  refl,
  record { same = p; in_first = omega arith; in_second = omega arith; parted = ground arith },
)
find_first_diff_loop_lem (suc n) i a b ha hb end p =
    let (x, px) = get_elem?_inside a i (omega arith) in
    let (y, py) = get_elem?_inside b i (omega arith) in
    elim (Bool-cases (x == y)) [
      | inl same ↦
          let e : y ≡ x = ground arith in
          let step : take (i + 1) a ≡ take (i + 1) b = rw add-one (take-suc_eq i x a b p px (cc)) in
          let (j, found, part) =
            find_first_diff_loop_lem n (i + 1) a b (omega arith) (omega arith) (omega arith) step in
          (j, rw (px, py) (ground (arith, found)), part)
      | inr differ ↦ (
        i,
        ground arith,
        record {
          same = p;
          in_first = omega arith;
          in_second = omega arith;
          parted = inr (inr λ e. ground arith);
        },
      )
    ]

-- On valid samples FindFirstDiff reads inside both buffers, and returns the index before which
-- their bytes agree and at which they differ or the shorter one ends.
pub find_first_diff_parts :
    (s t : Sample)
    → IsValid s
    → IsValid t
    → (i : ℕ) × (find_first_diff s t ≡ some i) × PartAt (content s) (content t) i
unfolding find_first_diff
find_first_diff_parts s t vs vt =
    find_first_diff_loop_lem (if ltb t.size s.size then t.size else s.size) 0 (content s)
      (content t) (ground arith) (ground arith) (ground arith) refl
