-- ===== src/Mutators/Insert.antt =====
-- What BlockInsertMutator (mutator.cpp) makes of a sample.
use jackalope.Prelude.{
  ℕ, suc, ◌+◌, ◌-◌, ◌≤◌, ◌≡◌, inl, inr, refl, sym, ap, ◌∙◌, some, [], ◌∷◌, ◌++◌, false, leb, ◌==◌,
  length, take, drop, replicate, length-append, length-take, length-drop, length-replicate,
  take_all, take-append_length, drop_all, append_assoc, append-nil, Bool-cases, arith,
}
use jackalope.Prelude.Memory.{Bytes, read_block, read_block_lem, write_block, write_block_lem}
use jackalope.Sample.{Sample, content, IsValid}
use jackalope.Mutators.{Prng, rand, random_bytes, fit, insert_block, block_insert}
use jackalope.Mutators.Bounds.{rand_lem, length-random_bytes}

-- A write behind what has been written.
write_next :
    (head rest new : Bytes)
    → length new ≤ length rest
    → write_block (head ++ rest) (length head) new ≡ some ((head ++ new) ++ drop (length new) rest)
write_next head rest new h =
    write_block_lem (head ++ rest) (length head) new (omega (arith, length-append head rest))
    ∙ ap some (
        ap (λ b. b ++ (new ++ drop (length head + length new) (head ++ rest)))
          (take-append_length head rest (length head) refl)
        ∙ ap (λ b. head ++ (new ++ b)) (drop_more head rest (length new))
        ∙ sym (append_assoc head new (drop (length new) rest)))
  where
    drop_more : (xs ys : Bytes) (n : ℕ) → drop (length xs + n) (xs ++ ys) ≡ drop n ys
    drop_more [] ys n = let e : 0 + n ≡ n = omega arith in ap (λ k. drop k ys) e
    drop_more (x ∷ xs) ys n =
        let e : suc (length xs) + n ≡ suc (length xs + n) = omega arith in
        ap (λ k. drop k (x ∷ (xs ++ ys))) e ∙ drop_more xs ys n

-- Three writes, one behind the other, that fill a buffer.
three_writes :
    (buf head new tail : Bytes)
    → length buf ≡ length head + length new + length tail
    → (b1 : Bytes) × (b2 : Bytes) × (write_block buf 0 head ≡ some b1)
      × (write_block b1 (length head) new ≡ some b2)
      × (write_block b2 (length head + length new) tail ≡ some (head ++ (new ++ tail)))
three_writes buf head new tail h =
    let rest = drop (length head) buf in
    let rest2 = drop (length new) rest in
    let l1 : length rest ≡ length new + length tail =
      omega (arith, length-drop (length head) buf) in
    let l2 : length rest2 ≡ length tail = omega (arith, length-drop (length new) rest, l1) in
    (
      head ++ rest,
      (head ++ new) ++ rest2,
      write_next [] buf head (omega arith),
      write_next head rest new (omega (arith, l1)),
      ap (λ k. write_block ((head ++ new) ++ rest2) k tail) (sym (length-append head new))
          ∙ write_next (head ++ new) rest2 tail (omega (arith, l2))
          ∙ ap some (
              ap (λ b. ((head ++ new) ++ tail) ++ b)
                (drop_all rest2 (length tail) (omega (arith, l2)))
              ∙ append-nil ((head ++ new) ++ tail)
              ∙ append_assoc head new tail),
    )

-- The insertion itself.
insert_block_lem :
    (s : Sample) (place k : ℕ) (prng : Prng)
    → IsValid s
    → place ≤ s.size
    → 1 ≤ k
    → let new = random_bytes k prng in
      insert_block s place k prng
      ≡ some (
        record s {
          bytes = some (take place (content s) ++ (new.0 ++ drop place (content s)));
          size = s.size + k;
        },
        new.1,
      )
insert_block_lem s place k prng v h pos =
    let new = random_bytes k prng in
    let head = take place (content s) in
    let tail = drop place (content s) in
    let size = length-random_bytes k prng in
    let lh : length head ≡ place = omega (arith, length-take place (content s)) in
    let lt : length tail ≡ s.size - place = omega (arith, length-drop place (content s)) in
    let (b1, b2, e1, e2, e3) =
      three_writes (replicate (s.size + k) 0) head new.0 tail
        (omega (arith, lh, lt, size, length-replicate {A = ℕ} (s.size + k) 0)) in
    let some_left : (k == 0) ≡ false = ground arith in
    let r1 : read_block (content s) 0 place ≡ some head =
      read_block_lem (content s) 0 place (omega arith) in
    let r2 : read_block (content s) place (s.size - place) ≡ some tail =
      read_block_lem (content s) place (s.size - place) (omega arith)
      ∙ ap some (take_all tail (s.size - place) (omega (arith, lt))) in
    let e2' : write_block b1 place new.0 ≡ some b2 =
      ap (λ j. write_block b1 j new.0) (sym lh) ∙ e2 in
    let sum : place + k ≡ length head + length new.0 = omega (arith, lh, size) in
    let e3' : write_block b2 (place + k) tail ≡ some (head ++ (new.0 ++ tail)) =
      ap (λ j. write_block b2 j tail) sum ∙ e3 in
    rw (some_left, r1, e1, e2', r2, e3') refl

-- BlockInsertMutator on a valid sample up to the greatest size, with bounds in order, stays inside
-- the old and the new buffer. It puts some bytes at a place of the sample, at most as many as its
-- bound says, keeps all the others, and stays within the greatest size.
pub block_insert_lem :
    (max_size lo hi : ℕ) (s : Sample) (prng : Prng)
    → IsValid s
    → s.size ≤ max_size
    → lo ≤ hi
    → (t : Sample) × (place : ℕ) × (new : Bytes) × (prng' : Prng) × (block_insert max_size lo hi s
          prng
        ≡ some (t, prng'))
      × (place ≤ s.size)
      × (content t ≡ take place (content s) ++ (new ++ drop place (content s)))
      × IsValid t
      × (length new ≤ hi)
      × (t.size ≤ max_size)
unfolding block_insert
block_insert_lem max_size lo hi s prng v h o =
    let all : content s ≡ take s.size (content s) ++ ([] ++ drop s.size (content s)) = sym (
      ap (λ b. b ++ drop s.size (content s)) (take_all (content s) s.size (omega arith))
      ∙ ap (λ b. content s ++ b) (drop_all (content s) s.size (omega arith))
      ∙ append-nil (content s)) in
    elim (Bool-cases (leb max_size s.size)) [
      | inl full ↦ (s, s.size, [], prng, rw full refl, omega arith, all, v, omega arith, h)
      | inr room ↦
          let n = rand lo hi prng in
          let b = rand_lem lo hi prng o in
          let place = rand 0 s.size n.1 in
          let p = rand_lem 0 s.size n.1 (omega arith) in
          let k = fit max_size s.size n.0 in
          elim (Bool-cases (k == 0)) [
            | inl nothing ↦ (
              s,
              s.size,
              [],
              place.1,
              rw (room, nothing) refl,
              omega arith,
              all,
              v,
              omega arith,
              h,
            )
            | inr something ↦
                let new = random_bytes k place.1 in
                let size = length-random_bytes k place.1 in
                (
                  record s {
                    bytes = some (take place.0 (content s) ++ (new.0 ++ drop place.0 (content s)));
                    size = s.size + k;
                  },
                  place.0,
                  new.0,
                  new.1,
                  rw room (insert_block_lem s place.0 k place.1 v p.1 (ground arith)),
                  p.1,
                  refl,
                  omega (
                    arith,
                    p,
                    size,
                    length-append (take place.0 (content s)) (new.0 ++ drop place.0 (content s)),
                    length-append new.0 (drop place.0 (content s)),
                    length-take place.0 (content s),
                    length-drop place.0 (content s),
                  ),
                  ground (arith, b, size),
                  ground arith,
                )
          ]
    ]
