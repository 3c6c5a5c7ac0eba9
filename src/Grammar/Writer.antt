-- ===== src/Grammar/Writer.antt =====
-- The writer stays inside its buffer and puts each block behind the ones before it.
use jackalope.Prelude.{
  ℕ, zero, suc, ◌+◌, ◌-◌, ◌*◌, ◌≤◌, ◌<◌, ◌≡◌, refl, sym, ap, ◌∙◌, inl, inr, some, [], ◌∷◌, ◌++◌,
  ltb, length, take, drop, replicate, append_assoc, length-append, length-take, length-drop,
  take-append_length, Bool-cases, arith,
}
use jackalope.Prelude.Memory.{Bytes, write_block_lem, store_le}
use jackalope.Sample.{realloc}
use jackalope.Sample.Contents.{length-realloc}
use jackalope.Grammar.Binary.{Writer, new_writer, grow, write_data, write_size, write_string}

pub record IsWriter (w : Writer) : Type 0 where
  pub whole : length w.bytes ≡ w.size_allocated
  pub inside : w.size_current ≤ w.size_allocated
  pub some_room : 0 < w.size_allocated

-- What has been written.
abbrev pub written : Writer → Bytes
written w = take w.size_current w.bytes

take-take : (n m : ℕ) (xs : Bytes) → n ≤ m → take n (take m xs) ≡ take n xs
take-take zero m xs h = refl
take-take (suc n) zero xs h = absurd (omega arith)
take-take (suc n) (suc m) [] h = refl
take-take (suc n) (suc m) (x ∷ xs) h = ap (◌∷◌ x) (take-take n m xs (omega arith))

take-append : (n : ℕ) (xs ys : Bytes) → n ≤ length xs → take n (xs ++ ys) ≡ take n xs
take-append zero xs ys h = refl
take-append (suc n) [] ys h = absurd (omega arith)
take-append (suc n) (x ∷ xs) ys h = ap (◌∷◌ x) (take-append n xs ys (omega arith))

take-realloc : (n m : ℕ) (b : Bytes) → n ≤ m → n ≤ length b → take n (realloc b m) ≡ take n b
unfolding realloc
take-realloc n m b h k =
    take-append n (take m b) (replicate (m - length b) 0) (omega (arith, length-take m b))
    ∙ take-take n m b h

-- One doubling.
abbrev doubled : Writer → Writer
doubled w = record w {
  bytes = realloc w.bytes (w.size_allocated * 2);
  size_allocated = w.size_allocated * 2;
}

doubled-IsWriter : (w : Writer) → IsWriter w → IsWriter (doubled w)
doubled-IsWriter w v = record {
  whole = length-realloc w.bytes (w.size_allocated * 2);
  inside = omega arith;
  some_room = omega arith;
}

-- The doubling ends with room for what is needed, and keeps what was written.
grow_lem :
    (fuel needed : ℕ) (w : Writer)
    → IsWriter w
    → 0 < fuel
    → needed < w.size_allocated + fuel
    → (w' : Writer) × (grow fuel needed w ≡ some w')
      × IsWriter w'
      × (needed ≤ w'.size_allocated)
      × (w'.size_current ≡ w.size_current)
      × (written w' ≡ written w)
unfolding grow
grow_lem zero needed w v p h = absurd (omega arith)
grow_lem (suc fuel) needed w v p h = elim (Bool-cases (ltb w.size_allocated needed)) [
  | inl small ↦
      let (w', grown, valid, room, current, kept) =
        grow_lem fuel needed (doubled w) (doubled-IsWriter w v) (ground arith) (ground arith) in
      (
        w',
        ground (arith, grown),
        valid,
        room,
        current,
        kept
            ∙ take-realloc w.size_current (w.size_allocated * 2) w.bytes (omega arith)
                (omega arith),
      )
  | inr room ↦ (w, ground (arith, room), v, ground arith, refl, refl)
]

-- The writer after a block is stored behind the current position, where it fits.
abbrev stored : Bytes → Writer → Writer
stored d w = record w {
  bytes = take w.size_current w.bytes ++ (d ++ drop (w.size_current + length d) w.bytes);
  size_current = w.size_current + length d;
}

stored-IsWriter :
    (d : Bytes) (w : Writer)
    → IsWriter w
    → w.size_current + length d ≤ w.size_allocated
    → IsWriter (stored d w)
stored-IsWriter d w v h = record {
  whole = omega (
    arith,
    length-append (written w) (d ++ drop (w.size_current + length d) w.bytes),
    length-append d (drop (w.size_current + length d) w.bytes),
    length-take w.size_current w.bytes,
    length-drop (w.size_current + length d) w.bytes,
  );
  inside = h;
  some_room = v.some_room;
}

written-stored : (d : Bytes) (w : Writer) → IsWriter w → written (stored d w) ≡ written w ++ d
written-stored d w v =
    ap (take (w.size_current + length d))
      (sym (append_assoc (written w) d (drop (w.size_current + length d) w.bytes)))
    ∙ take-append_length (written w ++ d) (drop (w.size_current + length d) w.bytes) _
        (omega (arith, length-append (written w) d, length-take w.size_current w.bytes))

write_data_grown :
    (d : Bytes) (w w' : Writer)
    → grow (suc (w.size_current + length d)) (w.size_current + length d) w ≡ some w'
    → IsWriter w'
    → w'.size_current + length d ≤ w'.size_allocated
    → write_data d w ≡ some (stored d w')
unfolding write_data
write_data_grown d w w' e v h =
    rw (e, write_block_lem w'.bytes w'.size_current d (omega (arith, v.whole)))

-- WriteData on a valid writer ends and writes inside the buffer, behind what was written before.
pub write_data_lem :
    (d : Bytes) (w : Writer)
    → IsWriter w
    → (w' : Writer) × (write_data d w ≡ some w') × IsWriter w' × (written w' ≡ written w ++ d)
write_data_lem d w v =
    let (w', grown, valid, room, current, kept) =
      grow_lem (suc (w.size_current + length d)) (w.size_current + length d) w v (omega arith)
        (omega arith) in
    (
      stored d w',
      write_data_grown d w w' grown valid (omega arith),
      stored-IsWriter d w' valid (omega arith),
      written-stored d w' valid ∙ ap (λ b. b ++ d) kept,
    )

pub write_size_lem :
    (n : ℕ) (w : Writer)
    → IsWriter w
    → (w' : Writer) × (write_size n w ≡ some w')
      × IsWriter w'
      × (written w' ≡ written w ++ store_le 8 n)
unfolding write_size
write_size_lem n w v = write_data_lem (store_le 8 n) w v

-- The stored form of a string.
abbrev pub string_bytes : Bytes → Bytes
string_bytes s = store_le 8 (length s) ++ s

pub write_string_lem :
    (s : Bytes) (w : Writer)
    → IsWriter w
    → (w' : Writer) × (write_string s w ≡ some w')
      × IsWriter w'
      × (written w' ≡ written w ++ string_bytes s)
unfolding write_string
write_string_lem s w v =
    let (w1, e1, v1, k1) = write_size_lem (length s) w v in
    let (w2, e2, v2, k2) = write_data_lem s w1 v1 in
    (
      w2,
      rw e1 e2,
      v2,
      k2 ∙ ap (λ b. b ++ s) k1 ∙ append_assoc (written w) (store_le 8 (length s)) s,
    )

pub new_writer-IsWriter : IsWriter new_writer
new_writer-IsWriter = record { whole = refl; inside = omega arith; some_room = omega arith }
