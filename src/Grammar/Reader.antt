-- ===== src/Grammar/Reader.antt =====
-- What the reader returns, by what is ahead of its position.
use jackalope.Prelude.{
  ℕ, zero, suc, ◌+◌, ◌%◌, ◌^◌, ◌≤◌, ◌<◌, ◌≡◌, refl, sym, ap, subst, ◌∙◌, inl, inr, [], ◌∷◌, ◌++◌,
  false, ltb, leb, le→ltb, lt→ltb, leb→le, ltb→lt, if◌then◌else◌, length, take, drop, append_assoc,
  length-append, length-take, take-append-drop, take-append_length, drop-append_length, Bool-cases,
  arith,
}
use jackalope.Prelude.Memory.{
  Bytes, read_block, read_block_lem, store_le, length-store_le, load_le-store_le,
}
use jackalope.Grammar.Binary.{
  Reader, ok, failed, length_error, string_max_size, assign_string, advance, read_data, read_size,
  read_string,
}
use jackalope.Grammar.Writer.{string_bytes}

-- The bytes from the read position on, in a buffer that memory can hold: its size is the difference
-- of two pointers.
pub record Ahead (r : Reader) (xs : Bytes) : Type 0 where
  pub rest : drop r.read_pos r.bytes ≡ xs
  pub inside : r.read_pos + length xs ≡ length r.bytes
  pub whole : r.size_current ≡ length r.bytes
  pub small : length r.bytes < 2 ^ 63

drop-add : (a b : ℕ) (xs : Bytes) → drop (a + b) xs ≡ drop b (drop a xs)
drop-add zero b xs = let e : 0 + b ≡ b = omega arith in rw e
drop-add (suc a) b [] = let e : suc a + b ≡ suc (a + b) = omega arith in rw e (sym (drop_nil b))
  where
    drop_nil : (n : ℕ) → drop {A = ℕ} n [] ≡ []
    drop_nil zero = refl
    drop_nil (suc n) = refl
drop-add (suc a) b (x ∷ xs) =
    let e : suc a + b ≡ suc (a + b) = omega arith in rw e (drop-add a b xs)

-- The reader moved past `n` bytes.
abbrev pub moved : Reader → ℕ → Reader
moved r n = record r { read_pos = r.read_pos + n }

pub moved-Ahead : (r : Reader) (d xs : Bytes) → Ahead r (d ++ xs) → Ahead (moved r (length d)) xs
moved-Ahead r d xs a = record {
  rest =
      drop-add r.read_pos (length d) r.bytes
      ∙ ap (drop (length d)) a.rest
      ∙ drop-append_length d xs (length d) refl;
  inside = omega (arith, a.inside, length-append d xs);
  whole = a.whole;
  small = a.small;
}

-- The check and the copy that ReadData and ReadString share, when the block is there.
pub read_block-Ahead :
    (r : Reader) (d xs : Bytes)
    → Ahead r (d ++ xs)
    → (ltb r.size_current ((r.read_pos + length d) % 2 ^ 64) ≡ false)
      × (advance r (length d) (read_block r.bytes r.read_pos (length d))
          ≡ ok d (moved r (length d)))
read_block-Ahead r d xs a =
    let fits : r.read_pos + length d ≤ length r.bytes =
      omega (arith, a.inside, length-append d xs) in
    let e : (r.read_pos + length d) % 2 ^ 64 ≡ r.read_pos + length d = omega (arith, a.small) in
    (
      rw e (le→ltb _ _ (omega (arith, a.whole))),
      rw
          (
            read_block_lem r.bytes r.read_pos (length d) fits,
            a.rest,
            take-append_length d xs (length d) refl,
            e,
          )
          refl,
    )

pub read_data-Ahead :
    (r : Reader) (n : ℕ) (d xs : Bytes)
    → length d ≡ n
    → Ahead r (d ++ xs)
    → read_data n r ≡ ok d (moved r n)
unfolding read_data
read_data-Ahead r n d xs e a = let both = read_block-Ahead r d xs a in rw (← e, both.0) both.1

pub read_size-Ahead :
    (r : Reader) (n : ℕ) (xs : Bytes)
    → n < 2 ^ 64
    → Ahead r (store_le 8 n ++ xs)
    → (read_size r ≡ ok n (moved r 8)) × Ahead (moved r 8) xs
unfolding read_size
read_size-Ahead r n xs h a = (
  rw (read_data-Ahead r 8 (store_le 8 n) xs (length-store_le 8 n) a)
      (ap (λ v. ok v (moved r 8)) (load_le-store_le 8 n (omega arith))),
  subst (λ k. Ahead (moved r k) xs) (length-store_le 8 n) (moved-Ahead r (store_le 8 n) xs a),
)

-- `assign` takes a size that a std::string can have.
assign_short :
    (r : Reader) (n : ℕ)
    → n ≤ string_max_size
    → assign_string r n ≡ advance r n (read_block r.bytes r.read_pos n)
assign_short r n h = rw (le→ltb string_max_size n h) refl

pub read_string-Ahead :
    (r : Reader) (s xs : Bytes)
    → Ahead r (string_bytes s ++ xs)
    → (read_string r ≡ ok s (moved (moved r 8) (length s)))
      × Ahead (moved (moved r 8) (length s)) xs
unfolding read_string
read_string-Ahead r s xs a =
    let a' : Ahead r (store_le 8 (length s) ++ (s ++ xs)) =
      subst (Ahead r) (append_assoc (store_le 8 (length s)) s xs) a in
    let short : length s < 2 ^ 64 = omega (
      arith,
      a.inside,
      a.small,
      length-append (string_bytes s) xs,
      length-append (store_le 8 (length s)) s,
    ) in
    let (read, a1) = read_size-Ahead r (length s) (s ++ xs) short a' in
    let both = read_block-Ahead (moved r 8) s xs a1 in
    (
      rw
          (
            read,
            both.0,
            assign_short (moved r 8) (length s)
                (omega (arith, a1.inside, a1.small, length-append s xs)),
          )
          both.1,
      moved-Ahead (moved r 8) s xs a1,
    )

-- The three branches of ReadString, each under its condition.
read_string_parts :
    (r : Reader) (n : ℕ) (xs : Bytes)
    → n < 2 ^ 64
    → Ahead r (store_le 8 n ++ xs)
    → (n ≤ length xs → read_string r ≡ ok (take n xs) (moved (moved r 8) n))
      × (length xs < n → r.read_pos + 8 + n < 2 ^ 64 → read_string r ≡ failed)
      × (2 ^ 64 ≤ r.read_pos + 8 + n → read_string r ≡ length_error)
unfolding read_string
read_string_parts r n xs h a = (all_there, too_few, wraps)
  where
    read : read_size r ≡ ok n (moved r 8)
    read = (read_size-Ahead r n xs h a).0

    ahead : Ahead (moved r 8) xs
    ahead = (read_size-Ahead r n xs h a).1

    all_there : n ≤ length xs → read_string r ≡ ok (take n xs) (moved (moved r 8) n)
    all_there le =
        let exact : length (take n xs) ≡ n = omega (arith, length-take n xs) in
        let split : Ahead (moved r 8) (take n xs ++ drop n xs) =
          subst (Ahead (moved r 8)) (sym (take-append-drop n xs)) ahead in
        rw read (
          subst
            (λ k.
              (if ltb r.size_current ((r.read_pos + 8 + k) % 2 ^ 64)
                then failed
                else assign_string (moved r 8) k)
              ≡ ok (take n xs) (moved (moved r 8) k))
            exact
            (let both = read_block-Ahead (moved r 8) (take n xs) (drop n xs) split in
              rw
                (
                  both.0,
                  assign_short (moved r 8) (length (take n xs))
                      (omega (arith, exact, ahead.inside, ahead.small)),
                )
                both.1))

    too_few : length xs < n → r.read_pos + 8 + n < 2 ^ 64 → read_string r ≡ failed
    too_few lt fits =
        let e : (r.read_pos + 8 + n) % 2 ^ 64 ≡ r.read_pos + 8 + n = omega arith in
        rw (
          read,
          e,
          lt→ltb r.size_current (r.read_pos + 8 + n) (omega (arith, ahead.inside, ahead.whole)),
        )

    wraps : 2 ^ 64 ≤ r.read_pos + 8 + n → read_string r ≡ length_error
    wraps big =
        let pos : r.read_pos + 8 ≤ length r.bytes = omega (arith, ahead.inside) in
        let e : ltb r.size_current ((r.read_pos + 8 + n) % 2 ^ 64) ≡ false =
          le→ltb r.size_current ((r.read_pos + 8 + n) % 2 ^ 64)
            (omega (arith, ahead.whole, ahead.small)) in
        rw (read, e, lt→ltb string_max_size n (omega (arith, ahead.inside, ahead.small)))

-- ReadString where a size `n` is ahead. If `n` bytes follow it, they are returned and the position
-- moves behind them. If fewer follow, the call fails, but only as long as the sum of position and
-- size stays below 2^64: from there on the sum wraps, the check lets it pass, and the call throws
-- std::length_error, which nothing catches.
pub read_string_cases :
    (r : Reader) (n : ℕ) (xs : Bytes)
    → n < 2 ^ 64
    → Ahead r (store_le 8 n ++ xs)
    → read_string r ≡ (
        if leb n (length xs)
        then ok (take n xs) (moved (moved r 8) n)
        else if ltb (r.read_pos + 8 + n) (2 ^ 64)
        then failed
        else length_error)
read_string_cases r n xs h a =
    let (all_there, too_few, wraps) = read_string_parts r n xs h a in
    elim (Bool-cases (leb n (length xs))) [
      | inl le ↦ rw le (all_there (leb→le n (length xs) le))
      | inr gt ↦ elim (Bool-cases (ltb (r.read_pos + 8 + n) (2 ^ 64))) [
        | inl lt ↦ rw (gt, lt) (too_few (ground arith) (ltb→lt (r.read_pos + 8 + n) (2 ^ 64) lt))
        | inr ge ↦ rw (gt, ge) (wraps (ground arith))
      ]
    ]
