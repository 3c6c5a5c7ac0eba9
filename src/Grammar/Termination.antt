-- ===== src/Grammar/Termination.antt =====
-- Decoding ends on every input.
use jackalope.Prelude.{
  ℕ, ap, zero, suc, Option-cases, some_eq, none, some, take, length-take, ◌+◌, ◌-◌, ◌*◌, ◌%◌, ◌^◌,
  ◌≤◌, ◌<◌, ◌≡◌, ◌≢◌, refl, inl, inr, Bool, true, false, ◌||◌, ltb, leb, ◌==◌, if◌then◌else◌,
  length, Bool-cases, arith,
}
use jackalope.Prelude.Memory.{Bytes, load_le, read_block}
use jackalope.Sample.{Sample, content}
use jackalope.Grammar.Binary.{
  Reader, new_reader, Read, ok, failed, length_error, string_max_size, assign_string, out_of_bounds,
  out_of_fuel, bind, advance, read_data, read_size, read_string,
}
use jackalope.Grammar.Tree.{string_type}
use jackalope.Grammar.Decode.{decode_tree, decode_trees, decode_bytes, decode_sample}

-- The reader stands inside a buffer that memory can hold.
pub record IsReader (r : Reader) : Type 0 where
  pub inside : r.read_pos ≤ length r.bytes
  pub whole : r.size_current ≡ length r.bytes
  pub small : length r.bytes < 2 ^ 64

abbrev left : Reader → ℕ
left r = length r.bytes - r.read_pos

-- The call ends, and a reader that it returns has used up at least `n` of `m` bytes.
abbrev Ends : {A : Type 0} → ℕ → ℕ → Read A → Type 0
Ends n m (ok a r) = IsReader r × (left r + n ≤ m)
Ends n m failed = Unit {0}
Ends n m length_error = Unit {0}
Ends n m out_of_bounds = Unit {0}
Ends n m out_of_fuel = ⊥

Ends-bind :
    {A B : Type 0} (n m n' m' : ℕ) (x : Read A) (f : A → Reader → Read B)
    → Ends n m x
    → ((a : A) (r : Reader) → IsReader r → left r + n ≤ m → Ends n' m' (f a r))
    → Ends n' m' (bind x f)
Ends-bind n m n' m' (ok a r) f (v, h) next = next a r v h
Ends-bind n m n' m' failed f h next = tt
Ends-bind n m n' m' length_error f h next = tt
Ends-bind n m n' m' out_of_bounds f h next = tt
Ends-bind n m n' m' out_of_fuel f h next = absurd h

Ends-mono : {A : Type 0} (n m n' m' : ℕ) (x : Read A) → m + n' ≤ m' + n → Ends n m x → Ends n' m' x
Ends-mono n m n' m' (ok a r) h (v, l) = (v, omega arith)
Ends-mono n m n' m' failed h e = tt
Ends-mono n m n' m' length_error h e = tt
Ends-mono n m n' m' out_of_bounds h e = tt
Ends-mono n m n' m' out_of_fuel h e = absurd e

advance-Ends :
    (r : Reader) (n : ℕ)
    → IsReader r
    → Ends n (left r) (advance r n (read_block r.bytes r.read_pos n))
unfolding read_block
advance-Ends r n v = elim (Bool-cases (leb (r.read_pos + n) (length r.bytes))) [
  | inl fits ↦
      let e : (r.read_pos + n) % 2 ^ 64 ≡ r.read_pos + n = ground arith in
      rw (fits, e)
        (record { inside = ground arith; whole = v.whole; small = v.small }, ground arith)
  | inr over ↦ rw over tt
]

assign_string-Ends : (r : Reader) (n : ℕ) → IsReader r → Ends n (left r) (assign_string r n)
assign_string-Ends r n v = elim (Bool-cases (ltb string_max_size n)) [
  | inl over ↦ rw over tt
  | inr fits ↦ rw fits (advance-Ends r n v)
]

read_data-Ends : (n : ℕ) (r : Reader) → IsReader r → Ends n (left r) (read_data n r)
unfolding read_data
read_data-Ends n r v = elim (Bool-cases (ltb r.size_current ((r.read_pos + n) % 2 ^ 64))) [
  | inl over ↦ rw over tt
  | inr fits ↦ rw fits (advance-Ends r n v)
]

read_size-Ends : (r : Reader) → IsReader r → Ends 0 (left r) (read_size r)
unfolding read_size
read_size-Ends r v =
    Ends-bind 8 (left r) 0 (left r) (read_data 8 r) (λ b. ok (load_le b)) (read_data-Ends 8 r v)
      (λ b r' v' h. (v', omega arith))

read_string-Ends : (r : Reader) → IsReader r → Ends 0 (left r) (read_string r)
unfolding read_string
read_string-Ends r v =
    Ends-bind 0 (left r) 0 (left r) (read_size r) _ (read_size-Ends r v) λ n r' v' h.
      elim (Bool-cases (ltb r'.size_current ((r'.read_pos + n) % 2 ^ 64))) [
        | inl over ↦ rw over tt
        | inr fits ↦
            rw fits (Ends-mono n (left r') 0 (left r) _ (omega arith) (assign_string-Ends r' n v'))
      ]

Ends-if :
    {A : Type 0} (n m : ℕ) (b : Bool) (x : Read A) → Ends n m x → Ends n m (if b then x else failed)
Ends-if n m true x h = h
Ends-if n m false x h = tt

mutual
  unfolding decode_tree

  decode_tree-Ends :
      (has_symbol : Bytes → Bool) (fuel : ℕ) (r : Reader)
      → IsReader r
      → 2 * left r < fuel
      → Ends 1 (left r) (decode_tree has_symbol fuel r)
  decode_tree-Ends has_symbol zero r v h = absurd (omega arith)
  decode_tree-Ends has_symbol (suc fuel) r v h =
      Ends-bind 1 (left r) 1 (left r) (read_data 1 r) _ (read_data-Ends 1 r v) λ type r1 v1 h1.
        Ends-bind 0 (left r1) 1 (left r) (read_string r1) _ (read_string-Ends r1 v1) λ s r2 v2 h2.
          Ends-if 1 (left r) ((load_le type == string_type) || has_symbol s) _ (
            Ends-bind 0 (left r2) 1 (left r) (read_size r2) _ (read_size-Ends r2 v2) λ n r3 v3 h3.
              Ends-bind 0 (left r3) 1 (left r) (decode_trees has_symbol fuel n r3) _
                (decode_trees-Ends has_symbol fuel n r3 v3 (omega arith))
                λ children r4 v4 h4. (v4, omega arith))

  decode_trees-Ends :
      (has_symbol : Bytes → Bool) (fuel n : ℕ) (r : Reader)
      → IsReader r
      → suc (2 * left r) < fuel
      → Ends 0 (left r) (decode_trees has_symbol fuel n r)
  decode_trees-Ends has_symbol zero n r v h = absurd (omega arith)
  decode_trees-Ends has_symbol (suc fuel) zero r v h = (v, omega arith)
  decode_trees-Ends has_symbol (suc fuel) (suc n) r v h =
      Ends-bind 1 (left r) 0 (left r) (decode_tree has_symbol fuel r) _
        (decode_tree-Ends has_symbol fuel r v (omega arith))
        λ child r1 v1 h1.
          Ends-bind 0 (left r1) 0 (left r) (decode_trees has_symbol fuel n r1) _
            (decode_trees-Ends has_symbol fuel n r1 v1 (omega arith))
            λ rest r2 v2 h2. (v2, omega arith)

Ends-ne-out_of_fuel : {A : Type 0} (n m : ℕ) (x : Read A) → Ends n m x → x ≢ out_of_fuel
Ends-ne-out_of_fuel n m (ok a r) h = cc
Ends-ne-out_of_fuel n m failed h = cc
Ends-ne-out_of_fuel n m length_error h = cc
Ends-ne-out_of_fuel n m out_of_bounds h = cc
Ends-ne-out_of_fuel n m out_of_fuel h = absurd h

read_block-length :
    (buf : Bytes) (n : ℕ) {bytes : Bytes}
    → read_block buf 0 n ≡ some bytes
    → length bytes ≤ length buf
unfolding read_block
read_block-length buf n {bytes} e = elim (Bool-cases (leb (0 + n) (length buf))) [
  | inl fits ↦
      let all : take n buf ≡ bytes = some_eq (rw fits at e) in
      omega (arith, length-take n buf, ap (λ (b : Bytes). length b) all)
  | inr over ↦ let clash : none ≡ some bytes = rw over at e in cc
]

decode_bytes-ne-out_of_fuel :
    (has_symbol : Bytes → Bool) (bytes : Bytes)
    → length bytes < 2 ^ 64
    → decode_bytes has_symbol (some bytes) ≢ out_of_fuel
decode_bytes-ne-out_of_fuel has_symbol bytes h =
    let start = new_reader bytes in
    let v : IsReader start = record { inside = omega arith; whole = refl; small = h } in
    Ends-ne-out_of_fuel 0 (left start) (decode_bytes has_symbol (some bytes)) (
      Ends-bind 0 (left start) 0 (left start) (read_string start) _ (read_string-Ends start v)
        λ s r v' h'.
          Ends-mono 1 (left r) 0 (left start) _ (omega arith)
            (decode_tree-Ends has_symbol (2 * length bytes + 2) r v' (omega arith)))

-- Whatever bytes a sample holds, decoding it ends: the fuel of `decode_sample` never runs out, for
-- a sample that memory can hold.
pub decode_sample-ne-out_of_fuel :
    (has_symbol : Bytes → Bool) (sample : Sample)
    → length (content sample) < 2 ^ 64
    → decode_sample has_symbol sample ≢ out_of_fuel
unfolding decode_sample
decode_sample-ne-out_of_fuel has_symbol sample h =
    elim (Option-cases (read_block (content sample) 0 sample.size)) [
      | inl outside ↦ rw outside (Ends-ne-out_of_fuel 0 0 (decode_bytes has_symbol none) tt)
      | inr (bytes, copied) ↦ rw copied (
          decode_bytes-ne-out_of_fuel has_symbol bytes
            (omega (arith, read_block-length (content sample) sample.size copied, h)))
    ]
