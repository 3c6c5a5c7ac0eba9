-- ===== src/Sample/Contents.antt =====
-- What the operations of class Sample leave in the buffer, and that they stay inside it.
use jackalope.Prelude.{
  ℕ, zero, suc, ◌+◌, ◌-◌, ◌≤◌, min, ◌≡◌, refl, sym, ap, ◌∙◌, inl, inr, some, [], ◌++◌, ltb, leb,
  ◌==◌, if◌then◌else◌, length, take, drop, replicate, length-append, length-take, length-replicate,
  take_all, drop_all, append-nil, take-append_length, Bool-cases, arith,
}
use jackalope.Prelude.Memory.{
  Bytes, ◌>>=◌, read_block, read_block_lem, write_block, write_block_lem, length-take-drop,
}
use jackalope.Sample.{Sample, content, IsValid, realloc, clear, init, append, trim, resize, crop}

pub length-realloc : (buf : Bytes) (n : ℕ) → length (realloc buf n) ≡ n
unfolding realloc
length-realloc buf n = omega (
  arith,
  length-append (take n buf) (replicate (n - length buf) 0),
  length-take n buf,
  length-replicate {A = ℕ} (n - length buf) 0,
)

pub take-realloc : (buf : Bytes) (n : ℕ) → length buf ≤ n → take (length buf) (realloc buf n) ≡ buf
unfolding realloc
take-realloc buf n h =
    rw (take_all buf n h) (take-append_length buf (replicate (n - length buf) 0) _ refl)

-- Growing a buffer and writing a block of the right size behind its old contents.
pub grow_lem :
    (buf new : Bytes) (n : ℕ)
    → n ≡ length buf + length new
    → write_block (realloc buf n) (length buf) new ≡ some (buf ++ new)
grow_lem buf new n h =
    write_block_lem (realloc buf n) (length buf) new (omega (arith, length-realloc buf n))
    ∙ rw
        (
          take-realloc buf n (omega arith),
          drop_all (realloc buf n) (length buf + length new) (omega (arith, length-realloc buf n)),
        )
        (ap (λ (t : Bytes). some (buf ++ t)) (append-nil new))

pub trim_lem :
    (s : Sample) (n : ℕ)
    → IsValid s
    → n ≤ s.size
    → (content (trim s n) ≡ take n (content s)) × ((trim s n).size ≡ n)
unfolding trim realloc
trim_lem s zero v h = ground arith
trim_lem s (suc n) v h =
    let e : suc n - length (content s) ≡ 0 = omega arith in
    ground (arith, e, append-nil (take (suc n) (content s)))

-- Growing a valid sample keeps its bytes and puts zeros behind them; shrinking keeps a prefix. The
-- writes stay inside the new buffer, and the result is valid.
pub resize_lem :
    (s : Sample) (n : ℕ)
    → IsValid s
    → (t : Sample) × (resize s n ≡ some t)
      × (content t ≡ take n (content s) ++ replicate (n - s.size) 0)
      × (t.size ≡ n)
      × IsValid t
unfolding resize
resize_lem s n v = elim (Bool-cases (n == s.size)) [
  | inl same ↦
      let e : n - s.size ≡ 0 = ground arith in
      (
        s,
        ground arith,
        ground (arith, e, take_all (content s) n (ground arith), append-nil (content s)),
        ground arith,
        v,
      )
  | inr other ↦ elim (Bool-cases (ltb n s.size)) [
    | inl less ↦
        let e : n - s.size ≡ 0 = ground arith in
        (
          trim s n,
          ground arith,
          ground (arith, e, trim_lem s n v (ground arith), append-nil (take n (content s))),
          ground (arith, trim_lem s n v),
          ground (arith, trim_lem s n v, length-take n (content s)),
        )
    | inr more ↦
        let fits : n ≡ length (content s) + length (replicate {A = ℕ} (n - s.size) 0) =
          ground (arith, length-replicate {A = ℕ} (n - s.size) 0) in
        (
          record s { bytes = some (content s ++ replicate (n - s.size) 0); size = n },
          ground (arith, grow_lem (content s) (replicate (n - s.size) 0) n fits),
          ground (arith, take_all (content s) n (ground arith)),
          refl,
          omega (arith, length-append (content s) (replicate (n - s.size) 0)),
        )
  ]
]

-- Appending reads `n` bytes of the source and puts them behind the old bytes.
pub append_lem :
    (s : Sample) (src : Bytes) (n : ℕ)
    → IsValid s
    → n ≤ length src
    → append s src n ≡ some (record s { bytes = some (content s ++ take n src); size = s.size + n })
unfolding append
append_lem s src n v h = ground (
  arith,
  read_block_lem src 0 n (omega arith),
  length-take n src,
  grow_lem (content s) (take n src) (s.size + n),
)

-- The copy of a block into a sample.
pub init_lem :
    (t : Sample) (src : Bytes) (n : ℕ)
    → n ≤ length src
    → init t src n ≡ some (record t { bytes = some (take n src); size = n })
unfolding init
init_lem t src n h = ground (arith, read_block_lem src 0 n (omega arith))

-- A copy of the bytes of a valid sample from `from` up to `end`, which lies inside it.
crop_copy :
    (s out : Sample) (from end : ℕ)
    → IsValid s
    → from ≤ end
    → end ≤ s.size
    → (t : Sample) × ((read_block (content s) from (end - from) >>= λ b.
          init (clear out) b (end - from))
        ≡ some t)
      × (content t ≡ take (end - from) (drop from (content s)))
      × IsValid t
unfolding clear
crop_copy s out from end v le inside =
    let b = take (end - from) (drop from (content s)) in
    let full : length b ≡ end - from =
      length-take-drop (content s) from (end - from) (omega arith) in
    (
      record out { bytes = some b; size = end - from; filename = [] },
      ground (
        arith,
        read_block_lem (content s) from (end - from) (omega arith),
        init_lem (clear out) b (end - from) (omega arith),
        take_all b (end - from) (omega arith),
      ),
      refl,
      full,
    )

-- Cropping a valid sample into a fresh one gives the bytes from `from` up to `to`, or up to the
-- end of the sample, and the copies stay inside both buffers.
pub crop_lem :
    (s out : Sample) (from to : ℕ)
    → IsValid s
    → out.size ≡ 0
    → (t : Sample) × (crop s from to out ≡ some t)
      × (content t ≡ take (min to s.size - from) (drop from (content s)))
      × IsValid t
unfolding crop
crop_lem s out from to v fresh = elim (Bool-cases (leb to from)) [
  | inl empty ↦
      let e : min to s.size - from ≡ 0 = ground arith in
      (clear out, rw empty, unfold clear in ground (arith, e), unfold clear in sym fresh)
  | inr some_left ↦ elim (Bool-cases (ltb s.size from)) [
    | inl past ↦
        let e : min to s.size - from ≡ 0 = ground arith in
        (clear out, ground arith, unfold clear in ground (arith, e), unfold clear in sym fresh)
    | inr inside ↦
        let end : ℕ = if ltb s.size to then s.size else to in
        let e : end ≡ min to s.size = ground arith in
        let (t, copied, same, valid) = crop_copy s out from end v (ground arith) (ground arith) in
        (t, ground (arith, copied), ground (arith, same), valid)
  ]
]
