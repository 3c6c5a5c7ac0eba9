-- ===== src/Mutators/Deterministic/Covered.antt =====
-- mutator.cpp, BaseDeterministicContext::AddHotOffset: the bytes that the regions hold.
use jackalope.Prelude.{
  ℕ, ◌+◌, ◌≤◌, ◌<◌, ◌≡◌, refl, ◌⊎◌, inl, inr, List, [], ◌∷◌, false, ltb, leb, if◌then◌else◌,
  Bool-cases, le→ltb, ltb→lt, arith,
}
use jackalope.Mutators.Deterministic.{Region, new_region, put_region}

-- Some region holds the byte.
abbrev pub Covered : ℕ → List Region → Type 0
Covered o [] = ⊥
Covered o (r ∷ rs) = ((r.start ≤ o) × (o < r.end)) ⊎ Covered o rs

-- A region that is shorter than four bytes is not empty, and the next one starts at its end.
abbrev pub Linked : Region → List Region → Type 0
Linked r [] = r.start + 4 ≤ r.end
Linked r (q ∷ rs) = (r.start + 4 ≤ r.end) ⊎ ((r.start < r.end) × (q.start ≡ r.end))

abbrev pub AreLinked : List Region → Type 0
AreLinked [] = Unit
AreLinked (r ∷ rs) = Linked r rs × AreLinked rs

-- Four bytes from the start of the first region on are covered.
pub Covered-from :
    (r : Region) (rs : List Region) (o : ℕ)
    → AreLinked (r ∷ rs)
    → r.start ≤ o
    → o < r.start + 4
    → Covered o (r ∷ rs)
Covered-from r [] o h from to = inl (omega arith)
Covered-from r (q ∷ rs) o (inl long, later) from to = inl (omega arith)
Covered-from r (q ∷ rs) o (inr (live, e), later) from to = elim (Bool-cases (ltb o r.end)) [
  | inl inside ↦ inl (from, ltb→lt _ _ inside)
  | inr past ↦ inr (Covered-from q rs o later (ground arith) (omega arith))
]

-- The new region, which `put_region` cuts at the next one.
pub put_region-Covered :
    (start end o : ℕ) (rs : List Region)
    → AreLinked rs
    → start ≤ o
    → o < start + 4
    → o < end
    → Covered o (put_region start end rs)
unfolding put_region
put_region-Covered start end o [] h from to below = inl (from, below)
put_region-Covered start end o (r ∷ rs) h from to below = elim (Bool-cases (ltb start r.start)) [
  | inl before ↦ rw before (elim (Bool-cases (ltb o r.start)) [
    | inl inside ↦ inl (ground arith)
    | inr past ↦ inr (Covered-from r rs o h (ground arith) (ground arith))
  ])
  | inr after ↦ elim (Bool-cases (leb start r.end)) [
    | inl meets ↦ elim (Bool-cases (leb end r.end)) [
      | inl within ↦ rw (after, meets, within) (inl (ground arith))
      | inr beyond ↦ rw (after, meets, beyond) (inl (ground arith))
    ]
    | inr apart ↦ rw (after, apart) (inr (put_region-Covered start end o rs h.1 from to below))
  ]
]

-- A byte that was covered stays so.
pub Covered-put_region :
    (start end o : ℕ) (rs : List Region) → Covered o rs → Covered o (put_region start end rs)
unfolding put_region
Covered-put_region start end o [] h = elim h [ ]
Covered-put_region start end o (r ∷ rs) h = elim (Bool-cases (ltb start r.start)) [
  | inl before ↦ rw before (inr h)
  | inr after ↦ elim (Bool-cases (leb start r.end)) [
    | inl meets ↦ elim (Bool-cases (leb end r.end)) [
      | inl within ↦ rw (after, meets, within) h
      | inr beyond ↦
          rw (after, meets, beyond) (elim h [ inl (a, b) ↦ inl (a, ground arith) | inr k ↦ inr k ])
    ]
    | inr apart ↦
        rw (after, apart)
          (elim h [ inl a ↦ inl a | inr k ↦ inr (Covered-put_region start end o rs k) ])
  ]
]

pub Linked-long : (r : Region) (rs : List Region) → r.start + 4 ≤ r.end → Linked r rs
Linked-long r [] h = h
Linked-long r (q ∷ rs) h = inl h

pub Linked-put_region :
    (start end : ℕ) (r : Region) (rs : List Region)
    → r.end < start
    → Linked r rs
    → Linked r (put_region start end rs)
unfolding put_region
Linked-put_region start end r [] after h = inl h
Linked-put_region start end r (q ∷ rs) after (inl h) =
    Linked-long r (put_region start end (q ∷ rs)) h
Linked-put_region start end r (q ∷ rs) after (inr h) =
    let late : ltb start q.start ≡ false = le→ltb _ _ (omega arith) in
    elim (Bool-cases (leb start q.end)) [
      | inl meets ↦ elim (Bool-cases (leb end q.end)) [
        | inl within ↦ rw (late, meets, within) (inr h)
        | inr beyond ↦ rw (late, meets, beyond) (inr h)
      ]
      | inr apart ↦ rw (late, apart) (inr h)
    ]

pub cut : ℕ → ℕ → ℕ
cut end next = if ltb end next then end else next

pub Linked-new_region :
    (start end : ℕ) (r : Region) (rs : List Region)
    → start + 4 ≤ end
    → start < r.start
    → Linked (new_region start (cut end r.start)) (r ∷ rs)
unfolding cut
Linked-new_region start end r rs long before = elim (Bool-cases (ltb end r.start)) [
  | inl far ↦ rw far (inl long)
  | inr near ↦ rw near (inr (before, refl))
]

pub put_region-AreLinked :
    (start end : ℕ) (rs : List Region)
    → start + 4 ≤ end
    → AreLinked rs
    → AreLinked (put_region start end rs)
unfolding put_region cut
put_region-AreLinked start end [] long h = (long, tt)
put_region-AreLinked start end (r ∷ rs) long h = elim (Bool-cases (ltb start r.start)) [
  | inl before ↦ rw before (Linked-new_region start end r rs long (ltb→lt _ _ before), h)
  | inr after ↦ elim (Bool-cases (leb start r.end)) [
    | inl meets ↦ elim (Bool-cases (leb end r.end)) [
      | inl within ↦ rw (after, meets, within) h
      | inr beyond ↦
          rw (after, meets, beyond) (Linked-long (record r { end = end }) rs (ground arith), h.1)
    ]
    | inr apart ↦
        rw (after, apart)
          (
            Linked-put_region start end r rs (ground arith) h.0,
            put_region-AreLinked start end rs long h.1,
          )
  ]
]
