-- ===== src/Server/Index.antt =====
-- GetIndex finds the first entry that is newer than a timestamp.
use jackalope.Prelude.{
  ℕ, zero, suc, ◌+◌, ◌-◌, ◌/◌, ◌≤◌, ◌<◌, ◌≡◌, ◌≢◌, refl, sym, ap, subst, ◌∙◌, inl, inr, some, List,
  [], ◌∷◌, true, false, not, ◌||◌, ltb, ◌==◌, if◌then◌else◌, length, get_elem?, get_elem?_inside,
  ltb→lt, le→ltb, Bool-cases, arith,
}
use jackalope.Sample.{done}
use jackalope.Server.Corpus.{
  TimestampIndex, is_after, is_before, search, scan_back, scan_forward, adjust, index_at,
  up_to_date, get_index,
}

-- The timestamps do not fall.
abbrev pub IsSorted : List TimestampIndex → Type 0
IsSorted [] = Unit {0}
IsSorted (e ∷ []) = Unit {0}
IsSorted (e ∷ f ∷ rest) = (e.timestamp ≤ f.timestamp) × IsSorted (f ∷ rest)

-- The index of the first entry that is newer than `timestamp`, or `last_index` if none is.
abbrev pub first_after : List TimestampIndex → ℕ → ℕ → ℕ
first_after [] timestamp last_index = last_index
first_after (e ∷ rest) timestamp last_index =
    if ltb timestamp e.timestamp then e.index else first_after rest timestamp last_index

-- The search ends, at a position inside the vector.
search-inside :
    (fuel : ℕ) (ts : List TimestampIndex) (t l r m n : ℕ)
    → r ≤ l + fuel
    → r ≤ n
    → m < n
    → (k : ℕ) × (search fuel ts t l r m ≡ some k) × (k < n)
unfolding search
search-inside zero ts t l r m n f h i = (m, ground arith, i)
search-inside (suc fuel) ts t l r m n f h i = elim (Bool-cases (ltb l r)) [
  | inr stop ↦ (m, ground (arith, stop), i)
  | inl go ↦
      let mid = (l + (r - 1)) / 2 in
      let lt = ltb→lt l r go in
      elim (Bool-cases (is_before ts t mid)) [
        | inl before ↦
            let (k, e, inside) =
              search-inside fuel ts t (mid + 1) r mid n (omega arith) h (omega arith) in
            (k, rw (go, before) e, inside)
        | inr not_before ↦ elim (Bool-cases (is_after ts t mid)) [
          | inl after ↦
              let (k, e, inside) =
                search-inside fuel ts t l mid mid n (omega arith) (omega arith) (omega arith) in
              (k, rw (go, not_before, after) e, inside)
          | inr here ↦ (mid, rw (go, not_before, here) refl, omega arith)
        ]
      ]
]

-- The entry at `m` is newer than `t`, and the one before it is not.
record Found (ts : List TimestampIndex) (t m : ℕ) : Type 0 where
  newer : is_after ts t m ≡ true
  first : (k : ℕ) → m ≡ suc k → is_after ts t k ≡ false

scan_back-Found :
    (ts : List TimestampIndex) (t m : ℕ) → is_after ts t m ≡ true → Found ts t (scan_back ts t m)
unfolding scan_back
scan_back-Found ts t zero h = record { newer = h; first = λ k e. absurd (omega arith) }
scan_back-Found ts t (suc m) h = elim (Bool-cases (is_after ts t m)) [
  | inl after ↦ subst (Found ts t) (rw after refl) (scan_back-Found ts t m after)
  | inr found ↦
      subst (Found ts t) (rw found refl)
        (record { newer = h; first = λ k e. rw (sym (suc-inj m k e)) found })
]
  where
    suc-inj : (a b : ℕ) → suc a ≡ suc b → a ≡ b
    suc-inj a b e = omega arith

suc-eq : (P : ℕ → Type 0) (m k : ℕ) → suc m ≡ suc k → P m → P k
suc-eq P m k e p = subst P (omega arith) p

scan_forward-Found :
    (n : ℕ) (ts : List TimestampIndex) (t m : ℕ)
    → is_after ts t (m + n) ≡ true
    → ((k : ℕ) → m ≡ suc k → is_after ts t k ≡ false)
    → Found ts t (scan_forward n ts t m)
unfolding scan_forward
scan_forward-Found zero ts t m last before = record {
  newer = subst (λ j. is_after ts t j ≡ true) (omega arith) last;
  first = before;
}
scan_forward-Found (suc n) ts t m last before = elim (Bool-cases (is_after ts t m)) [
  | inl found ↦ subst (Found ts t) (rw found refl) (record { newer = found; first = before })
  | inr not_yet ↦ subst (Found ts t) (rw not_yet refl) (
      scan_forward-Found n ts t (suc m) (subst (λ j. is_after ts t j ≡ true) (omega arith) last)
        (λ k e. suc-eq (λ j. is_after ts t j ≡ false) m k e not_yet))
]

-- Each timestamp is at least the first one.
IsSorted-head :
    (e : TimestampIndex) (rest : List TimestampIndex) (t k : ℕ)
    → IsSorted (e ∷ rest)
    → k < suc (length rest)
    → is_after (e ∷ rest) t k ≡ false
    → e.timestamp ≤ t
IsSorted-head e rest t zero s inside h = ground arith
IsSorted-head e [] t (suc k) s inside h = absurd (omega arith)
IsSorted-head e (f ∷ rest) t (suc k) s inside h =
    omega (arith, IsSorted-head f rest t k s.1 (omega arith) h, s.0)

after-inside : (ts : List TimestampIndex) (t k : ℕ) → is_after ts t k ≡ true → k < length ts
after-inside [] t k h = ground arith
after-inside (e ∷ ts) t zero h = omega arith
after-inside (e ∷ ts) t (suc k) h = omega (arith, after-inside ts t k h)

-- What GetIndex returns at such a position.
Found-first_after :
    (ts : List TimestampIndex) (t m last_index : ℕ)
    → IsSorted ts
    → is_after ts t m ≡ true
    → ((k : ℕ) → m ≡ suc k → is_after ts t k ≡ false)
    → index_at t (get_elem? ts m) ≡ done (first_after ts t last_index)
Found-first_after [] t m last_index s newer first = ground (arith, newer)
Found-first_after (e ∷ ts) t zero last_index s newer first = ground (arith, newer)
Found-first_after (e ∷ ts) t (suc k) last_index s newer first =
    let old : ltb t e.timestamp ≡ false =
      le→ltb t e.timestamp
        (IsSorted-head e ts t k s (omega (arith, after-inside ts t k newer)) (first k refl)) in
    Found-first_after ts t k last_index (IsSorted-tail e ts s) newer
      (λ j h. subst (λ i. is_after (e ∷ ts) t i ≡ false) h (first k refl))
    ∙ rw old refl
  where
    IsSorted-tail :
        (e : TimestampIndex) (ts : List TimestampIndex) → IsSorted (e ∷ ts) → IsSorted ts
    IsSorted-tail e [] s = tt
    IsSorted-tail e (f ∷ ts) s = s.1

scan_forward_skip :
    (n : ℕ) (ts : List TimestampIndex) (t m : ℕ)
    → is_after ts t m ≡ false
    → scan_forward (suc n) ts t m ≡ scan_forward n ts t (suc m)
unfolding scan_forward
scan_forward_skip n ts t m h = rw h

forward-Found :
    (n : ℕ) (ts : List TimestampIndex) (t m : ℕ)
    → is_after ts t (m + n) ≡ true
    → is_after ts t m ≡ false
    → Found ts t (scan_forward n ts t m)
forward-Found zero ts t m last old =
    absurd (true-ne-false (sym (subst (λ j. is_after ts t j ≡ true) (omega arith) last) ∙ old))
  where
    true-ne-false : true ≢ false
    true-ne-false e = ground (arith, e)
forward-Found (suc n) ts t m last old = subst (Found ts t) (sym (scan_forward_skip n ts t m old)) (
    scan_forward-Found n ts t (suc m) (subst (λ j. is_after ts t j ≡ true) (omega arith) last)
      (λ k e. suc-eq (λ j. is_after ts t j ≡ false) m k e old))

-- If the last entry is newer than `t`, both loops end at the first such entry.
adjust-Found :
    (ts : List TimestampIndex) (t m : ℕ)
    → m < length ts
    → is_after ts t (length ts - 1) ≡ true
    → Found ts t (adjust ts t m)
unfolding adjust
adjust-Found ts t m inside last = elim (Bool-cases (is_after ts t m)) [
  | inl after ↦ subst (Found ts t) (rw after refl) (scan_back-Found ts t m after)
  | inr old ↦ subst (Found ts t) (rw old refl) (
      forward-Found (length ts - 1 - m) ts t m
        (subst (λ j. is_after ts t j ≡ true) (omega arith) last) old)
]

-- All the entries are old.
first_after_none :
    (ts : List TimestampIndex) (t last_index k : ℕ)
    → IsSorted ts
    → length ts ≡ suc k
    → is_after ts t k ≡ false
    → first_after ts t last_index ≡ last_index
first_after_none [] t last_index k s e h = refl
first_after_none (e ∷ []) t last_index zero s l h = ground (arith, h)
first_after_none (e ∷ []) t last_index (suc k) s l h = absurd (omega arith)
first_after_none (e ∷ f ∷ ts) t last_index zero s l h = absurd (omega arith)
first_after_none (e ∷ f ∷ ts) t last_index (suc k) s l h =
    rw (le→ltb t e.timestamp (IsSorted-head e (f ∷ ts) t (suc k) s (omega arith) h))
      (first_after_none (f ∷ ts) t last_index k s.1 (omega arith) h)

last_test :
    (ts : List TimestampIndex) (t k : ℕ)
    → length ts ≡ suc k
    → up_to_date ts t ≡ not (is_after ts t k)
last_test ts t k e =
    let (d, found) = get_elem?_inside ts k (omega arith) in
    let same : length ts - 1 ≡ k = omega arith in rw (same, found) (ground arith)

-- On timestamps that do not fall, GetIndex ends inside the vector, never with FATAL, and returns
-- the index of the first entry that is newer than the given timestamp, or `last_index` if none
-- is. The timestamp 0 and the empty vector give 0.
pub get_index-first_after :
    (timestamps : List TimestampIndex) (timestamp last_index : ℕ)
    → IsSorted timestamps
    → get_index timestamps timestamp last_index
      ≡ done (
          if timestamp == 0 || length timestamps == 0
          then 0
          else first_after timestamps timestamp last_index)
unfolding get_index
get_index-first_after ts t last_index s = elim (Bool-cases (t == 0)) [
  | inl start ↦ rw start refl
  | inr later ↦ elim (Bool-cases (length ts == 0)) [
    | inl empty ↦ rw (later, empty) refl
    | inr some_left ↦
        let k = length ts - 1 in
        let whole : length ts ≡ suc k = ground arith in
        let test = last_test ts t k whole in
        elim (Bool-cases (is_after ts t k)) [
          | inr old ↦
              rw (later, some_left, test, old)
                (ap done (sym (first_after_none ts t last_index k s whole old)))
          | inl newer ↦
              let (m, e, inside) =
                search-inside (length ts) ts t 0 (length ts) 0 (length ts) (omega arith)
                  (omega arith) (omega arith) in
              let f = adjust-Found ts t m inside newer in
              rw (later, some_left, test, newer, e)
                (Found-first_after ts t (adjust ts t m) last_index s f.newer f.first)
        ]
  ]
]
