-- ===== src/Mutators/Deterministic/Pending.antt =====
-- mutator.cpp, BaseDeterministicContext::GetNextByteToMutate: the positions and values that are
-- still to come.
use jackalope.Prelude.{
  ℕ, zero, suc, ◌+◌, ◌-◌, ◌≤◌, ◌<◌, ◌≡◌, refl, ap, ◌∙◌, sym, subst, inl, inr, Option, none, some,
  List, [], ◌∷◌, ◌++◌, ltb, leb, if◌then◌else◌, map, Bool-cases, le→ltb, lt→ltb, take, Option-cases,
  leb→le, ltb→lt, arith,
}
use jackalope.Mutators.Deterministic.{
  Region, Context, Next, advance, try_region, scan_regions, get_next_byte,
}

-- The numbers from `a` on, `n` of them.
abbrev pub counting : ℕ → ℕ → List ℕ
counting a zero = []
counting a (suc n) = a ∷ counting (suc a) n

-- The values from `from` below `max` at a position.
abbrev pub row : ℕ → ℕ → ℕ → List (ℕ × ℕ)
row max pos from = map (λ v. (pos, v)) (counting from (max - from))

-- All values at each of `n` positions.
abbrev pub rows : ℕ → ℕ → ℕ → List (ℕ × ℕ)
rows max pos zero = []
rows max pos (suc n) = row max pos 0 ++ rows max (suc pos) n

unfoldable pub rows_left : ℕ → Region → List (ℕ × ℕ)
rows_left max r =
    if ltb r.cur r.end
    then row max r.cur r.cur_progress ++ rows max (suc r.cur) (r.end - suc r.cur)
    else []

-- What is left from the region with index `i` on.
unfoldable pub pending_from : ℕ → ℕ → List Region → List (ℕ × ℕ)
unfolding rows_left
pending_from max i [] = []
pending_from max zero (r ∷ rs) = rows_left max r ++ pending_from max zero rs
pending_from max (suc i) (r ∷ rs) = pending_from max i rs

unfoldable pub pending : ℕ → Context → List (ℕ × ℕ)
unfolding pending_from
pending max c = pending_from max c.cur_region c.regions

-- The first entry and the others.
abbrev pub Splits : List (ℕ × ℕ) → Option (ℕ × ℕ) → List (ℕ × ℕ) → Type 0
Splits all none rest = (all ≡ []) × (rest ≡ [])
Splits all (some p) rest = all ≡ p ∷ rest

rows_left_done : (max : ℕ) (r : Region) → r.end ≤ r.cur → rows_left max r ≡ []
unfolding rows_left
rows_left_done max r h = rw (le→ltb r.cur r.end h)

pub rows_left_live :
    (max : ℕ) (r : Region)
    → r.cur < r.end
    → rows_left max r ≡ row max r.cur r.cur_progress ++ rows max (suc r.cur) (r.end - suc r.cur)
unfolding rows_left
rows_left_live max r h = rw (lt→ltb r.cur r.end h)

row_past : (max pos from : ℕ) → max ≤ from → row max pos from ≡ []
row_past max pos from h =
    let e : max - from ≡ 0 = omega arith in ap (λ n. map (λ v. (pos, v)) (counting from n)) e

row_next : (max pos from : ℕ) → from < max → row max pos from ≡ (pos, from) ∷ row max pos (from + 1)
row_next max pos from h =
    let e : max - from ≡ suc (max - suc from) = omega arith in
    let f : suc from ≡ from + 1 = omega arith in
    ap (λ (n : ℕ). map (λ v. (pos, v)) (counting from n)) e
    ∙ ap (λ (k : ℕ). (pos, from) ∷ row max pos k) f

pub rows_next :
    (max pos end : ℕ)
    → pos < end
    → rows max pos (end - pos) ≡ row max pos 0 ++ rows max (suc pos) (end - suc pos)
rows_next max pos end h =
    let e : end - pos ≡ suc (end - suc pos) = omega arith in ap (λ (n : ℕ). rows max pos n) e

rows_none : (max pos end : ℕ) → end ≤ pos → rows max pos (end - pos) ≡ []
rows_none max pos end h = let e : end - pos ≡ 0 = omega arith in ap (λ (n : ℕ). rows max pos n) e

-- Going on to the next byte leaves the same work.
abbrev next_byte : Region → Region
next_byte r = record r { cur_progress = 0; cur = r.cur + 1 }

rows_left-next_byte :
    (max : ℕ) (r : Region) → max ≤ r.cur_progress → rows_left max (next_byte r) ≡ rows_left max r
rows_left-next_byte max r p = elim (Bool-cases (ltb (r.cur + 1) r.end)) [
  | inl h ↦
      let f : suc r.cur ≡ r.cur + 1 = omega arith in
      rows_left_live max (next_byte r) (ltb→lt _ _ h)
      ∙ sym (rows_next max (r.cur + 1) r.end (ltb→lt _ _ h))
      ∙ ap (λ (k : ℕ). rows max k (r.end - k)) (sym f)
      ∙ ap (λ (l : List (ℕ × ℕ)). l ++ rows max (suc r.cur) (r.end - suc r.cur))
          (sym (row_past max r.cur r.cur_progress p))
      ∙ sym (rows_left_live max r (ground (arith, h)))
  | inr h ↦ elim (Bool-cases (ltb r.cur r.end)) [
    | inr g ↦
        rows_left_done max (next_byte r) (ground arith) ∙ sym (rows_left_done max r (ground arith))
    | inl g ↦
        rows_left_done max (next_byte r) (ground arith)
        ∙ sym (rows_none max (suc r.cur) r.end (ground arith))
        ∙ ap (λ (l : List (ℕ × ℕ)). l ++ rows max (suc r.cur) (r.end - suc r.cur))
            (sym (row_past max r.cur r.cur_progress p))
        ∙ sym (rows_left_live max r (ltb→lt _ _ g))
  ]
]

rows_left-advance : (max : ℕ) (r : Region) → rows_left max (advance max r) ≡ rows_left max r
rows_left-advance max r = elim (Bool-cases (leb max r.cur_progress)) [
  | inr h ↦ rw h refl
  | inl h ↦ rw h (rows_left-next_byte max r (leb→le _ _ h))
]

advance-lt : (max : ℕ) (r : Region) → 0 < max → (advance max r).cur_progress < max
advance-lt max r h = ground arith

-- The first pair of a region that has one, and what is then left of it.
rows_left_first :
    (max : ℕ) (r : Region)
    → r.cur < r.end
    → r.cur_progress < max
    → rows_left max r
      ≡ (r.cur, r.cur_progress) ∷ rows_left max (record r { cur_progress = r.cur_progress + 1 })
rows_left_first max r h p =
    rows_left_live max r h
    ∙ ap (λ (l : List (ℕ × ℕ)). l ++ rows max (suc r.cur) (r.end - suc r.cur))
        (row_next max r.cur r.cur_progress p)
    ∙ ap (λ (l : List (ℕ × ℕ)). (r.cur, r.cur_progress) ∷ l)
        (sym (rows_left_live max (record r { cur_progress = r.cur_progress + 1 }) h))

abbrev left_from : ℕ → Next → List (ℕ × ℕ)
left_from max n = pending_from max n.context.cur_region n.context.regions

Splits-eq :
    {a b : List (ℕ × ℕ)} (o : Option (ℕ × ℕ)) {rest rest' : List (ℕ × ℕ)}
    → a ≡ b
    → rest ≡ rest'
    → Splits b o rest'
    → Splits a o rest
Splits-eq none e f s = (e ∙ s.0, f ∙ s.1)
Splits-eq (some p) e f s = e ∙ s ∙ ap (λ (l : List (ℕ × ℕ)). p ∷ l) (sym f)

try_region-Splits :
    (max : ℕ) (r : Region) (rs : List Region) (n : Next)
    → r.cur_progress < max
    → Splits (pending_from max 0 rs) n.found (left_from max n)
    → Splits
        (rows_left max r ++ pending_from max 0 rs)
        (try_region r rs n).found
        (left_from max (try_region r rs n))
unfolding pending_from
try_region-Splits max r rs n p s = elim (Bool-cases (leb r.end r.cur)) [
  | inl h ↦ rw h (
      Splits-eq n.found
        (ap (λ (l : List (ℕ × ℕ)). l ++ pending_from max 0 rs)
          (rows_left_done max r (leb→le _ _ h)))
        refl s)
  | inr h ↦ rw h (
      ap (λ (l : List (ℕ × ℕ)). l ++ pending_from max 0 rs)
        (rows_left_first max r (ground arith) p))
]

scan_regions-Splits :
    (max i : ℕ) (rs : List Region)
    → 0 < max
    → Splits
        (pending_from max i rs)
        (scan_regions max i rs).found
        (left_from max (scan_regions max i rs))
unfolding scan_regions pending_from
scan_regions-Splits max zero [] h = (refl, refl)
scan_regions-Splits max (suc i) [] h = (refl, refl)
scan_regions-Splits max zero (r ∷ rs) h =
    Splits-eq (try_region (advance max r) rs (scan_regions max 0 rs)).found
      (ap (λ (l : List (ℕ × ℕ)). l ++ pending_from max 0 rs) (sym (rows_left-advance max r))) refl
      (try_region-Splits max (advance max r) rs (scan_regions max 0 rs) (advance-lt max r h)
        (scan_regions-Splits max 0 rs h))
scan_regions-Splits max (suc i) (r ∷ rs) h = scan_regions-Splits max i rs h

-- What `n` calls of GetNextByteToMutate hand out, up to the first one that returns false.
unfoldable pub handed_out : ℕ → ℕ → Context → List (ℕ × ℕ)
handed_out max zero c = []
handed_out max (suc n) c = elim ((get_next_byte max c).found) [
  | none ↦ []
  | some p ↦ p ∷ handed_out max n (get_next_byte max c).context
]

pub get_next_byte-Splits :
    (max : ℕ) (c : Context)
    → 0 < max
    → Splits (pending max c) (get_next_byte max c).found (pending max (get_next_byte max c).context)
unfolding get_next_byte pending
get_next_byte-Splits max c = scan_regions-Splits max c.cur_region c.regions

handed_out-some :
    (max n : ℕ) (c : Context) {p : ℕ × ℕ}
    → (get_next_byte max c).found ≡ some p
    → handed_out max (suc n) c ≡ p ∷ handed_out max n (get_next_byte max c).context
unfolding handed_out
handed_out-some max n c e = rw (handed_out, e) refl

handed_out-none :
    (max n : ℕ) (c : Context) → (get_next_byte max c).found ≡ none → handed_out max (suc n) c ≡ []
unfolding handed_out
handed_out-none max n c e = rw (handed_out, e) refl

-- With values below a positive `max`, the calls hand out the pairs of a byte and a value that are
-- pending, in order: for each region from the current one on the values from its progress on at
-- its current byte, then all values at each later byte of it; and they return false when there
-- are no more.
pub handed_out-pending :
    (max n : ℕ) (c : Context) → 0 < max → handed_out max n c ≡ take n (pending max c)
unfolding handed_out
handed_out-pending max zero c h = refl
handed_out-pending max (suc n) c h = elim (Option-cases (get_next_byte max c).found) [
  | inl e ↦
      let s : Splits (pending max c) none (pending max (get_next_byte max c).context) =
        subst
          (λ (o : Option (ℕ × ℕ)).
            Splits (pending max c) o (pending max (get_next_byte max c).context))
          e (get_next_byte-Splits max c h) in
      handed_out-none max n c e ∙ ap (λ (l : List (ℕ × ℕ)). take (suc n) l) (sym s.0)
  | inr (p, e) ↦
      let s : Splits (pending max c) (some p) (pending max (get_next_byte max c).context) =
        subst
          (λ (o : Option (ℕ × ℕ)).
            Splits (pending max c) o (pending max (get_next_byte max c).context))
          e (get_next_byte-Splits max c h) in
      handed_out-some max n c e
      ∙ ap (λ (l : List (ℕ × ℕ)). p ∷ l) (handed_out-pending max n (get_next_byte max c).context h)
      ∙ ap (λ (l : List (ℕ × ℕ)). take (suc n) l) (sym s)
]
