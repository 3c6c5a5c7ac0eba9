-- ===== src/Coverage/Lists.antt =====
-- Coverage as a list of offsets with their modules: a concrete instance, for tests.
use jackalope.Prelude.{
  ℕ, ◌≡◌, refl, sym, ap, ◌∙◌, inl, inr, List, [], ◌∷◌, ◌++◌, Bool, true, false, ◌&&◌, ◌||◌, not,
  ◌==◌, if◌then◌else◌, Bool-cases, arith,
}
use jackalope.Prelude.Memory.{Bytes}
use jackalope.Crashes.{same}
use jackalope.Crashes.Kept.{same-eq}
use jackalope.Coverage.{CoverageOps}

abbrev pub Offsets : Type 0
Offsets = List (Bytes × ℕ)

abbrev hit : Bytes → ℕ → Bytes × ℕ → Bool
hit m x e = same m e.0 && x == e.1

abbrev pub has : Offsets → Bytes → ℕ → Bool
has [] m x = false
has (e ∷ c) m x = hit m x e || has c m x

-- The entries of the second list for whose presence in the first the answer is `keep`.
abbrev pub filter : Bool → Offsets → Offsets → Offsets
filter keep a [] = []
filter keep a (e ∷ b) =
    let rest = filter keep a b in
    if keep
    then (if has a e.0 e.1 then e ∷ rest else rest)
    else (if has a e.0 e.1 then rest else e ∷ rest)

abbrev pub contains : Offsets → Offsets → Bool
contains a [] = true
contains a (e ∷ b) = has a e.0 e.1 && contains a b

abbrev pub is_none : Offsets → Bool
is_none [] = true
is_none (e ∷ c) = false

-- An entry that is hit is the offset asked for.
hit-has :
    (a : Offsets) (m : Bytes) (x : ℕ) (e : Bytes × ℕ) → hit m x e ≡ true → has a e.0 e.1 ≡ has a m x
hit-has a m x e h =
    let module_same : m ≡ e.0 = same-eq m e.0 (ground (arith, h)) in
    let offset_same : x ≡ e.1 = ground (arith, h) in
    sym (ap (λ n. has a n x) module_same ∙ ap (has a e.0) offset_same)

pub has-append : (a b : Offsets) (m : Bytes) (x : ℕ) → has (a ++ b) m x ≡ has a m x || has b m x
has-append [] b m x = refl
has-append (e ∷ a) b m x = ground (arith, has-append a b m x)

pub has-filter_out :
    (a b : Offsets) (m : Bytes) (x : ℕ) → has (filter false a b) m x ≡ has b m x && not (has a m x)
has-filter_out a [] m x = refl
has-filter_out a (e ∷ b) m x = elim (Bool-cases (hit m x e)) [
  | inl h ↦ ground (arith, h, hit-has a m x e h, has-filter_out a b m x)
  | inr h ↦ ground (arith, h, has-filter_out a b m x)
]

pub has-filter_in :
    (a b : Offsets) (m : Bytes) (x : ℕ) → has (filter true a b) m x ≡ has a m x && has b m x
has-filter_in a [] m x = ground arith
has-filter_in a (e ∷ b) m x = elim (Bool-cases (hit m x e)) [
  | inl h ↦ ground (arith, h, hit-has a m x e h, has-filter_in a b m x)
  | inr h ↦ ground (arith, h, has-filter_in a b m x)
]

pub has-contained :
    (a b : Offsets)
    → contains a b ≡ true
    → (m : Bytes) (x : ℕ) → has b m x ≡ true
    → has a m x ≡ true
has-contained a [] h m x k = ground (arith, k)
has-contained a (e ∷ b) h m x k = elim (Bool-cases (hit m x e)) [
  | inl found ↦ ground (arith, h, hit-has a m x e found)
  | inr other ↦ has-contained a b (ground (arith, h)) m x (ground (arith, k, other))
]

pub has-is_none : (c : Offsets) → is_none c ≡ true → (m : Bytes) (x : ℕ) → has c m x ≡ false
has-is_none [] h m x = refl
has-is_none (e ∷ c) h m x = ground (arith, h)

abbrev pub offsets : CoverageOps Offsets
offsets = record {
  none_covered = [];
  has = has;
  empty = is_none;
  coverage_difference = filter false;
  coverage_intersection = filter true;
  merge_coverage = λ a b. a ++ b;
  coverage_contains = contains;
  has-difference = has-filter_out;
  has-intersection = has-filter_in;
  has-merge = has-append;
  has-contains = has-contained;
  has-empty = has-is_none;
  has-none_covered = λ m x. refl;
}
