-- ===== src/Crashes/Kept.antt =====
-- Which crashes are kept, after any sequence of them, and under which names.
use jackalope.Prelude.{
  ℕ, zero, suc, ◌+◌, ◌≤◌, min, ◌≡◌, ◌≢◌, refl, sym, ap, subst, ◌∙◌, inl, inr, Option, none, some,
  List, [], ◌∷◌, Bool, true, false, ◌||◌, ltb, ◌==◌, if◌then◌else◌, Bool-cases, ltb→lt, arith,
}
use jackalope.Prelude.Memory.{Bytes}
use jackalope.Prelude.Predicates.{All}
use jackalope.Crashes.{
  same, Crashes, no_crashes, find, update, count_found, count_crash, between, check_filename,
}

-- The crashes of a session, the last one first: their descriptions and their samples' bytes.
abbrev pub count_crashes : ℕ → List (Bytes × Bytes) → Crashes
count_crashes limit [] = no_crashes
count_crashes limit ((desc, saved) ∷ earlier) =
    count_crash limit desc saved (count_crashes limit earlier)

abbrev pub occurrences : Bytes → List (Bytes × Bytes) → ℕ
occurrences d [] = 0
occurrences d (e ∷ es) = (if same d e.0 then 1 else 0) + occurrences d es

-- The numbers of the files that are kept under a description, the last one first.
abbrev pub numbers : Bytes → List (Bytes × ℕ × Bytes) → List ℕ
numbers d [] = []
numbers d (f ∷ files) = if same d f.0 then f.1 ∷ numbers d files else numbers d files

-- `n`, ..., 2, 1
abbrev pub down_from : ℕ → List ℕ
down_from zero = []
down_from (suc n) = suc n ∷ down_from n

abbrev value : Option ℕ → ℕ
value none = 0
value (some n) = n

same_self : (d : Bytes) → same d d ≡ true
same_self [] = refl
same_self (x ∷ d) = ground (arith, same_self d)

pub same-eq : (d e : Bytes) → same d e ≡ true → d ≡ e
same-eq [] [] h = refl
same-eq [] (y ∷ ys) h = ground (arith, h)
same-eq (x ∷ xs) [] h = ground (arith, h)
same-eq (x ∷ xs) (y ∷ ys) h =
    let head : x ≡ y = ground (arith, h) in
    let tail : xs ≡ ys = same-eq xs ys (ground (arith, h)) in rw (head, tail) refl

same_differ : (d e f : Bytes) → same e f ≡ false → same d f ≡ true → same d e ≡ false
same_differ d e f differ h = elim (Bool-cases (same d e)) [
  | inr other ↦ other
  | inl equal ↦ absurd (contra (sym (subst (λ b. same b f ≡ true) (same-eq d e equal) h) ∙ differ))
]
  where
    contra : true ≢ false
    contra e = ground (arith, e)

find-update :
    (d e : Bytes) (n k : ℕ) (es : List (Bytes × ℕ))
    → find e es ≡ some k
    → find d (update e n es) ≡ (if same d e then some n else find d es)
find-update d e n k [] found = ground (arith, found)
find-update d e n k (f ∷ es) found = elim (Bool-cases (same e f.0)) [
  | inl here ↦
      let eq : e ≡ f.0 = same-eq e f.0 here in
      rw (here, eq) (elim (Bool-cases (same d f.0)) [ inl h ↦ rw h refl | inr h ↦ rw h refl ])
  | inr there ↦
      let rest = find-update d e n k es (sym (rw there refl) ∙ found) in
      elim (Bool-cases (same d f.0)) [
        | inl h ↦ rw (there, h, same_differ d e f.0 there h) refl
        | inr h ↦ rw (there, h) rest
      ]
]

-- What the map holds of a description with `k` kept files.
abbrev stored : ℕ → Option ℕ
stored zero = none
stored (suc k) = some (suc k)

record IsKept (limit : ℕ) (d : Bytes) (crashes : List (Bytes × Bytes)) (c : Crashes) : Type 0 where
  count : find d c.unique_crashes ≡ stored (min limit (occurrences d crashes))
  kept : numbers d c.files ≡ down_from (min limit (occurrences d crashes))

stored-value : (k n : ℕ) → stored k ≡ some n → k ≡ n
stored-value zero n e = ground (arith, e)
stored-value (suc k) n e = ground (arith, e)

stored-none : (k : ℕ) → stored k ≡ none → k ≡ 0
stored-none zero e = refl
stored-none (suc k) e = ground (arith, e)

occurrences_same :
    (d saved : Bytes) (crashes : List (Bytes × Bytes))
    → occurrences d ((d, saved) ∷ crashes) ≡ suc (occurrences d crashes)
occurrences_same d saved crashes = ground (arith, same_self d)

occurrences_other :
    (d e saved : Bytes) (crashes : List (Bytes × Bytes))
    → same d e ≡ false
    → occurrences d ((e, saved) ∷ crashes) ≡ occurrences d crashes
occurrences_other d e saved crashes h = ground (arith, h)

if_same {ℓ} : {A : Type ℓ} (d : Bytes) (x y : A) → (if same d d then x else y) ≡ x
if_same d x y = ap (λ b. if b then x else y) (same_self d)

if_other {ℓ} : {A : Type ℓ} (b : Bool) (x y : A) → b ≡ false → (if b then x else y) ≡ y
if_other b x y h = ap (λ b. if b then x else y) h

-- One more crash of a description.
again-IsKept :
    (limit : ℕ) (d saved : Bytes) (crashes : List (Bytes × Bytes)) (c : Crashes) (found : Option ℕ)
    → 1 ≤ limit
    → IsKept limit d crashes c
    → find d c.unique_crashes ≡ found
    → IsKept limit d ((d, saved) ∷ crashes) (count_found limit d saved found c)
again-IsKept limit d saved crashes c none pos h e =
    let unseen = stored-none (min limit (occurrences d crashes)) (sym h.count ∙ e) in
    let one : 1 ≡ min limit (occurrences d ((d, saved) ∷ crashes)) =
      omega (arith, unseen, occurrences_same d saved crashes) in
    record {
      count = if_same d (some 1) (find d c.unique_crashes) ∙ ap stored one;
      kept =
          if_same d (1 ∷ numbers d c.files) (numbers d c.files)
          ∙ ap (λ ns. 1 ∷ ns) (h.kept ∙ ap down_from unseen)
          ∙ ap down_from one;
    }
again-IsKept limit d saved crashes c (some n) pos h e =
    let seen = stored-value (min limit (occurrences d crashes)) n (sym h.count ∙ e) in
    elim (Bool-cases (ltb n limit)) [
      | inl more ↦
          let next : suc n ≡ min limit (occurrences d ((d, saved) ∷ crashes)) =
            omega (arith, seen, occurrences_same d saved crashes, ltb→lt n limit more) in
          rw more (record {
            count =
                find-update d d (suc n) n c.unique_crashes e
                ∙ if_same d (some (suc n)) (find d c.unique_crashes)
                ∙ ap stored next;
            kept =
                if_same d (suc n ∷ numbers d c.files) (numbers d c.files)
                ∙ ap (λ ns. suc n ∷ ns) (h.kept ∙ ap down_from seen)
                ∙ ap down_from next;
          })
      | inr full ↦
          let as_before : min limit (occurrences d crashes)
              ≡ min limit (occurrences d ((d, saved) ∷ crashes)) =
            ground (arith, seen, occurrences_same d saved crashes, full) in
          rw full (record {
            count = h.count ∙ ap stored as_before;
            kept = h.kept ∙ ap down_from as_before;
          })
    ]

-- A crash of another description.
other-IsKept :
    (limit : ℕ) (d e saved : Bytes) (crashes : List (Bytes × Bytes)) (c : Crashes)
    (found : Option ℕ)
    → IsKept limit d crashes c
    → same d e ≡ false
    → find e c.unique_crashes ≡ found
    → IsKept limit d ((e, saved) ∷ crashes) (count_found limit e saved found c)
other-IsKept limit d e saved crashes c none h other f =
    let as_before = sym (occurrences_other d e saved crashes other) in
    record {
      count =
          if_other (same d e) (some 1) (find d c.unique_crashes) other
          ∙ h.count
          ∙ ap (λ n. stored (min limit n)) as_before;
      kept =
          if_other (same d e) (1 ∷ numbers d c.files) (numbers d c.files) other
          ∙ h.kept
          ∙ ap (λ n. down_from (min limit n)) as_before;
    }
other-IsKept limit d e saved crashes c (some n) h other f =
    let as_before = sym (occurrences_other d e saved crashes other) in
    elim (Bool-cases (ltb n limit)) [
      | inl more ↦ rw more (record {
        count =
            find-update d e (suc n) n c.unique_crashes f
            ∙ if_other (same d e) (some (suc n)) (find d c.unique_crashes) other
            ∙ h.count
            ∙ ap (λ n. stored (min limit n)) as_before;
        kept =
            if_other (same d e) (suc n ∷ numbers d c.files) (numbers d c.files) other
            ∙ h.kept
            ∙ ap (λ n. down_from (min limit n)) as_before;
      })
      | inr full ↦ rw full (record {
        count = h.count ∙ ap (λ n. stored (min limit n)) as_before;
        kept = h.kept ∙ ap (λ n. down_from (min limit n)) as_before;
      })
    ]

count_crashes-IsKept :
    (limit : ℕ) (d : Bytes) (crashes : List (Bytes × Bytes))
    → 1 ≤ limit
    → IsKept limit d crashes (count_crashes limit crashes)
unfolding count_crash
count_crashes-IsKept limit d [] pos =
    let none_yet : 0 ≡ min limit 0 = omega arith in
    record { count = ap stored none_yet; kept = ap down_from none_yet }
count_crashes-IsKept limit d ((e, saved) ∷ crashes) pos =
    let c = count_crashes limit crashes in
    let h = count_crashes-IsKept limit d crashes pos in
    elim (Bool-cases (same d e)) [
      | inl equal ↦
          subst (λ b. IsKept limit d ((b, saved) ∷ crashes) (count_crash limit b saved c))
            (same-eq d e equal)
            (again-IsKept limit d saved crashes c (find d c.unique_crashes) pos h refl)
      | inr other ↦ other-IsKept limit d e saved crashes c (find e c.unique_crashes) h other refl
    ]

-- After any sequence of crashes, with a limit of at least 1, the files kept under a description
-- are numbered 1, 2, ... up to how often it occurred, but not beyond the limit.
pub numbers-count_crashes :
    (limit : ℕ) (d : Bytes) (crashes : List (Bytes × Bytes))
    → 1 ≤ limit
    → numbers d (count_crashes limit crashes).files ≡ down_from (min limit (occurrences d crashes))
numbers-count_crashes limit d crashes pos = (count_crashes-IsKept limit d crashes pos).kept

-- The characters that a file name of the server may have: none of them is a dot or a separator.
abbrev pub IsPlain : ℕ → Type 0
IsPlain c = (c ≢ b'.') × (c ≢ b'/') × (c ≢ b'\\') × (c ≢ b':')

-- The test of one character.
allowed-IsPlain :
    (c : ℕ)
    → (between b'0' b'9' c || between b'a' b'z' c || between b'A' b'Z' c || c == b'-' || c == b'_')
      ≡ true
    → IsPlain c
allowed-IsPlain c h = (
  λ e. ground (arith, h, e),
  λ e. ground (arith, h, e),
  λ e. ground (arith, h, e),
  λ e. ground (arith, h, e),
)

-- A description that CheckFilename lets pass names a file in the crash directory itself: it has
-- no dot, no slash, no backslash and no colon.
pub check_filename-IsPlain : (name : Bytes) → check_filename name ≡ true → All IsPlain name
unfolding check_filename
check_filename-IsPlain [] h = tt
check_filename-IsPlain (c ∷ cs) h =
    (allowed-IsPlain c (ground (arith, h)), check_filename-IsPlain cs (ground (arith, h)))
