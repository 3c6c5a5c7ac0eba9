-- ===== src/Fuzzer/Order.antt =====
-- The top of the queue: that it is an entry of the queue, and in which order entries are popped.
use jackalope.Prelude.{
  ℕ, ◌+◌, ◌≤◌, ◌<◌, ◌⊎◌, ◌≡◌, refl, sym, subst, inl, inr, Option, none, some, List, [], ◌∷◌, true,
  false, ◌==◌, if◌then◌else◌, get_elem?, Bool-cases, arith,
}
use jackalope.Prelude.Predicates.{All, All-weaken}
use jackalope.Fuzzer.Entries.{SampleQueueEntry}
use jackalope.Fuzzer.Queue.{cmp_found, cmp, greatest, count, remove, pop_top}

count-remove :
    (p t : ℕ) (xs : List ℕ)
    → 1 ≤ count t xs
    → count p xs ≡ (if p == t then 1 else 0) + count p (remove t xs)
count-remove p t [] h = absurd (omega arith)
count-remove p t (x ∷ xs) h = ground (arith, count-remove p t xs)

greatest_less :
    (entries : List SampleQueueEntry) (p q : ℕ) (qs : List ℕ)
    → cmp entries p q ≡ true
    → greatest entries p (q ∷ qs) ≡ greatest entries q qs
unfolding greatest
greatest_less entries p q qs h = rw h

greatest_more :
    (entries : List SampleQueueEntry) (p q : ℕ) (qs : List ℕ)
    → cmp entries p q ≡ false
    → greatest entries p (q ∷ qs) ≡ greatest entries p qs
unfolding greatest
greatest_more entries p q qs h = rw h

greatest_one : (entries : List SampleQueueEntry) (p : ℕ) → greatest entries p [] ≡ p
unfolding greatest
greatest_one entries p = refl

count-greatest :
    (entries : List SampleQueueEntry) (p : ℕ) (qs : List ℕ)
    → 1 ≤ count (greatest entries p qs) (p ∷ qs)
count-greatest entries p [] = ground (arith, greatest_one entries p)
count-greatest entries p (q ∷ qs) = elim (Bool-cases (cmp entries p q)) [
  | inl less ↦
      subst (λ t. 1 ≤ count t (p ∷ q ∷ qs)) (sym (greatest_less entries p q qs less))
        (omega (arith, count-greatest entries q qs))
  | inr more ↦
      subst (λ t. 1 ≤ count t (p ∷ q ∷ qs)) (sym (greatest_more entries p q qs more))
        (ground (arith, count-greatest entries p qs))
]

-- `pop` takes one occurrence of the top from the queue.
pub count-pop_top :
    (p : ℕ) (entries : List SampleQueueEntry) (queue : List ℕ) (t : ℕ) (rest : List ℕ)
    → pop_top entries queue ≡ some (t, rest)
    → count p queue ≡ (if p == t then 1 else 0) + count p rest
unfolding pop_top
count-pop_top p entries [] t rest e = ground (arith, e)
count-pop_top p entries (q ∷ qs) t rest e =
    let n : greatest entries q qs ≡ t = ground (arith, e) in
    let r : remove (greatest entries q qs) (q ∷ qs) ≡ rest = ground (arith, e) in
    rw (sym r, sym n)
      (count-remove p (greatest entries q qs) (q ∷ qs) (count-greatest entries q qs))

cmp_found_trans :
    (a b c : Option SampleQueueEntry)
    → cmp_found a b ≡ true
    → cmp_found a c ≡ false
    → cmp_found b c ≡ false
cmp_found_trans (some a) (some b) (some c) h k = ground (arith, h, k)
cmp_found_trans (some a) (some b) none h k = refl
cmp_found_trans (some a) none c h k = ground (arith, h)
cmp_found_trans none b c h k = ground (arith, h)

cmp_found_self : (a : Option SampleQueueEntry) → cmp_found a a ≡ false
cmp_found_self none = refl
cmp_found_self (some a) = ground arith

cmp_found-asym : (a b : Option SampleQueueEntry) → cmp_found a b ≡ true → cmp_found b a ≡ false
cmp_found-asym (some a) (some b) h = ground (arith, h)
cmp_found-asym (some a) none h = ground (arith, h)
cmp_found-asym none b h = ground (arith, h)

-- CmpEntryPtrs puts no pointer of the list above `t`.
abbrev IsGreatest : List SampleQueueEntry → ℕ → List ℕ → Type 0
IsGreatest entries t qs = All (λ q. cmp entries t q ≡ false) qs

-- What is not before `p`, and so not before the greatest, of `p` and others.
greatest-le :
    (entries : List SampleQueueEntry) (p : ℕ) (qs : List ℕ) (x : ℕ)
    → cmp entries p x ≡ false
    → cmp entries (greatest entries p qs) x ≡ false
greatest-le entries p [] x h = rw (greatest_one entries p) h
greatest-le entries p (q ∷ qs) x h = elim (Bool-cases (cmp entries p q)) [
  | inl less ↦ rw (greatest_less entries p q qs less) (
      greatest-le entries q qs x
        (cmp_found_trans (get_elem? entries p) (get_elem? entries q) (get_elem? entries x) less h))
  | inr more ↦ rw (greatest_more entries p q qs more) (greatest-le entries p qs x h)
]

greatest-IsGreatest :
    (entries : List SampleQueueEntry) (p : ℕ) (qs : List ℕ)
    → IsGreatest entries (greatest entries p qs) qs
greatest-IsGreatest entries p [] = tt
greatest-IsGreatest entries p (q ∷ qs) = elim (Bool-cases (cmp entries p q)) [
  | inl less ↦
      subst (λ t. IsGreatest entries t (q ∷ qs)) (sym (greatest_less entries p q qs less))
        (
          greatest-le entries q qs q (cmp_found_self (get_elem? entries q)),
          greatest-IsGreatest entries q qs,
        )
  | inr more ↦
      subst (λ t. IsGreatest entries t (q ∷ qs)) (sym (greatest_more entries p q qs more))
        (greatest-le entries p qs q more, greatest-IsGreatest entries p qs)
]

pop-IsGreatest :
    (entries : List SampleQueueEntry) (queue : List ℕ) (t : ℕ) (rest : List ℕ)
    → pop_top entries queue ≡ some (t, rest)
    → IsGreatest entries t queue
unfolding pop_top
pop-IsGreatest entries [] t rest e = tt
pop-IsGreatest entries (q ∷ qs) t rest e =
    let n : greatest entries q qs ≡ t = ground (arith, e) in
    subst (λ t. IsGreatest entries t (q ∷ qs)) n
      (
        greatest-le entries q qs q (cmp_found_self (get_elem? entries q)),
        greatest-IsGreatest entries q qs,
      )

-- The first entry goes before the second: its priority is higher, or they are the same and the
-- second is not newer.
abbrev pub GoesBefore : Option SampleQueueEntry → Option SampleQueueEntry → Type 0
GoesBefore (some a) (some b) =
    (a.priority_below_0 < b.priority_below_0)
    ⊎ ((a.priority_below_0 ≡ b.priority_below_0) × (b.sample_index ≤ a.sample_index))
GoesBefore _ _ = Unit

-- The pointer's entry goes before those of all pointers of the list.
abbrev pub IsTop : List SampleQueueEntry → ℕ → List ℕ → Type 0
IsTop entries t qs = All (λ q. GoesBefore (get_elem? entries t) (get_elem? entries q)) qs

cmp_found-GoesBefore : (a b : Option SampleQueueEntry) → cmp_found a b ≡ false → GoesBefore a b
cmp_found-GoesBefore (some a) (some b) h =
    elim (Bool-cases (a.priority_below_0 == b.priority_below_0)) [
      | inl same ↦ inr (ground (arith, same), ground (arith, h, same))
      | inr differ ↦ inl (ground (arith, h, differ))
    ]
cmp_found-GoesBefore (some a) none h = tt
cmp_found-GoesBefore none b h = tt

-- The entry that `pop` takes is in the queue; each other entry of the queue has a lower priority, or
-- the same priority and no greater sample index; and just that one goes: the others stay as often
-- as they were.
pub pop_top-IsTop :
    (entries : List SampleQueueEntry) (queue : List ℕ) (t : ℕ) (rest : List ℕ)
    → pop_top entries queue ≡ some (t, rest)
    → IsTop entries t queue × ((p : ℕ) → count p queue ≡ (if p == t then 1 else 0) + count p rest)
pop_top-IsTop entries queue t rest e = (
  All-weaken (λ q. cmp entries t q ≡ false)
      (λ q. GoesBefore (get_elem? entries t) (get_elem? entries q)) queue
      (λ q h. cmp_found-GoesBefore (get_elem? entries t) (get_elem? entries q) h)
      (pop-IsGreatest entries queue t rest e),
  λ p. count-pop_top p entries queue t rest e,
)
