-- ===== src/Mutators/Deterministic/Calls.antt =====
-- mutator.cpp: any calls of AddHotOffset and GetNextByteToMutate on a context.
use jackalope.Prelude.{
  ℕ, zero, suc, ◌+◌, ◌≡◌, refl, inl, inr, List, [], ◌∷◌, ◌++◌, leb, Bool-cases, arith,
}
use jackalope.Mutators.Deterministic.{
  Region, Context, region_start, add_hot_offset, create_context, advance, scan_regions,
  get_next_byte,
}
use jackalope.Mutators.Deterministic.Covered.{
  Covered, AreLinked, put_region-Covered, Covered-put_region, put_region-AreLinked,
}

-- The loop of GetNextByteToMutate leaves the bounds of the regions alone.
abbrev SameBounds : List Region → List Region → Type 0
SameBounds [] [] = Unit
SameBounds [] (q ∷ qs) = ⊥
SameBounds (r ∷ rs) [] = ⊥
SameBounds (r ∷ rs) (q ∷ qs) = (q.start ≡ r.start) × (q.end ≡ r.end) × SameBounds rs qs

SameBounds-refl : (rs : List Region) → SameBounds rs rs
SameBounds-refl [] = tt
SameBounds-refl (r ∷ rs) = (refl, refl, SameBounds-refl rs)

advance_bounds :
    (max : ℕ) (r : Region) → ((advance max r).start ≡ r.start) × ((advance max r).end ≡ r.end)
advance_bounds max r = elim (Bool-cases (leb max r.cur_progress)) [
  | inl h ↦ rw h (refl, refl)
  | inr h ↦ rw h (refl, refl)
]

scan_regions-SameBounds :
    (max i : ℕ) (rs : List Region) → SameBounds rs (scan_regions max i rs).context.regions
unfolding scan_regions
scan_regions-SameBounds max zero [] = tt
scan_regions-SameBounds max (suc i) [] = tt
scan_regions-SameBounds max zero (r ∷ rs) =
    elim (Bool-cases (leb (advance max r).end (advance max r).cur)) [
      | inl h ↦
          rw h
            ((advance_bounds max r).0, (advance_bounds max r).1, scan_regions-SameBounds max 0 rs)
      | inr h ↦ rw h ((advance_bounds max r).0, (advance_bounds max r).1, SameBounds-refl rs)
    ]
scan_regions-SameBounds max (suc i) (r ∷ rs) = (refl, refl, scan_regions-SameBounds max i rs)

Covered-SameBounds : (o : ℕ) (rs qs : List Region) → SameBounds rs qs → Covered o rs → Covered o qs
Covered-SameBounds o [] qs s h = elim h [ ]
Covered-SameBounds o (r ∷ rs) [] s h = elim s [ ]
Covered-SameBounds o (r ∷ rs) (q ∷ qs) (a, b, s) (inl h) = inl (omega arith)
Covered-SameBounds o (r ∷ rs) (q ∷ qs) (a, b, s) (inr h) = inr (Covered-SameBounds o rs qs s h)

AreLinked-SameBounds : (rs qs : List Region) → SameBounds rs qs → AreLinked rs → AreLinked qs
AreLinked-SameBounds [] [] s h = tt
AreLinked-SameBounds [] (q ∷ qs) s h = elim s [ ]
AreLinked-SameBounds (r ∷ rs) [] s h = elim s [ ]
AreLinked-SameBounds (r ∷ []) (q ∷ []) (a, b, s) (h, t) = (omega arith, tt)
AreLinked-SameBounds (r ∷ []) (q ∷ (q' ∷ qs)) (a, b, s) h = elim s [ ]
AreLinked-SameBounds (r ∷ (r' ∷ rs)) (q ∷ []) (a, b, s) h = elim s [ ]
AreLinked-SameBounds (r ∷ (r' ∷ rs)) (q ∷ (q' ∷ qs)) (a, b, s) (inl h, t) =
    (inl (omega arith), AreLinked-SameBounds (r' ∷ rs) (q' ∷ qs) s t)
AreLinked-SameBounds (r ∷ (r' ∷ rs)) (q ∷ (q' ∷ qs)) (a, b, s) (inr h, t) =
    (inr (omega arith), AreLinked-SameBounds (r' ∷ rs) (q' ∷ qs) s t)

-- The calls on a context, each made while its mutex is held.
pub data Call : Type 0 where
  hot : ℕ → Call
  next : ℕ → Call

abbrev pub made : Call → Context → Context
made (hot offset) c = add_hot_offset offset c
made (next max_progress) c = (get_next_byte max_progress c).context

-- A context after a list of calls, the first one first.
pub after : List Call → Context → Context
after [] c = c
after (call ∷ calls) c = after calls (made call c)

made-AreLinked : (call : Call) (c : Context) → AreLinked c.regions → AreLinked (made call c).regions
unfolding add_hot_offset get_next_byte
made-AreLinked (hot o) c h =
    put_region-AreLinked (region_start o) (o + 20) c.regions (ground arith) h
made-AreLinked (next m) c h =
    AreLinked-SameBounds c.regions _ (scan_regions-SameBounds m c.cur_region c.regions) h

made-Covered :
    (call : Call) (c : Context) (o : ℕ) → Covered o c.regions → Covered o (made call c).regions
unfolding add_hot_offset get_next_byte
made-Covered (hot p) c o h = Covered-put_region (region_start p) (p + 20) o c.regions h
made-Covered (next m) c o h =
    Covered-SameBounds o c.regions _ (scan_regions-SameBounds m c.cur_region c.regions) h

after-Covered :
    (calls : List Call) (c : Context) (o : ℕ)
    → Covered o c.regions
    → Covered o (after calls c).regions
unfolding after
after-Covered [] c o h = h
after-Covered (call ∷ calls) c o h = after-Covered calls (made call c) o (made-Covered call c o h)

hot-Covered : (o : ℕ) (c : Context) → AreLinked c.regions → Covered o (made (hot o) c).regions
unfolding add_hot_offset
hot-Covered o c h =
    put_region-Covered (region_start o) (o + 20) o c.regions h (ground arith) (ground arith)
      (omega arith)

after_linked :
    (before later : List Call) (o : ℕ) (c : Context)
    → AreLinked c.regions
    → Covered o (after (before ++ (hot o ∷ later)) c).regions
unfolding after
after_linked [] later o c h = after-Covered later (made (hot o) c) o (hot-Covered o c h)
after_linked (call ∷ before) later o c h =
    after_linked before later o (made call c) (made-AreLinked call c h)

-- Whatever calls are made on a new context, in whatever order, a byte that AddHotOffset was called
-- with lies in one of the regions from then on, also where a new region is cut short at the next.
pub after-Covered_hot :
    (before later : List Call) (offset : ℕ)
    → Covered offset (after (before ++ (hot offset ∷ later)) create_context).regions
after-Covered_hot before later offset = after_linked before later offset create_context tt
