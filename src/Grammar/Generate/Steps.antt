-- ===== src/Grammar/Generate/Steps.antt =====
-- grammar.cpp, GenerateTree: its loops give children that the grammar has, and fail in no other way than
-- by NULL.
use jackalope.Prelude.{
  ℕ, zero, suc, ◌+◌, ◌%◌, ◌^◌, ◌≤◌, ◌<◌, ◌≡◌, sym, subst, ◌∙◌, inl, inr, true, false, ltb,
  Bool-cases, ltb→lt, arith,
}
use jackalope.Grammar.Tree.{TreeNode, Trees}
use jackalope.Grammar.Generate.{
  Made, made, null, fault, out_of_fuel, after_made, stops, push_back, repeat_children,
}
use jackalope.Mutators.{Prng, next_number}

-- The random numbers end every repetition from the `last`th one on.
abbrev pub StopsFrom : ℕ → (ℕ → ℕ) → Type 0
StopsFrom last numbers = (i : ℕ) → last ≤ i → stops (numbers i % 2 ^ 32) ≡ true

-- The generators run on the numbers of one source, from some number on.
abbrev pub Draws : (ℕ → ℕ) → ℕ → Prng → Type 0
Draws numbers from prng = (prng.numbers ≡ numbers) × (from ≤ prng.given)

-- NULL, or a value with a property.
abbrev pub Yields : {A : Type 0} → (ℕ → ℕ) → ℕ → (A → Type 0) → Made A → Type 0
Yields numbers from P (made a prng) = P a × Draws numbers from prng
Yields numbers from P (null prng) = Unit
Yields numbers from P fault = ⊥
Yields numbers from P out_of_fuel = ⊥

module _ (numbers : ℕ → ℕ) where
  pub Yields-after_made :
      {A B : Type 0} (P : A → Type 0) (Q : B → Type 0) (from from' : ℕ) (m : Made A)
      (f : A → Prng → Made B)
      → Yields numbers from' P m
      → ((a : A) (prng : Prng) → P a → Draws numbers from' prng → Yields numbers from Q (f a prng))
      → Yields numbers from Q (after_made m f)
  Yields-after_made P Q from from' (made a prng) f h k = k a prng h.0 h.1
  Yields-after_made P Q from from' (null prng) f h k = tt
  Yields-after_made P Q from from' fault f h k = elim h [ ]
  Yields-after_made P Q from from' out_of_fuel f h k = elim h [ ]

  pub Yields-map :
      {A : Type 0} (P Q : A → Type 0) (from : ℕ) (m : Made A)
      → Yields numbers from P m
      → ((a : A) → P a → Q a)
      → Yields numbers from Q m
  Yields-map P Q from (made a prng) h f = (f a h.0, h.1)
  Yields-map P Q from (null prng) h f = tt
  Yields-map P Q from fault h f = elim h [ ]
  Yields-map P Q from out_of_fuel h f = elim h [ ]

module _ (numbers : ℕ → ℕ) (last : ℕ) (stopping : StopsFrom last numbers) where
  -- What a generator one level down gives, from any state of the source.
  abbrev Gives : (TreeNode → Type 0) → (Prng → Made TreeNode) → Type 0
  Gives P child =
      (from : ℕ) (prng : Prng) → Draws numbers from prng → Yields numbers from P (child prng)

  stops_late :
      (prng : Prng)
      → prng.numbers ≡ numbers
      → stops (next_number prng).0 ≡ false
      → prng.given < last
  stops_late prng e goes = elim (Bool-cases (ltb prng.given last)) [
    | inl early ↦ ltb→lt _ _ early
    | inr late ↦
        let at : stops (numbers prng.given % 2 ^ 32) ≡ true = stopping prng.given (ground arith) in
        let at' : stops (prng.numbers prng.given % 2 ^ 32) ≡ true =
          subst (λ (f : ℕ → ℕ). stops (f prng.given % 2 ^ 32) ≡ true) (sym e) at in
        let clash : true ≡ false = sym at' ∙ goes in cc
  ]

  pub repeat_children-Yields :
      (P : TreeNode → Type 0) (Q : Trees → Type 0) (child : Prng → Made TreeNode)
      → Gives P child
      → ((ts : Trees) (t : TreeNode) → Q ts → P t → Q (push_back ts t))
      → (fuel from : ℕ) (ts : Trees) (prng : Prng) → Q ts
      → Draws numbers from prng
      → 0 < fuel
      → last < prng.given + fuel
      → Yields numbers from Q (repeat_children fuel child ts prng)
  unfolding repeat_children
  repeat_children-Yields P Q child gives add zero from ts prng q d some_fuel h =
      absurd (omega arith)
  repeat_children-Yields P Q child gives add (suc fuel) from ts prng q d some_fuel h =
      let n = next_number prng in
      elim (Bool-cases (stops n.0)) [
        | inl ends ↦ rw ends (q, (d.0, omega arith))
        | inr goes ↦
            let early : prng.given < last = stops_late prng d.0 goes in
            rw goes (
              Yields-after_made numbers P Q from (suc prng.given) (child n.1)
                (λ t p. repeat_children fuel child (push_back ts t) p)
                (gives (suc prng.given) n.1 (d.0, omega arith))
                (λ t p pt dp.
                  repeat_children-Yields P Q child gives add fuel from (push_back ts t) p
                    (add ts t q pt) (dp.0, omega arith) (omega arith) (omega arith)))
      ]
