-- ===== src/Mutators/Combinators/Sequence.antt =====
-- mutator.h, MutatorSequence with two children, as main.cpp builds it.
use jackalope.Prelude.{
  ℕ, zero, suc, ◌+◌, ◌≡◌, refl, ◌⊎◌, inl, inr, some, List, [], ◌∷◌, Bool, true, false, arith,
}
use jackalope.Mutators.Combinators.{Child, step_index, sequence_loop, sequence_mutate}
use jackalope.Mutators.Combinators.Rounds.{Returns, Finite}

ℕ-cases : (n : ℕ) → (n ≡ 0) ⊎ ((m : ℕ) × (n ≡ suc m))
ℕ-cases zero = inl refl
ℕ-cases (suc m) = inr (m, refl)

module _ {W : Type 0} where
  loop_true :
      (child : Child W) (children : List (Child W)) (w w' : W)
      → child w ≡ some (true, w')
      → sequence_loop 0 (child ∷ children) w ≡ some (true, (0, w'))
  unfolding sequence_loop
  loop_true child children w w' e = rw e refl

  loop_false :
      (child : Child W) (children : List (Child W)) (w w' : W) (n : Bool × (ℕ × W))
      → child w ≡ some (false, w')
      → sequence_loop 0 children w' ≡ some n
      → sequence_loop 0 (child ∷ children) w ≡ some (step_index n)
  unfolding sequence_loop
  loop_false child children w w' n e f = rw (e, f) refl

  loop_later :
      (i : ℕ) (child : Child W) (children : List (Child W)) (w : W) (n : Bool × (ℕ × W))
      → sequence_loop i children w ≡ some n
      → sequence_loop (suc i) (child ∷ children) w ≡ some (step_index n)
  unfolding sequence_loop
  loop_later i child children w n e = rw e refl

  loop_end : (i : ℕ) (w : W) → sequence_loop i ([]) w ≡ some (false, (i, w))
  unfolding sequence_loop
  loop_end i w = refl

-- The first child leaves the second one's rounds alone; the second one leaves the first one done.
module _ {W : Type 0} {Good : W → Type 0} {first second : Child W} {left left' : W → ℕ}
    (finite : (n : ℕ) → Finite first (λ w. Good w × (left' w ≡ n)) left)
    (finite' : Finite second (λ w. Good w × (left w ≡ 0)) left') where
  abbrev pub InSequence : ℕ × W → Type 0
  InSequence (zero, w) = Good w
  InSequence (suc zero, w) = Good w × (left w ≡ 0)
  InSequence (suc (suc i), w) = Good w × (left w ≡ 0) × (left' w ≡ 0)

  abbrev pub sequence_left : ℕ × W → ℕ
  sequence_left (zero, w) = left w + left' w
  sequence_left (suc zero, w) = left' w
  sequence_left (suc (suc i), w) = 0

  second_done :
      (w : W)
      → Good w
      → left w ≡ 0
      → left' w ≡ 0
      → (w' : W) × (sequence_loop 0 (second ∷ []) w ≡ some (false, (1, w')))
        × Good w'
        × (left w' ≡ 0)
        × (left' w' ≡ 0)
  second_done w g l l' =
      let (w', r, ((g', k), k')) = finite'.done w (g, l) l' in
      (w', loop_false second ([]) w w' (false, (0, w')) r (loop_end 0 w'), g', k, k')

  second_more :
      (w : W) (n : ℕ)
      → Good w
      → left w ≡ 0
      → left' w ≡ suc n
      → (w' : W) × (sequence_loop 0 (second ∷ []) w ≡ some (true, (0, w')))
        × Good w'
        × (left w' ≡ 0)
        × (left' w' ≡ n)
  second_more w n g l l' =
      let (w', r, ((g', k), k')) = finite'.more w n (g, l) l' in
      (w', loop_true second ([]) w w' r, g', k, k')

  abbrev InTurn : ℕ → ℕ × W → Type 0
  InTurn n s = InSequence s × (sequence_left s ≡ n)

  sequence_done :
      (i : ℕ) (w : W)
      → InSequence (i, w)
      → sequence_left (i, w) ≡ 0
      → Returns (sequence_mutate (first ∷ (second ∷ []))) false (i, w) (InTurn 0)
  unfolding sequence_mutate
  sequence_done zero w g l =
      let (w', r, ((g', k'), k)) = (finite 0).done w (g, omega arith) (omega arith) in
      let (w'', r', g'', k'', k3) = second_done w' g' k k' in
      ((2, w''), loop_false first (second ∷ []) w w' (false, (1, w'')) r r', ((g'', k'', k3), refl))
  sequence_done (suc zero) w g l =
      let (w'', r', g'', k'', k3) = second_done w g.0 g.1 l in
      ((2, w''), loop_later 0 first (second ∷ []) w (false, (1, w'')) r', ((g'', k'', k3), refl))
  sequence_done (suc (suc i)) w g l = (
    (suc (suc i), w),
    loop_later (suc i) first (second ∷ []) w (false, (suc i, w))
        (loop_later i second ([]) w (false, (i, w)) (loop_end i w)),
    (g, refl),
  )

  sequence_more :
      (i : ℕ) (w : W) (n : ℕ)
      → InSequence (i, w)
      → sequence_left (i, w) ≡ suc n
      → Returns (sequence_mutate (first ∷ (second ∷ []))) true (i, w) (InTurn n)
  unfolding sequence_mutate
  sequence_more zero w n g l = elim (ℕ-cases (left w)) [
    | inl e ↦
        let (w', r, ((g', k'), k)) = (finite (suc n)).done w (g, omega arith) e in
        let (w'', r', g'', k'', k3) = second_more w' n g' k k' in
        ((1, w''), loop_false first (second ∷ []) w w' (true, (0, w'')) r r', ((g'', k''), k3))
    | inr (m, e) ↦
        let (w', r, ((g', k'), k)) = (finite (left' w)).more w m (g, refl) e in
        ((0, w'), loop_true first (second ∷ []) w w' r, (g', omega arith))
  ]
  sequence_more (suc zero) w n g l =
      let (w'', r', g'', k'', k3) = second_more w n g.0 g.1 l in
      ((1, w''), loop_later 0 first (second ∷ []) w (true, (0, w'')) r', ((g'', k''), k3))
  sequence_more (suc (suc i)) w n g l = absurd (omega arith)

  -- The rounds of a sequence of two mutators are those of the first and then those of the second.
  pub sequence_mutate-Finite :
      Finite (sequence_mutate (first ∷ (second ∷ []))) InSequence sequence_left
  sequence_mutate-Finite = record {
    done = λ s g l. sequence_done s.0 s.1 g l;
    more = λ s n g l. sequence_more s.0 s.1 n g l;
  }
