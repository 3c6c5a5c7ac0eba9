-- ===== src/Trie/Longest.antt =====
-- What AddSample returns.
use jackalope.Prelude.{
  ℕ, suc, ◌+◌, ◌≤◌, ◌≡◌, refl, sym, ap, subst, ◌∙◌, ◌⊎◌, inl, inr, none, some, [], ◌∷◌, Bool, true,
  false, ◌&&◌, ◌==◌, length, take, Bool-cases, arith,
}
use jackalope.Prelude.Memory.{Bytes}
use jackalope.Trie.{TrieNode, Children, node, find_child, extend, reattach, add_loop}
use jackalope.Trie.Prefixes.{
  accepts, find_cases, accepts_child, accepts_no_child, accepts-cons, add_loop_new, add_loop_down,
  add_loop_match, add_loop_split,
}

-- The number of bytes that a string goes along with the trie.
reach : Bytes → Children → Bytes → ℕ
reach constant children [] = 0
reach [] children (c ∷ rest) = elim (find_child c children) [
  | some (node constant' children') ↦ suc (reach constant' children' rest)
  | none ↦ 0
]
reach (t ∷ constant) children (c ∷ rest) = elim (t == c) [
  | true ↦ suc (reach constant children rest)
  | false ↦ 0
]

-- AddSample's result is the number of bytes that go along.
add_loop-reach :
    (k : Bytes) (ch : Children) (s : Bytes) (pos : ℕ) → (add_loop k ch s pos).0 ≡ pos + reach k ch s
unfolding reach
add_loop-reach k ch [] pos = unfold add_loop in omega arith
add_loop-reach [] ch (c ∷ s) pos = elim (find_cases (find_child c ch)) [
  | inl e ↦ rw (add_loop_new ch c s pos e, e, reach) (omega arith)
  | inr (k', ch', e) ↦
      rw (add_loop_down ch c s pos k' ch' e, e, reach)
        (reattach_pos (add_loop k' ch' s (pos + 1))
          ∙ omega (arith, add_loop-reach k' ch' s (pos + 1)))
]
  where
    reattach_pos : (r : ℕ × TrieNode) → (reattach c ch r).0 ≡ r.0
    reattach_pos (n, m) = refl
add_loop-reach (t ∷ k) ch (c ∷ s) pos = elim (Bool-cases (t == c)) [
  | inl e ↦
      rw (add_loop_match t k ch c s pos e, e, reach)
        (extend_pos (add_loop k ch s (pos + 1)) ∙ omega (arith, add_loop-reach k ch s (pos + 1)))
  | inr e ↦ rw (add_loop_split t k ch c s pos e, e, reach) (omega arith)
]
  where
    extend_pos : (r : ℕ × TrieNode) → (extend t r).0 ≡ r.0
    extend_pos (n, node x y) = refl

-- The first `n` bytes of `s` go along and, if it has one more, the next one does not.
pub record LongestKnown (known : Bytes → Bool) (s : Bytes) (n : ℕ) : Type 0 where
  pub inside : n ≤ length s
  pub goes : known (take n s) ≡ true
  pub stops : (n ≡ length s) ⊎ (known (take (suc n) s) ≡ false)

nothing_goes :
    (known : Bytes → Bool) (c : ℕ) (s : Bytes)
    → known [] ≡ true
    → known (c ∷ []) ≡ false
    → LongestKnown known (c ∷ s) 0
nothing_goes known c s h0 h1 = record { inside = omega arith; goes = h0; stops = inr h1 }

one_more :
    (known known' : Bytes → Bool) (c : ℕ) (s : Bytes) (n : ℕ)
    → ((p : Bytes) → known (c ∷ p) ≡ known' p)
    → LongestKnown known' s n
    → LongestKnown known (c ∷ s) (suc n)
one_more known known' c s n step l = record {
  inside = omega (arith, l.inside);
  goes = step (take n s) ∙ l.goes;
  stops = elim l.stops [ inl e ↦ inl (ap suc e) | inr e ↦ inr (step (take (suc n) s) ∙ e) ];
}

reach_new : (ch : Children) (c : ℕ) (s : Bytes) → find_child c ch ≡ none → 0 ≡ reach [] ch (c ∷ s)
unfolding reach
reach_new ch c s e = rw (e, reach)

reach_down :
    (ch : Children) (c : ℕ) (s k' : Bytes) (ch' : Children)
    → find_child c ch ≡ some (node k' ch')
    → suc (reach k' ch' s) ≡ reach [] ch (c ∷ s)
unfolding reach
reach_down ch c s k' ch' e = rw (e, reach)

reach_match :
    (t : ℕ) (k : Bytes) (ch : Children) (c : ℕ) (s : Bytes)
    → (t == c) ≡ true
    → suc (reach k ch s) ≡ reach (t ∷ k) ch (c ∷ s)
unfolding reach
reach_match t k ch c s e = ground arith

reach_split :
    (t : ℕ) (k : Bytes) (ch : Children) (c : ℕ) (s : Bytes)
    → (t == c) ≡ false
    → 0 ≡ reach (t ∷ k) ch (c ∷ s)
unfolding reach
reach_split t k ch c s e = ground arith

reach_lem : (k : Bytes) (ch : Children) (s : Bytes) → LongestKnown (accepts k ch) s (reach k ch s)
reach_lem k ch [] =
    unfold accepts reach in record { inside = omega arith; goes = refl; stops = inl refl }
reach_lem [] ch (c ∷ s) = elim (find_cases (find_child c ch)) [
  | inl e ↦
      subst (LongestKnown (accepts [] ch) (c ∷ s)) (reach_new ch c s e)
        (nothing_goes (accepts [] ch) c s (unfold accepts in refl) (accepts_no_child c ch [] e))
  | inr (k', ch', e) ↦ subst (LongestKnown (accepts [] ch) (c ∷ s)) (reach_down ch c s k' ch' e) (
      one_more (accepts [] ch) (accepts k' ch') c s (reach k' ch' s)
        (λ p. accepts_child c ch p (node k' ch') e) (reach_lem k' ch' s))
]
reach_lem (t ∷ k) ch (c ∷ s) = elim (Bool-cases (t == c)) [
  | inl e ↦ subst (LongestKnown (accepts (t ∷ k) ch) (c ∷ s)) (reach_match t k ch c s e) (
      one_more (accepts (t ∷ k) ch) (accepts k ch) c s (reach k ch s)
        (λ p. accepts-cons t k ch c p ∙ ap (λ b. b && accepts k ch p) e) (reach_lem k ch s))
  | inr e ↦ subst (LongestKnown (accepts (t ∷ k) ch) (c ∷ s)) (reach_split t k ch c s e) (
      nothing_goes (accepts (t ∷ k) ch) c s (unfold accepts in refl)
        (accepts-cons t k ch c [] ∙ ap (λ b. b && accepts k ch []) e))
]

-- AddSample's loop returns the length of the longest prefix of the sample that the trie knows.
pub add_loop-LongestKnown :
    (k : Bytes) (ch : Children) (s : Bytes) → LongestKnown (accepts k ch) s (add_loop k ch s 0).0
add_loop-LongestKnown k ch s =
    subst (LongestKnown (accepts k ch) s) (sym (add_loop-reach k ch s 0 ∙ omega arith))
      (reach_lem k ch s)
