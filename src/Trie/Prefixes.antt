-- ===== src/Trie/Prefixes.antt =====
-- The prefixes that a trie knows, and how AddSample uses and extends them.
use jackalope.Prelude.{
  ℕ, ◌+◌, ◌≡◌, refl, ap, ◌∙◌, ◌≢◌, ◌⊎◌, inl, inr, Option, none, some, [], ◌∷◌, Bool, true, false,
  ◌&&◌, ◌||◌, ◌==◌, if◌then◌else◌, Bool-cases, arith,
}
use jackalope.Prelude.Memory.{Bytes}
use jackalope.Trie.{
  TrieNode, Children, node, no_child, child, find_child, set_child, new_node, extend, reattach,
  add_loop,
}

-- A byte string leads through the constant part and the children.
unfoldable pub accepts : Bytes → Children → Bytes → Bool
accepts constant children [] = true
accepts [] children (c ∷ rest) = elim (find_child c children) [
  | some (node constant' children') ↦ accepts constant' children' rest
  | none ↦ false
]
accepts (t ∷ constant) children (c ∷ rest) = (t == c) && accepts constant children rest

abbrev pub accepts_node : TrieNode → Bytes → Bool
accepts_node (node constant children) p = accepts constant children p

unfoldable pub is_prefix : Bytes → Bytes → Bool
is_prefix [] s = true
is_prefix (x ∷ p) [] = false
is_prefix (x ∷ p) (y ∷ s) = (y == x) && is_prefix p s

pub find_cases :
    (o : Option TrieNode) → (o ≡ none) ⊎ ((k : Bytes) × (ch : Children) × (o ≡ some (node k ch)))
find_cases none = inl refl
find_cases (some (node k ch)) = inr (k, ch, refl)

find_child-set_child_self :
    (c : ℕ) (m n : TrieNode) (ch : Children)
    → find_child c ch ≡ some n
    → find_child c (set_child c m ch) ≡ some m
unfolding find_child set_child
find_child-set_child_self c m n no_child h = cc
find_child-set_child_self c m n (child k x rest) h =
    ground (arith, find_child-set_child_self c m n rest)

find_child-set_child_ne :
    (c d : ℕ) (m : TrieNode) (ch : Children)
    → d ≢ c
    → find_child c (set_child d m ch) ≡ find_child c ch
unfolding find_child set_child
find_child-set_child_ne c d m no_child h = refl
find_child-set_child_ne c d m (child k x rest) h =
    ground (arith, find_child-set_child_ne c d m rest h)

pub accepts-new_node : (s p : Bytes) → accepts s no_child p ≡ is_prefix p s
unfolding accepts is_prefix find_child
accepts-new_node [] [] = refl
accepts-new_node (y ∷ s) [] = refl
accepts-new_node [] (x ∷ p) = refl
accepts-new_node (y ∷ s) (x ∷ p) = ap (λ b. (y == x) && b) (accepts-new_node s p)

-- Stepping to a child.
pub accepts_child :
    (c : ℕ) (ch : Children) (p : Bytes) (n : TrieNode)
    → find_child c ch ≡ some n
    → accepts [] ch (c ∷ p) ≡ accepts_node n p
unfolding accepts
accepts_child c ch p (node k ch') e = rw (e, accepts)

pub accepts_no_child :
    (c : ℕ) (ch : Children) (p : Bytes) → find_child c ch ≡ none → accepts [] ch (c ∷ p) ≡ false
unfolding accepts
accepts_no_child c ch p e = rw (e, accepts)

accepts_nil : (n : TrieNode) → accepts_node n [] ≡ true
unfolding accepts
accepts_nil (node k ch) = refl

-- One round of the loop, for each way that it can go.
pub add_loop_new :
    (ch : Children) (c : ℕ) (s : Bytes) (pos : ℕ)
    → find_child c ch ≡ none
    → add_loop [] ch (c ∷ s) pos ≡ (pos, node [] (child c (new_node s) ch))
unfolding add_loop
add_loop_new ch c s pos e = rw (e, add_loop)

pub add_loop_down :
    (ch : Children) (c : ℕ) (s : Bytes) (pos : ℕ) (k' : Bytes) (ch' : Children)
    → find_child c ch ≡ some (node k' ch')
    → add_loop [] ch (c ∷ s) pos ≡ reattach c ch (add_loop k' ch' s (pos + 1))
unfolding add_loop
add_loop_down ch c s pos k' ch' e = rw (e, add_loop)

pub add_loop_match :
    (t : ℕ) (k : Bytes) (ch : Children) (c : ℕ) (s : Bytes) (pos : ℕ)
    → (t == c) ≡ true
    → add_loop (t ∷ k) ch (c ∷ s) pos ≡ extend t (add_loop k ch s (pos + 1))
unfolding add_loop
add_loop_match t k ch c s pos e = ground arith

pub add_loop_split :
    (t : ℕ) (k : Bytes) (ch : Children) (c : ℕ) (s : Bytes) (pos : ℕ)
    → (t == c) ≡ false
    → add_loop (t ∷ k) ch (c ∷ s) pos
      ≡ (pos, node [] (child t (node k ch) (child c (new_node s) no_child)))
unfolding add_loop
add_loop_split t k ch c s pos e = ground arith

accepts-extend :
    (t : ℕ) (r : ℕ × TrieNode) (x : ℕ) (p : Bytes)
    → accepts_node (extend t r).1 (x ∷ p) ≡ (t == x) && accepts_node r.1 p
unfolding accepts
accepts-extend t (pos, node k ch) x p = refl

-- After a child is changed, a path under its byte goes on in the new child.
accepts-set_child_self :
    (c : ℕ) (m n : TrieNode) (ch : Children) (p : Bytes)
    → find_child c ch ≡ some n
    → accepts [] (set_child c m ch) (c ∷ p) ≡ accepts_node m p
accepts-set_child_self c m n ch p e =
    accepts_child c (set_child c m ch) p m (find_child-set_child_self c m n ch e)

accepts-set_child_ne :
    (c : ℕ) (m : TrieNode) (ch : Children) (x : ℕ) (p : Bytes)
    → c ≢ x
    → accepts [] (set_child c m ch) (x ∷ p) ≡ accepts [] ch (x ∷ p)
unfolding accepts
accepts-set_child_ne c m ch x p d = rw (find_child-set_child_ne x c m ch d, accepts)

-- A child put in front of the others.
accepts-child :
    (c : ℕ) (m : TrieNode) (ch : Children) (x : ℕ) (p : Bytes)
    → accepts [] (child c m ch) (x ∷ p)
      ≡ (if c == x then accepts_node m p else accepts [] ch (x ∷ p))
unfolding find_child
accepts-child c m ch x p = elim (Bool-cases (c == x)) [
  | inl e ↦ rw e (accepts_child x (child c m ch) p m (rw e))
  | inr e ↦ rw e (unfold accepts in ground arith)
]

pub accepts-cons :
    (t : ℕ) (k : Bytes) (ch : Children) (x : ℕ) (p : Bytes)
    → accepts (t ∷ k) ch (x ∷ p) ≡ (t == x) && accepts k ch p
unfolding accepts
accepts-cons t k ch x p = refl

-- After AddSample the trie knows the prefixes that it knew and those of the sample, no others.
pub accepts-add_loop :
    (k : Bytes) (ch : Children) (s : Bytes) (pos : ℕ) (p : Bytes)
    → accepts_node (add_loop k ch s pos).1 p ≡ accepts k ch p || is_prefix p s
unfolding is_prefix
accepts-add_loop k ch s pos [] = accepts_nil (add_loop k ch s pos).1 ∙ unfold accepts in refl
accepts-add_loop k ch [] pos (x ∷ p) = unfold is_prefix add_loop in ground arith
accepts-add_loop [] ch (c ∷ s) pos (x ∷ p) = elim (find_cases (find_child c ch)) [
  | inl e ↦ rw (add_loop_new ch c s pos e) (
      unfold is_prefix in
      ground (
        arith,
        accepts-child c (new_node s) ch x p,
        accepts-new_node s p,
        accepts_no_child c ch p e,
      ))
  | inr (k', ch', e) ↦
      let ih = accepts-add_loop k' ch' s (pos + 1) p in
      let m = (add_loop k' ch' s (pos + 1)).1 in
      rw (add_loop_down ch c s pos k' ch' e) (
        ground (
          arith,
          ih,
          accepts-set_child_self c m (node k' ch') ch p e,
          accepts-set_child_ne c m ch x p,
          accepts_child c ch p (node k' ch') e,
        ))
]
accepts-add_loop (t ∷ k) ch (c ∷ s) pos (x ∷ p) = elim (Bool-cases (t == c)) [
  | inl e ↦ rw (add_loop_match t k ch c s pos e) (
      ground (
        arith,
        accepts-extend t (add_loop k ch s (pos + 1)) x p,
        accepts-add_loop k ch s (pos + 1) p,
        accepts-cons t k ch x p,
      ))
  | inr e ↦ rw (add_loop_split t k ch c s pos e) (
      unfold is_prefix accepts in
      ground (
        arith,
        accepts-child t (node k ch) (child c (new_node s) no_child) x p,
        accepts-child c (new_node s) no_child x p,
        accepts_no_child x no_child p (unfold find_child in refl),
        accepts-new_node s p,
      ))
]
