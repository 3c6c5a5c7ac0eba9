-- ===== src/Trie/Seen.antt =====
-- The trie stands for the list of the samples seen so far.
use jackalope.Prelude.{
  ℕ, ◌≡◌, refl, sym, ap, subst, ◌∙◌, inl, inr, none, some, List, [], ◌∷◌, Bool, true, false, ◌||◌,
  ◌==◌, length, Bool-cases, arith,
}
use jackalope.Prelude.Memory.{Bytes}
use jackalope.Sample.{Sample, content, IsValid}
use jackalope.Trie.{SampleTrie, TrieNode, node, as_root, add_loop, add_bytes, add_sample}
use jackalope.Trie.Prefixes.{accepts, accepts_node, is_prefix, accepts-add_loop, accepts-new_node}
use jackalope.Trie.Longest.{LongestKnown, add_loop-LongestKnown}
use mathlib.Core.Path.{fun_ext}

-- The prefixes of some sample that was seen. The empty string always counts.
unfoldable pub known : List Bytes → Bytes → Bool
known seen [] = true
known [] (x ∷ p) = false
known (s ∷ seen) (x ∷ p) = known seen (x ∷ p) || is_prefix (x ∷ p) s

-- The strings that lead through the trie. With no root, only the empty one does.
abbrev pub trie_accepts : SampleTrie → Bytes → Bool
trie_accepts none [] = true
trie_accepts none (x ∷ p) = false
trie_accepts (some n) p = accepts_node n p

-- The trie holds the samples seen, as far as prefixes tell.
abbrev pub Holds : SampleTrie → List Bytes → Type 0
Holds t seen = (p : Bytes) → trie_accepts t p ≡ known seen p

as_root_accepts : (r : ℕ × TrieNode) (p : Bytes) → trie_accepts (as_root r).1 p ≡ accepts_node r.1 p
as_root_accepts (n, m) p = refl

as_root_pos : (r : ℕ × TrieNode) → (as_root r).0 ≡ r.0
as_root_pos (n, m) = refl

trie_accepts-add_bytes :
    (t : SampleTrie) (s p : Bytes)
    → trie_accepts (add_bytes t s).1 p ≡ trie_accepts t p || is_prefix p s
unfolding add_bytes
trie_accepts-add_bytes none s [] = unfold is_prefix accepts in refl
trie_accepts-add_bytes none s (x ∷ p) = accepts-new_node s (x ∷ p)
trie_accepts-add_bytes (some (node k ch)) s p =
    as_root_accepts (add_loop k ch s 0) p ∙ accepts-add_loop k ch s 0 p

eq_nil : (xs : Bytes) → length xs ≡ 0 → xs ≡ []
eq_nil [] h = refl
eq_nil (x ∷ xs) h = absurd (omega arith)

known-nil_cons : (seen : List Bytes) (p : Bytes) → known ([] ∷ seen) p ≡ known seen p
unfolding known is_prefix
known-nil_cons seen [] = refl
known-nil_cons seen (x ∷ p) = ground arith

known-cons :
    (s : Bytes) (seen : List Bytes) (p : Bytes) → known (s ∷ seen) p ≡ known seen p || is_prefix p s
unfolding known is_prefix
known-cons s seen [] = refl
known-cons s seen (x ∷ p) = refl

add_bytes-Holds :
    (t : SampleTrie) (s : Bytes) (seen : List Bytes)
    → Holds t seen
    → Holds (add_bytes t s).1 (s ∷ seen)
add_bytes-Holds t s seen h p =
    trie_accepts-add_bytes t s p ∙ ap (λ b. b || is_prefix p s) (h p) ∙ sym (known-cons s seen p)

add_bytes-LongestKnown :
    (t : SampleTrie) (s : Bytes) → LongestKnown (trie_accepts t) s (add_bytes t s).0
unfolding add_bytes
add_bytes-LongestKnown none [] = record { inside = omega arith; goes = refl; stops = inl refl }
add_bytes-LongestKnown none (x ∷ s) = record { inside = omega arith; goes = refl; stops = inr refl }
add_bytes-LongestKnown (some (node k ch)) s =
    subst (LongestKnown (accepts k ch) s) (sym (as_root_pos (add_loop k ch s 0)))
      (add_loop-LongestKnown k ch s)

-- AddSample on a valid sample: the trie, which held the samples seen before, then holds this
-- one too, and the result is the length of the longest prefix of the sample that some earlier
-- sample has, 0 if there is none: the first byte that differs from all the samples seen so far.
pub add_sample_refines :
    (t : SampleTrie) (s : Sample) (seen : List Bytes)
    → IsValid s
    → Holds t seen
    → Holds (add_sample t s).1 (content s ∷ seen)
      × LongestKnown (known seen) (content s) (add_sample t s).0
unfolding add_sample
add_sample_refines t s seen v h = elim (Bool-cases (s.size == 0)) [
  | inl empty ↦
      let e = eq_nil (content s) (ground arith) in
      rw (empty, e)
        (
          (λ p. h p ∙ sym (known-nil_cons seen p)),
          record { inside = omega arith; goes = unfold known in refl; stops = inl refl },
        )
  | inr full ↦ rw full (
    add_bytes-Holds t (content s) seen h,
    subst (λ f. LongestKnown f (content s) (add_bytes t (content s)).0) (fun_ext h)
        (add_bytes-LongestKnown t (content s)),
  )
]
