-- ===== src/Trie.antt =====
-- sample.h and sample.cpp, class SampleTrie: a trie that finds the first byte of a sample that
-- differs from the samples seen so far. A node has a constant part, which every sample that
-- reaches it goes on with, and children under the byte that follows it. The functions rebuild the
-- nodes that the code changes in place. The field `leaf` is never read and is left out. The mutex
-- is held for the whole of AddSample, so a call is one step.
pub mod Prefixes
pub mod Longest
pub mod Seen
mod Examples
use jackalope.Prelude.{ℕ, ◌+◌, Option, none, some, [], ◌∷◌, Bool, true, false, ◌==◌, if◌then◌else◌}
use jackalope.Prelude.Memory.{Bytes}
use jackalope.Sample.{Sample, content}

mutual
  pub data TrieNode : Type 0 where
    node : Bytes → Children → TrieNode

  pub data Children : Type 0 where
    no_child : Children
    child : ℕ → TrieNode → Children → Children

-- children.find(c)
unfoldable pub find_child : ℕ → Children → Option TrieNode
find_child c no_child = none
find_child c (child k n rest) = if k == c then some n else find_child c rest

-- The child under `c`, which is there, changed in place.
unfoldable pub set_child : ℕ → TrieNode → Children → Children
set_child c m no_child = no_child
set_child c m (child k n rest) = if k == c then child k m rest else child k n (set_child c m rest)

-- Constructor of a node whose constant part is the rest of a sample.
abbrev pub new_node : Bytes → TrieNode
new_node rest = node rest no_child

abbrev pub extend : ℕ → ℕ × TrieNode → ℕ × TrieNode
extend t (pos, node constant children) = (pos, node (t ∷ constant) children)

abbrev pub reattach : ℕ → Children → ℕ × TrieNode → ℕ × TrieNode
reattach c children (pos, n) = (pos, node [] (set_child c n children))

-- The loop of SampleTrie::AddSample. `constant` is what is left of the constant part of the current
-- node from cur_constant_pos on, the list of bytes is what is left of the sample from
-- cur_sample_pos on, and `pos` is cur_sample_pos.
unfoldable pub add_loop : Bytes → Children → Bytes → ℕ → ℕ × TrieNode
add_loop constant children [] pos = (pos, node constant children)
add_loop [] children (c ∷ rest) pos = elim (find_child c children) [
  | some (node constant' children') ↦
      reattach c children (add_loop constant' children' rest (pos + 1))
  | none ↦ (pos, node [] (child c (new_node rest) children))
]
add_loop (t ∷ constant) children (c ∷ rest) pos = elim (t == c) [
  | true ↦ extend t (add_loop constant children rest (pos + 1))
  | false ↦ (pos, node [] (child t (node constant children) (child c (new_node rest) no_child)))
]

-- A root of NULL is `none`.
abbrev pub SampleTrie : Type 0
SampleTrie = Option TrieNode

abbrev pub as_root : ℕ × TrieNode → ℕ × SampleTrie
as_root (pos, n) = (pos, some n)

-- SampleTrie::AddSample past its first test, on the bytes of a sample.
unfoldable pub add_bytes : SampleTrie → Bytes → ℕ × SampleTrie
unfolding add_loop
add_bytes none s = (0, some (new_node s))
add_bytes (some (node constant children)) s = as_root (add_loop constant children s 0)

-- SampleTrie::AddSample
unfoldable pub add_sample : SampleTrie → Sample → ℕ × SampleTrie
unfolding add_bytes
add_sample t s = if s.size == 0 then (0, t) else add_bytes t (content s)
