-- ===== src/Grammar/RoundTrip.antt =====
-- What EncodeSample writes, DecodeSample reads back.
use jackalope.Prelude.{
  ℕ, take_all, zero, suc, ◌+◌, ◌*◌, ◌%◌, ◌^◌, ◌≤◌, ◌<◌, ◌≡◌, refl, sym, ap, subst, ◌∙◌, some, [],
  ◌∷◌, ◌++◌, Bool, true, ◌||◌, ◌==◌, length, length-append, append_assoc, append-nil, arith,
}
use jackalope.Prelude.Memory.{Bytes, load_le, store_le, length-store_le, read_block, read_block_lem}
use jackalope.Sample.{Sample, content}
use jackalope.Grammar.Binary.{Reader, new_reader, Read, ok, read_data, read_size, read_string}
use jackalope.Grammar.Reader.{
  Ahead, moved, moved-Ahead, read_data-Ahead, read_size-Ahead, read_string-Ahead,
}
use jackalope.Grammar.Writer.{string_bytes}
use jackalope.Grammar.Tree.{TreeNode, Trees, node, nil, cons, count, string_type, to_string}
use jackalope.Grammar.Encode.{
  tree_bytes, trees_bytes, sample_bytes, encode_sample, encode_sample_lem,
}
use jackalope.Grammar.Decode.{decode_tree, decode_trees, decode_sample, IsKnown, AreKnown}

length-tree_bytes :
    (type : ℕ) (s : Bytes) (children : Trees)
    → length (tree_bytes (node type s children)) ≡ 17 + length s + length (trees_bytes children)
unfolding tree_bytes
length-tree_bytes type s children = omega (
  arith,
  length-append (string_bytes s) (store_le 8 (count children) ++ trees_bytes children),
  length-append (store_le 8 (length s)) s,
  length-append (store_le 8 (count children)) (trees_bytes children),
  length-store_le 8 (length s),
  length-store_le 8 (count children),
)

tree_bytes_pos : (t : TreeNode) → 0 < length (tree_bytes t)
tree_bytes_pos (node type s children) = omega (arith, length-tree_bytes type s children)

length-trees_bytes :
    (t : TreeNode) (ts : Trees)
    → length (trees_bytes (cons t ts)) ≡ length (tree_bytes t) + length (trees_bytes ts)
unfolding trees_bytes
length-trees_bytes t ts = length-append (tree_bytes t) (trees_bytes ts)

count-le : (ts : Trees) → count ts ≤ length (trees_bytes ts)
unfolding count
count-le nil = omega arith
count-le (cons t ts) = omega (arith, count-le ts, tree_bytes_pos t, length-trees_bytes t ts)

-- The reader gets `a` and stands in front of `xs`.
abbrev Gets : {A : Type 0} → Read A → A → Bytes → Type 0
Gets x a xs = (r' : Reader) × (x ≡ ok a r') × Ahead r' xs

-- The head of a stored node: its type, string and number of children.
node_head :
    (r : Reader) (type n : ℕ) (s rest xs : Bytes)
    → n < 2 ^ 64
    → Ahead r (((type % 256) ∷ (string_bytes s ++ (store_le 8 n ++ rest))) ++ xs)
    → (read_data 1 r ≡ ok ((type % 256) ∷ []) (moved r 1))
      × (r2 : Reader) × (read_string (moved r 1) ≡ ok s r2)
      × (r3 : Reader) × (read_size r2 ≡ ok n r3)
      × Ahead r3 (rest ++ xs)
node_head r type n s rest xs h a =
    let a1 : Ahead (moved r 1) ((string_bytes s ++ (store_le 8 n ++ rest)) ++ xs) =
      moved-Ahead r ((type % 256) ∷ []) ((string_bytes s ++ (store_le 8 n ++ rest)) ++ xs) a in
    let a2 : Ahead (moved r 1) (string_bytes s ++ (store_le 8 n ++ (rest ++ xs))) =
      subst (Ahead (moved r 1))
        (append_assoc (string_bytes s) (store_le 8 n ++ rest) xs
          ∙ ap (◌++◌ (string_bytes s)) (append_assoc (store_le 8 n) rest xs))
        a1 in
    let (e2, a3) = read_string-Ahead (moved r 1) s (store_le 8 n ++ (rest ++ xs)) a2 in
    let (e3, a4) = read_size-Ahead (moved (moved (moved r 1) 8) (length s)) n (rest ++ xs) h a3 in
    (
      read_data-Ahead r 1 ((type % 256) ∷ []) ((string_bytes s ++ (store_le 8 n ++ rest)) ++ xs)
          refl a,
      moved (moved (moved r 1) 8) (length s),
      e2,
      moved (moved (moved (moved r 1) 8) (length s)) 8,
      e3,
      a4,
    )

decode_node :
    (has_symbol : Bytes → Bool) (fuel type n : ℕ) (s : Bytes) (r r1 r2 r3 r4 : Reader)
    (children : Trees)
    → type < 256
    → (type == string_type) || has_symbol s ≡ true
    → read_data 1 r ≡ ok ((type % 256) ∷ []) r1
    → read_string r1 ≡ ok s r2
    → read_size r2 ≡ ok n r3
    → decode_trees has_symbol fuel n r3 ≡ ok children r4
    → decode_tree has_symbol (suc fuel) r ≡ ok (node type s children) r4
unfolding decode_tree load_le
decode_node has_symbol fuel type n s r r1 r2 r3 r4 children byte sym e1 e2 e3 e4 =
    let e : type % 256 + 256 * 0 ≡ type = omega arith in rw (e1, e2, e, sym, e3, e4)

-- A count that is ahead is below 2^64, since each child takes at least a byte.
count_fits :
    (r : Reader) (type : ℕ) (s xs : Bytes) (children : Trees)
    → Ahead r (tree_bytes (node type s children) ++ xs)
    → count children < 2 ^ 64
count_fits r type s xs children a = omega (
  arith,
  a.inside,
  a.small,
  length-append (tree_bytes (node type s children)) xs,
  length-tree_bytes type s children,
  count-le children,
)

mutual
  unfolding tree_bytes count decode_trees

  decode_tree-Gets :
      (has_symbol : Bytes → Bool) (t : TreeNode) (fuel : ℕ) (r : Reader) (xs : Bytes)
      → IsKnown has_symbol t
      → 2 * length (tree_bytes t) < fuel
      → Ahead r (tree_bytes t ++ xs)
      → Gets (decode_tree has_symbol fuel r) t xs
  decode_tree-Gets has_symbol (node type s children) zero r xs k h a = absurd (omega arith)
  decode_tree-Gets has_symbol (node type s children) (suc fuel) r xs (byte, sym, ks) h a =
      let (e1, r2, e2, r3, e3, a3) =
        node_head r type (count children) s (trees_bytes children) xs
          (count_fits r type s xs children a) a in
      let (r4, e4, a4) =
        decode_trees-Gets has_symbol children fuel r3 xs ks
          (omega (arith, length-tree_bytes type s children)) a3 in
      (
        r4,
        decode_node has_symbol fuel type (count children) s r (moved r 1) r2 r3 r4 children byte sym
            e1 e2 e3 e4,
        a4,
      )

  decode_trees-Gets :
      (has_symbol : Bytes → Bool) (ts : Trees) (fuel : ℕ) (r : Reader) (xs : Bytes)
      → AreKnown has_symbol ts
      → suc (2 * length (trees_bytes ts)) < fuel
      → Ahead r (trees_bytes ts ++ xs)
      → Gets (decode_trees has_symbol fuel (count ts) r) ts xs
  decode_trees-Gets has_symbol nil zero r xs k h a = absurd (omega arith)
  decode_trees-Gets has_symbol nil (suc fuel) r xs k h a = (r, refl, a)
  decode_trees-Gets has_symbol (cons t ts) zero r xs k h a = absurd (omega arith)
  decode_trees-Gets has_symbol (cons t ts) (suc fuel) r xs (k, ks) h a =
      let (r1, e1, a1) =
        decode_tree-Gets has_symbol t fuel r (trees_bytes ts ++ xs) k
          (omega (arith, length-trees_bytes t ts))
          (subst (Ahead r) (append_assoc (tree_bytes t) (trees_bytes ts) xs) a) in
      let (r2, e2, a2) =
        decode_trees-Gets has_symbol ts fuel r1 xs ks
          (omega (arith, length-trees_bytes t ts, tree_bytes_pos t)) a1 in
      (r2, rw (e1, e2), a2)

-- A tree over the symbols of the grammar comes back from the sample that it is encoded in, if
-- memory can hold the sample.
pub decode_sample-encode_sample :
    (has_symbol : Bytes → Bool) (t : TreeNode) (sample : Sample)
    → IsKnown has_symbol t
    → length (sample_bytes t) < 2 ^ 63
    → (s : Sample) × (encode_sample t sample ≡ some s)
      × (r : Reader) × (decode_sample has_symbol s ≡ ok t r)
unfolding decode_sample
decode_sample-encode_sample has_symbol t sample k h =
    let (s, e, c, v) = encode_sample_lem t sample in
    let start : Ahead (new_reader (content s))
        (string_bytes (to_string t) ++ (tree_bytes t ++ [])) =
      record {
        rest = c ∙ ap (◌++◌ (string_bytes (to_string t))) (sym (append-nil (tree_bytes t)));
        inside = rw (append-nil (tree_bytes t), c) (omega arith);
        whole = refl;
        small = rw c h;
      } in
    let (e1, a1) =
      read_string-Ahead (new_reader (content s)) (to_string t) (tree_bytes t ++ []) start in
    let (r, e2, a2) =
      decode_tree-Gets has_symbol t (2 * length (content s) + 2) _ [] k
        (omega (arith, ap length c, length-append (string_bytes (to_string t)) (tree_bytes t)))
        a1 in
    let whole : read_block (content s) 0 s.size ≡ some (content s) =
      read_block_lem (content s) 0 s.size (omega (arith, v))
      ∙ ap (λ (b : Bytes). some b) (take_all (content s) s.size (omega (arith, v))) in
    (s, e, r, rw (whole, e1) e2)
