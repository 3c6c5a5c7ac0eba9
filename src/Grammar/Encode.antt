-- ===== src/Grammar/Encode.antt =====
-- Grammar::EncodeTree and Grammar::EncodeSample, and the bytes that they write.
use jackalope.Prelude.{
  ◌%◌, ◌≡◌, refl, sym, ap, ◌∙◌, Option, some, [], ◌∷◌, ◌++◌, length-take, append_assoc, append-nil,
  arith,
}
use jackalope.Prelude.Memory.{Bytes, ◌>>=◌, store_le}
use jackalope.Sample.{Sample, content, IsValid, init}
use jackalope.Sample.Contents.{init_lem}
use jackalope.Grammar.Binary.{Writer, new_writer, write_data, write_size, write_string}
use jackalope.Grammar.Writer.{
  IsWriter, written, write_data_lem, write_size_lem, write_string_lem, string_bytes,
  new_writer-IsWriter,
}
use jackalope.Grammar.Tree.{TreeNode, Trees, node, nil, cons, count, to_string}

-- Grammar::EncodeTree
unfoldable mutual
  pub encode_tree : TreeNode → Writer → Option Writer
  encode_tree (node type s children) w = do
    w1 ← write_data ((type % 256) ∷ []) w
    w2 ← write_string s w1
    w3 ← write_size (count children) w2
    encode_trees children w3

  pub encode_trees : Trees → Writer → Option Writer
  encode_trees nil w = some w
  encode_trees (cons t ts) w = do w' ← encode_tree t w; encode_trees ts w'

-- Grammar::EncodeSample; the string nodes and symbols of the tree hold their strings.
unfoldable pub encode_sample : TreeNode → Sample → Option Sample
encode_sample t sample = do
  w ← write_string (to_string t) new_writer
  w' ← encode_tree t w
  init sample w'.bytes w'.size_current

-- The stored form of a tree.
unfoldable mutual
  pub tree_bytes : TreeNode → Bytes
  tree_bytes (node type s children) =
      (type % 256) ∷ (string_bytes s ++ (store_le 8 (count children) ++ trees_bytes children))

  pub trees_bytes : Trees → Bytes
  trees_bytes nil = []
  trees_bytes (cons t ts) = tree_bytes t ++ trees_bytes ts

abbrev pub Writes : (Writer → Option Writer) → Bytes → Writer → Type 0
Writes step d w = (w' : Writer) × (step w ≡ some w') × IsWriter w' × (written w' ≡ written w ++ d)

mutual
  unfolding encode_tree tree_bytes

  encode_tree-Writes :
      (t : TreeNode) (w : Writer) → IsWriter w → Writes (encode_tree t) (tree_bytes t) w
  encode_tree-Writes (node type s children) w v =
      let (w1, e1, v1, k1) = write_data_lem ((type % 256) ∷ []) w v in
      let (w2, e2, v2, k2) = write_string_lem s w1 v1 in
      let (w3, e3, v3, k3) = write_size_lem (count children) w2 v2 in
      let (w4, e4, v4, k4) = encode_trees-Writes children w3 v3 in
      (w4, rw (e1, e2, e3) e4, v4, rw (k4, k3, k2, k1) (simp append_assoc))

  encode_trees-Writes :
      (ts : Trees) (w : Writer) → IsWriter w → Writes (encode_trees ts) (trees_bytes ts) w
  encode_trees-Writes nil w v = (w, refl, v, sym (append-nil (written w)))
  encode_trees-Writes (cons t ts) w v =
      let (w1, e1, v1, k1) = encode_tree-Writes t w v in
      let (w2, e2, v2, k2) = encode_trees-Writes ts w1 v1 in
      (w2, rw e1 e2, v2, rw (k2, k1) (append_assoc (written w) (tree_bytes t) (trees_bytes ts)))

-- The bytes of an encoded sample: the text of the tree, with its size, and the tree.
abbrev pub sample_bytes : TreeNode → Bytes
sample_bytes t = string_bytes (to_string t) ++ tree_bytes t

-- EncodeSample ends, stays inside its buffers and fills the sample with those bytes.
pub encode_sample_lem :
    (t : TreeNode) (sample : Sample)
    → (s : Sample) × (encode_sample t sample ≡ some s) × (content s ≡ sample_bytes t) × IsValid s
unfolding encode_sample
encode_sample_lem t sample =
    let (w1, e1, v1, k1) = write_string_lem (to_string t) new_writer new_writer-IsWriter in
    let (w2, e2, v2, k2) = encode_tree-Writes t w1 v1 in
    (
      record sample { bytes = some (written w2); size = w2.size_current },
      rw (e1, e2) (init_lem sample w2.bytes w2.size_current (omega (arith, v2.whole, v2.inside))),
      k2 ∙ ap (λ b. b ++ tree_bytes t) k1,
      omega (arith, length-take w2.size_current w2.bytes, v2.whole, v2.inside),
    )
