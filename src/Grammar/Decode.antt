-- ===== src/Grammar/Decode.antt =====
-- Grammar::DecodeTree and Grammar::DecodeSample. The string cache only makes equal strings share
-- their memory, so a cached string is the string.
use jackalope.Prelude.{
  ℕ, zero, suc, ◌+◌, ◌*◌, ◌<◌, ◌≡◌, Option, none, some, Bool, true, ◌||◌, ◌==◌, if◌then◌else◌,
  length,
}
use jackalope.Prelude.Memory.{Bytes, load_le, read_block}
use jackalope.Sample.{Sample, content}
use jackalope.Grammar.Binary.{
  Reader, new_reader, Read, ok, failed, out_of_bounds, out_of_fuel, bind, read_data, read_size,
  read_string,
}
use jackalope.Grammar.Tree.{TreeNode, Trees, node, nil, cons, string_type}

-- `has_symbol` tells whether GetSymbol finds a name. Each call takes one unit of fuel.
unfoldable mutual
  pub decode_tree : (Bytes → Bool) → ℕ → Reader → Read TreeNode
  decode_tree has_symbol zero r = out_of_fuel
  decode_tree has_symbol (suc fuel) r = bind (read_data 1 r) λ type r1.
      bind (read_string r1) λ s r2.
        if (load_le type == string_type) || has_symbol s
        then bind (read_size r2) (λ nchildren r3.
          bind (decode_trees has_symbol fuel nchildren r3)
            λ children. ok (node (load_le type) s children))
        else failed

  -- The loop over the children; the number says how many are left.
  pub decode_trees : (Bytes → Bool) → ℕ → ℕ → Reader → Read Trees
  decode_trees has_symbol zero n r = out_of_fuel
  decode_trees has_symbol (suc fuel) zero r = ok nil r
  decode_trees has_symbol (suc fuel) (suc n) r =
      bind (decode_tree has_symbol fuel r)
        λ child r'. bind (decode_trees has_symbol fuel n r') λ rest. ok (cons child rest)

-- The bytes of the sample that the reader has copied.
abbrev pub decode_bytes : (Bytes → Bool) → Option Bytes → Read TreeNode
decode_bytes has_symbol none = out_of_bounds
decode_bytes has_symbol (some bytes) =
    bind (read_string (new_reader bytes)) λ _ r. decode_tree has_symbol (2 * length bytes + 2) r

-- Grammar::DecodeSample
unfoldable pub decode_sample : (Bytes → Bool) → Sample → Read TreeNode
unfolding decode_tree
decode_sample has_symbol sample =
    decode_bytes has_symbol (read_block (content sample) 0 sample.size)

-- The types fit in a byte, and the symbols are those of the grammar.
abbrev mutual
  pub IsKnown : (Bytes → Bool) → TreeNode → Type 0
  IsKnown has_symbol (node type s children) =
      (type < 256) × ((type == string_type) || has_symbol s ≡ true) × AreKnown has_symbol children

  pub AreKnown : (Bytes → Bool) → Trees → Type 0
  AreKnown has_symbol nil = Unit {0}
  AreKnown has_symbol (cons t ts) = IsKnown has_symbol t × AreKnown has_symbol ts
