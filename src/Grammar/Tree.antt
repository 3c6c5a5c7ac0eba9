-- ===== src/Grammar/Tree.antt =====
-- grammar.h and grammar.cpp, class TreeNode: a sample that a grammar generates. The string of a
-- string node and the symbol of a symbol node share a union; a symbol is given by its name, under
-- which the grammar keeps it. The type is the number that the enum NodeType stands for.
use jackalope.Prelude.{ℕ, suc, ◌+◌, [], ◌++◌, ◌==◌, if◌then◌else◌}
use jackalope.Prelude.Memory.{Bytes}

-- NodeType
abbrev pub string_type : ℕ
string_type = 0

abbrev pub symbol_type : ℕ
symbol_type = 1

mutual
  pub data TreeNode : Type 0 where
    node : ℕ → Bytes → Trees → TreeNode

  -- children
  pub data Trees : Type 0 where
    nil : Trees
    cons : TreeNode → Trees → Trees

-- children.size()
unfoldable pub count : Trees → ℕ
count nil = 0
count (cons t ts) = suc (count ts)

-- TreeNode::NumNodes
unfoldable mutual
  pub num_nodes : TreeNode → ℕ
  num_nodes (node type s children) = 1 + num_nodes_all children

  pub num_nodes_all : Trees → ℕ
  num_nodes_all nil = 0
  num_nodes_all (cons t ts) = num_nodes t + num_nodes_all ts

-- Grammar::ToString: what it appends to `out`.
unfoldable mutual
  pub to_string : TreeNode → Bytes
  to_string (node type s children) =
      let below = to_string_all children in if type == string_type then s else below

  pub to_string_all : Trees → Bytes
  to_string_all nil = []
  to_string_all (cons t ts) = to_string t ++ to_string_all ts
