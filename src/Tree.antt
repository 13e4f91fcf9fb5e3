-- ===== src/Tree.antt =====
-- backend/src/mouseion/services/tree_indexer.py: the section tree of a paper. A page is a natural
-- number; that an outline may say -1 for a bookmark without a target is left out.
pub mod Outline
pub mod Refilled
pub mod Order
pub mod Navigate
pub mod Selected
mod Tests
use mouseion.Prelude.{ℕ, Option, List, [], ◌∷◌, ◌++◌}
use mouseion.Text.{Text}

-- the fields of a TreeNode beside its children
pub record NodeInfo : Type 0 where
  pub node_id : Text
  pub title : Text
  pub level : ℕ
  pub start_page : Option ℕ
  pub end_page : Option ℕ
  pub summary : Option Text

mutual
  pub data TreeNode : Type 0 where
    node : NodeInfo → Nodes → TreeNode

  -- a list of nodes
  pub data Nodes : Type 0 where
    nil : Nodes
    cons : TreeNode → Nodes → Nodes

pub record TreeDocument : Type 0 where
  pub sha256 : Text
  pub indexer : Text
  pub nodes : Nodes
  pub model : Option Text
  pub created_at : Text

-- `_flatten`
unfoldable pub flatten : Nodes → List NodeInfo
flatten nil = []
flatten (cons (node info children) rest) = info ∷ flatten children ++ flatten rest

-- `iter_nodes`
unfoldable pub iter_nodes : TreeDocument → List NodeInfo
unfolding flatten
iter_nodes tree = flatten tree.nodes
