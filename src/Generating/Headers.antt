-- ===== src/Generating/Headers.antt =====
-- headerTransformer: the headings of the instructions go down one level.
use mpas_product_controller.Base.{
  ℕ, suc, ◌-◌, ◌≡◌, refl, ap, String, List, [], ◌∷◌, ◌++◌, map, arith,
}
use mathlib.Core.List.{map-append}

-- A tree as goldmark parses it: a heading with its level, or another node, with the children.
mutual
  pub data Node : Type 0 where
    heading : ℕ → Nodes → Node
    other : String → Nodes → Node

  pub data Nodes : Type 0 where
    end : Nodes
    more : Node → Nodes → Nodes

-- The method Transform: the walk skips the children of a heading.
unfoldable mutual
  pub transform : Node → Node
  transform (heading level nodes) = heading (suc level) nodes
  transform (other kind nodes) = other kind (transform_all nodes)

  pub transform_all : Nodes → Nodes
  transform_all end = end
  transform_all (more node nodes) = more (transform node) (transform_all nodes)

-- The levels of the headings that stand in no other heading, in order.
unfoldable mutual
  pub levels : Node → List ℕ
  levels (heading level nodes) = level ∷ []
  levels (other kind nodes) = levels_all nodes

  pub levels_all : Nodes → List ℕ
  levels_all end = []
  levels_all (more node nodes) = levels node ++ levels_all nodes

-- The walk in the other direction.
unfoldable mutual
  pub raised : Node → Node
  raised (heading level nodes) = heading (level - 1) nodes
  raised (other kind nodes) = other kind (raised_all nodes)

  pub raised_all : Nodes → Nodes
  raised_all end = end
  raised_all (more node nodes) = more (raised node) (raised_all nodes)

mutual
  unfolding transform levels

  levels-transform_node : (node : Node) → levels (transform node) ≡ map suc (levels node)
  levels-transform_node (heading level nodes) = refl
  levels-transform_node (other kind nodes) = levels_all-transform_all nodes

  levels_all-transform_all :
      (nodes : Nodes) → levels_all (transform_all nodes) ≡ map suc (levels_all nodes)
  levels_all-transform_all end = refl
  levels_all-transform_all (more node nodes) =
      rw
        (
          levels-transform_node node,
          levels_all-transform_all nodes,
          map-append suc (levels node) (levels_all nodes),
        )
        refl

mutual
  unfolding transform raised

  raised-transform_node : (node : Node) → raised (transform node) ≡ node
  raised-transform_node (heading level nodes) = ap (λ l. heading l nodes) (omega arith)
  raised-transform_node (other kind nodes) = ap (other kind) (raised_all-transform_all nodes)

  raised_all-transform_all : (nodes : Nodes) → raised_all (transform_all nodes) ≡ nodes
  raised_all-transform_all end = refl
  raised_all-transform_all (more node nodes) =
      rw (raised-transform_node node, raised_all-transform_all nodes) refl

-- Every heading that stands in no other heading goes down exactly one level, in place, and nothing
-- else is changed: raising those headings by one gives the tree back.
pub transform_lem :
    (node : Node)
    → (levels (transform node) ≡ map suc (levels node)) × (raised (transform node) ≡ node)
transform_lem node = (levels-transform_node node, raised-transform_node node)
