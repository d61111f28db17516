-- ===== src/RbTree.antt =====
-- service_module/algorithm/trees/red_black/rbtree.hpp: the red-black tree. A node with its
-- `parent` pointers is a tree and the path up from it, so that `NIL` and its parent need no node
-- of their own; an empty tree stands for `root` being NULL, too. What dereferences NULL is `none`.
pub mod Colored
pub mod Sorted
pub mod Entries
pub mod Delete
use elephants.Base.{
  Bool, true, false, ◌&&◌, not, ◌≡◌, Option, none, some, List, [], ◌∷◌, if◌then◌else◌,
}

-- `operator<` of the keys; `a > b` is `b < a`.
pub record Order {ℓ} (K : Type ℓ) : Type ℓ where
  pub lt : K → K → Bool
  pub lt_trans : (a b c : K) → lt a b ≡ true → lt b c ≡ true → lt a c ≡ true
  pub lt_asym : (a b : K) → lt a b ≡ true → lt b a ≡ false
  pub lt_total : (a b : K) → lt a b ≡ false → lt b a ≡ false → a ≡ b

pub data Color : Type 0 where
  red black : Color

abbrev pub is_red : Color → Bool
is_red red = true
is_red black = false

pub data Tree {ℓ κ} (K : Type ℓ) (V : Type κ) : Type (ℓ ⊔ κ) where
  nil : Tree K V
  node : Color → Tree K V → K → V → Tree K V → Tree K V

-- What stands above a node: the parent whose left tree it is, with the rest of that, or whose right.
pub data Crumb {ℓ κ} (K : Type ℓ) (V : Type κ) : Type (ℓ ⊔ κ) where
  left_of : Color → K → V → Tree K V → Crumb K V
  right_of : Color → Tree K V → K → V → Crumb K V

-- A node, with its parent first on the path to the root.
abbrev pub Place {ℓ κ} : (K : Type ℓ) → (V : Type κ) → Type (ℓ ⊔ κ)
Place K V = Tree K V × List (Crumb K V)

module _ {ℓ κ} {K : Type ℓ} {V : Type κ} where
  abbrev pub color_of : Tree K V → Color
  color_of nil = black
  color_of (node c l k v r) = c

  abbrev pub paint : Color → Tree K V → Tree K V
  paint c nil = nil
  paint c (node old l k v r) = node c l k v r

  abbrev pub fill : Crumb K V → Tree K V → Tree K V
  fill (left_of c k v r) t = node c t k v r
  fill (right_of c l k v) t = node c l k v t

  -- The whole tree.
  abbrev pub plug : List (Crumb K V) → Tree K V → Tree K V
  plug [] t = t
  plug (crumb ∷ path) t = plug path (fill crumb t)

  abbrev pub parent_color : Crumb K V → Color
  parent_color (left_of c k v r) = c
  parent_color (right_of c l k v) = c

  abbrev pub paint_parent : Color → Crumb K V → Crumb K V
  paint_parent c (left_of old k v r) = left_of c k v r
  paint_parent c (right_of old l k v) = right_of c l k v

  -- The other child of the parent.
  abbrev pub sibling : Crumb K V → Tree K V
  sibling (left_of c k v r) = r
  sibling (right_of c l k v) = l

  abbrev pub paint_sibling : Color → Crumb K V → Crumb K V
  paint_sibling c (left_of pc k v r) = left_of pc k v (paint c r)
  paint_sibling c (right_of pc l k v) = right_of pc (paint c l) k v

  -- `rotate_right(p)` makes `p`, a left child, the parent of its parent, and `rotate_left(p)` a
  -- right child, unless it is the root. At the root `rotate_right` goes through a null pointer; on
  -- a child of the other side, where no caller uses them, they leave a cycle, which is no tree:
  -- `none`, too.
  unfoldable pub rotate_right : Place K V → Option (Place K V)
  rotate_right (node c l k v r, left_of pc pk pv pr ∷ path) =
      some (node c l k v (node pc r pk pv pr), path)
  rotate_right _ = none

  unfoldable pub rotate_left : Place K V → Option (Place K V)
  rotate_left (t, []) = some (t, [])
  rotate_left (node c l k v r, right_of pc pl pk pv ∷ path) =
      some (node c (node pc pl pk pv l) k v r, path)
  rotate_left _ = none

  abbrev pub then_place : Option (Place K V) → (Place K V → Option (Place K V)) → Option (Place K V)
  then_place none f = none
  then_place (some place) f = f place

  abbrev pub plugged : Option (Place K V) → Option (Tree K V)
  plugged none = none
  plugged (some (t, path)) = some (plug path t)

  -- `p->color = BLACK; p->leftTree->color = p->rightTree->color = RED`
  abbrev pub split_colors : Place K V → Option (Place K V)
  split_colors (nil, path) = none
  split_colors (node c l k v r, path) = some (node black (paint red l) k v (paint red r), path)

  -- The four cases of a red parent and a black uncle, by the sides on which `p` and its parent
  -- stand.
  unfoldable pub rebalance :
      Tree K V → Crumb K V → Crumb K V → List (Crumb K V) → Option (Place K V)
  unfolding rotate_left rotate_right
  rebalance p (right_of c l k v) (left_of gc gk gv gr) path =
      then_place
        (then_place (rotate_left (p, right_of c l k v ∷ left_of gc gk gv gr ∷ path)) rotate_right)
        split_colors
  rebalance p (left_of c k v r) (right_of gc gl gk gv) path =
      then_place
        (then_place (rotate_right (p, left_of c k v r ∷ right_of gc gl gk gv ∷ path)) rotate_left)
        split_colors
  rebalance p (left_of c k v r) (left_of gc gk gv gr) path =
      rotate_right (fill (left_of black k v r) p, left_of red gk gv gr ∷ path)
  rebalance p (right_of c l k v) (right_of gc gl gk gv) path =
      rotate_left (fill (right_of black l k v) p, right_of red gl gk gv ∷ path)

  -- `insert_case`: a red parent at the root has no grandparent, whose colour is then read.
  unfoldable pub insert_case : Tree K V → List (Crumb K V) → Option (Tree K V)
  unfolding rebalance
  insert_case p [] = some (paint black p)
  insert_case p (parent ∷ []) =
      if is_red (parent_color parent) then none else some (plug (parent ∷ []) p)
  insert_case p (parent ∷ grandparent ∷ path) =
      let higher =
        insert_case
          (paint red (fill (paint_sibling black grandparent) (fill (paint_parent black parent) p)))
          path in
      if not (is_red (parent_color parent))
      then some (plug (parent ∷ grandparent ∷ path) p)
      else if is_red (color_of (sibling grandparent))
      then higher
      else plugged (rebalance p parent grandparent path)

  module _ ⦃o : Order K⦄ where
    -- The private `insert`, from a node on; the new node is red and hangs in the place of `NIL`.
    unfoldable pub insert_at : Tree K V → List (Crumb K V) → K → V → Option (Tree K V)
    unfolding insert_case
    insert_at nil path x y = insert_case (node red nil x y nil) path
    insert_at (node c l k v r) path x y =
        let lower = insert_at l (left_of c k v r ∷ path) x y in
        let upper = insert_at r (right_of c l k v ∷ path) x y in
        if o.lt x k then lower else if o.lt k x then upper else some (plug path (node c l k y r))

    unfoldable pub insert : Tree K V → K → V → Option (Tree K V)
    unfolding insert_at
    insert nil x y = some (node black nil x y nil)
    insert (node c l k v r) x y = insert_at (node c l k v r) [] x y
