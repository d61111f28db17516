-- ===== src/RbTree/Delete.antt =====
-- service_module/algorithm/trees/red_black/rbtree.hpp: the deletion of a key from the red-black
-- tree. What dereferences NULL is `none`: `root` of an empty tree, and the children of `NIL`.
pub mod Colored
pub mod RedBlack
pub mod Total
pub mod Entries
pub mod Values
pub mod Result
pub mod RedRoot
use elephants.Base.{
  Bool, true, false, ◌&&◌, not, Option, none, some, List, [], ◌∷◌, ◌++◌, if◌then◌else◌,
}
use elephants.RbTree.{
  Order, Color, red, black, is_red, Tree, nil, node, Crumb, left_of, right_of, Place, color_of,
  paint, fill, plug, parent_color, paint_parent, sibling, paint_sibling, rotate_left, rotate_right,
  plugged, then_place,
}

module _ {ℓ κ} {K : Type ℓ} {V : Type κ} where
  abbrev pub is_nil : Tree K V → Bool
  is_nil nil = true
  is_nil (node c l k v r) = false

  abbrev pub is_black : Tree K V → Bool
  is_black t = not (is_red (color_of t))

  -- `sibling()->leftTree` and `sibling()->rightTree` are black; those of `NIL` are NULL.
  abbrev pub then_children : Tree K V → (Bool → Option (Tree K V)) → Option (Tree K V)
  then_children nil f = none
  then_children (node c l k v r) f = f (is_black l && is_black r)

  -- The parent turned red, the sibling black, and the sibling rotated above the parent: the parent,
  -- which has a new sibling for `p`, and the old sibling above it.
  unfoldable pub lift_sibling : Crumb K V → List (Crumb K V) → List (Crumb K V)
  lift_sibling (left_of c k v (node sc sl sk sv sr)) path =
      left_of red k v sl ∷ left_of black sk sv sr ∷ path
  lift_sibling (right_of c (node sc sl sk sv sr) k v) path =
      right_of red sr k v ∷ right_of black sl sk sv ∷ path
  lift_sibling crumb path = crumb ∷ path

  -- A black sibling with a red child on the side of `p` and a black one on the other is rotated
  -- below that child.
  unfoldable pub turn_sibling : Crumb K V → Crumb K V
  turn_sibling (left_of c k v (node black (node red ll lk lv lr) sk sv sr)) = left_of c k v (
      if is_black sr
      then node black ll lk lv (node red lr sk sv sr)
      else node black (node red ll lk lv lr) sk sv sr)
  turn_sibling (right_of c (node black sl sk sv (node red rl rk rv rr)) k v) =
      right_of c
        (if is_black sl
          then node black (node red sl sk sv rl) rk rv rr
          else node black sl sk sv (node red rl rk rv rr))
        k v
  turn_sibling crumb = crumb

  -- The sibling gets the parent's colour, the parent and the sibling's outer child turn black, and
  -- the sibling is rotated above the parent.
  unfoldable pub raise_sibling : Tree K V → Crumb K V → List (Crumb K V) → Option (Tree K V)
  unfolding rotate_left rotate_right
  raise_sibling p (left_of c k v (node sc sl sk sv sr)) path =
      plugged (rotate_left (node c sl sk sv (paint black sr), right_of black p k v ∷ path))
  raise_sibling p (right_of c (node sc sl sk sv sr) k v) path =
      plugged (rotate_right (node c (paint black sl) sk sv sr, left_of black k v p ∷ path))
  raise_sibling p crumb path = none

  -- The second half of `delete_case`, at a sibling that is not red any more; `higher` is what
  -- `delete_case(p->parent)` gives.
  unfoldable pub delete_black :
      Option (Tree K V) → Tree K V → Crumb K V → List (Crumb K V) → Option (Tree K V)
  unfolding turn_sibling raise_sibling
  delete_black higher p crumb path = then_children (sibling crumb) (λ bare.
      if not (is_red (parent_color crumb)) && (is_black (sibling crumb) && bare)
      then higher
      else if is_red (parent_color crumb) && (is_black (sibling crumb) && bare)
      then some (plug (paint_parent black (paint_sibling red crumb) ∷ path) p)
      else raise_sibling p (turn_sibling crumb) path)

  unfoldable pub delete_lifted : Tree K V → List (Crumb K V) → Option (Tree K V)
  unfolding delete_black
  delete_lifted p [] = none
  delete_lifted p (crumb ∷ path) = delete_black none p crumb path

  -- `delete_case`: below a lifted sibling the parent is red, so that it does not come to the call
  -- with the parent.
  unfoldable pub delete_case : Tree K V → List (Crumb K V) → Option (Tree K V)
  unfolding lift_sibling delete_black delete_lifted
  delete_case p [] = some (paint black p)
  delete_case p (crumb ∷ path) =
      let higher = delete_case (fill (paint_sibling red crumb) p) path in
      if is_red (color_of (sibling crumb))
      then delete_lifted p (lift_sibling crumb path)
      else delete_black higher p crumb path

  -- The child in the place of the deleted node, of this colour: at the root it keeps its own.
  unfoldable pub take_place : Color → Tree K V → List (Crumb K V) → Option (Tree K V)
  unfolding delete_case
  take_place c child [] = some child
  take_place red child (crumb ∷ path) = some (plug (crumb ∷ path) child)
  take_place black child (crumb ∷ path) =
      if is_red (color_of child)
      then some (plug (crumb ∷ path) (paint black child))
      else delete_case child (crumb ∷ path)

  -- `delete_one_child`, of a node with at most one child.
  unfoldable pub delete_one_child : Tree K V → List (Crumb K V) → Option (Tree K V)
  unfolding take_place
  delete_one_child nil path = none
  delete_one_child (node c l k v r) path = take_place c (if is_nil l then r else l) path

  -- `getSmallestChild`, with the path from its start.
  unfoldable pub get_smallest_child : Tree K V → List (Crumb K V) → Place K V
  get_smallest_child nil path = (nil, path)
  get_smallest_child (node c l k v r) path =
      let lower = get_smallest_child l (left_of c k v r ∷ path) in
      if is_nil l then (node c l k v r, path) else lower

  -- `swap(p->value, smallest->value)` and the deletion of the smallest node of the right tree.
  unfoldable pub delete_smallest :
      Color → Tree K V → K → V → List (Crumb K V) → Place K V → Option (Tree K V)
  unfolding delete_one_child
  delete_smallest c l k v path (nil, steps) = none
  delete_smallest c l k v path (node sc sl sk sv sr, steps) =
      delete_one_child (node sc sl sk v sr) (steps ++ right_of c l k sv ∷ path)

  abbrev pub deleted : Option (Tree K V) → Option (Bool × Tree K V)
  deleted none = none
  deleted (some t) = some (true, t)

  module _ ⦃o : Order K⦄ where
    -- `delete_child`, from a node on: whether the key was there, and the tree.
    unfoldable pub delete_child : Tree K V → List (Crumb K V) → K → Option (Bool × Tree K V)
    unfolding delete_one_child delete_smallest get_smallest_child
    delete_child nil path x = none
    delete_child (node c l k v r) path x =
        let lower = delete_child l (left_of c k v r ∷ path) x in
        let upper = delete_child r (right_of c l k v ∷ path) x in
        let missing = some (false, plug path (node c l k v r)) in
        if o.lt x k
        then (if is_nil l then missing else lower)
        else if o.lt k x
        then (if is_nil r then missing else upper)
        else deleted (
            if is_nil r
            then delete_one_child (node c l k v r) path
            else delete_smallest c l k v path (get_smallest_child r []))

    unfoldable pub delete_value : Tree K V → K → Option (Bool × Tree K V)
    unfolding delete_child
    delete_value root x = delete_child root [] x
