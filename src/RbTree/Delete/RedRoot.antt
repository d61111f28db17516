-- ===== src/RbTree/Delete/RedRoot.antt =====
-- What a red child that has become the root means for the next insertion.
use elephants.Base.{◌≡◌, ◌⊎◌, refl, true, none, some, inl, inr}
use elephants.RbTree.{Order, red, black, Tree, nil, node, insert_case, insert_at, insert}
use elephants.RbTree.Delete.{take_place, delete_one_child, delete_child, delete_value}
use elephants.RbTree.Delete.Result.{lt_irrefl}

module _ {ℓ κ} {K : Type ℓ} {V : Type κ} ⦃o : Order K⦄ where
  insert-red_root :
      (a : K) (w : V) (x : K) (y : V)
      → (o.lt x a ≡ true) ⊎ (o.lt a x ≡ true)
      → insert (node red nil a w nil) x y ≡ none
  unfolding insert insert_at insert_case
  insert-red_root a w x y (inl e) = rw e refl
  insert-red_root a w x y (inr e) = rw (o.lt_asym a x e, e) refl

  -- Deleting the root of a tree with one more node, on the left, makes that red node the root, and
  -- inserting any third key then dereferences a null pointer.
  pub insert-delete_value :
      (a : K) (w : V) (k : K) (v : V) (x : K) (y : V)
      → (o.lt x a ≡ true) ⊎ (o.lt a x ≡ true)
      → (t : Tree K V) × (delete_value (node black (node red nil a w nil) k v nil) k
          ≡ some (true, t))
        × (insert t x y ≡ none)
  unfolding delete_value delete_child delete_one_child take_place
  insert-delete_value a w k v x y other =
      (node red nil a w nil, rw (lt_irrefl k) refl, insert-red_root a w x y other)
