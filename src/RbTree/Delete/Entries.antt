-- ===== src/RbTree/Delete/Entries.antt =====
-- What a deletion does to the entries of a tree.
use elephants.Base.{
  ◌≡◌, ◌⊎◌, arith, refl, ap, Bool, true, false, ◌&&◌, not, Option, none, some, List, [], ◌∷◌, ◌++◌,
  append_assoc, if◌then◌else◌,
}
use elephants.RbTree.{
  Color, red, black, is_red, Tree, nil, node, Crumb, left_of, right_of, color_of, paint, fill, plug,
  parent_color, paint_parent, sibling, paint_sibling, rotate_left, rotate_right,
}
use elephants.RbTree.Entries.{
  entries, before, after, entries-plug, entries-paint, entries-plug_same, Has, same-Has, either-Has,
}
use elephants.RbTree.Delete.{
  is_nil, is_black, then_children, lift_sibling, turn_sibling, raise_sibling, delete_black,
  delete_lifted, delete_case, take_place, delete_one_child,
}

module _ {ℓ κ} {K : Type ℓ} {V : Type κ} where
  raise_sibling-Has :
      (p : Tree K V) (crumb : Crumb K V) (path : List (Crumb K V))
      → Has (entries (plug (crumb ∷ path) p)) (raise_sibling p crumb path)
  unfolding raise_sibling rotate_left rotate_right
  raise_sibling-Has p (left_of c k v nil) path = tt
  raise_sibling-Has p (right_of c nil k v) path = tt
  raise_sibling-Has p (left_of c k v (node sc sl sk sv sr)) path =
      entries-plug_same path _ _ (simp (append_assoc, entries-paint))
  raise_sibling-Has p (right_of c (node sc sl sk sv sr) k v) path =
      entries-plug_same path _ _ (simp (append_assoc, entries-paint))

  either-entries :
      (m : Bool) (a b : Tree K V) (es : List (K × V))
      → entries a ≡ es
      → entries b ≡ es
      → entries (if m then a else b) ≡ es
  either-entries true a b es h k = h
  either-entries false a b es h k = k

  turned :
      (p : Tree K V) (crumb : Crumb K V)
      → entries (fill (turn_sibling crumb) p) ≡ entries (fill crumb p)
  unfolding turn_sibling
  turned p (left_of c k v nil) = refl
  turned p (right_of c nil k v) = refl
  turned p (left_of c k v (node red sl sk sv sr)) = refl
  turned p (right_of c (node red sl sk sv sr) k v) = refl
  turned p (left_of c k v (node black nil sk sv sr)) = refl
  turned p (right_of c (node black sl sk sv nil) k v) = refl
  turned p (left_of c k v (node black (node black ll lk lv lr) sk sv sr)) = refl
  turned p (right_of c (node black sl sk sv (node black rl rk rv rr)) k v) = refl
  turned p (left_of c k v (node black (node red ll lk lv lr) sk sv sr)) =
      ap (λ es. entries p ++ (k, v) ∷ es)
        (either-entries (is_black sr) _ _ _ (simp (append_assoc)) refl)
  turned p (right_of c (node black sl sk sv (node red rl rk rv rr)) k v) =
      ap (λ es. es ++ (k, v) ∷ entries p)
        (either-entries (is_black sl) _ _ _ (simp (append_assoc)) refl)

  repainted :
      (p : Tree K V) (crumb : Crumb K V)
      → entries (fill (paint_parent black (paint_sibling red crumb)) p) ≡ entries (fill crumb p)
  repainted p (left_of c k v r) = rw (entries-paint red r)
  repainted p (right_of c l k v) = rw (entries-paint red l)

  then_children-Has :
      (es : List (K × V)) (t : Tree K V) (f : Bool → Option (Tree K V))
      → ((bare : Bool) → Has es (f bare))
      → Has es (then_children t f)
  then_children-Has es nil f h = tt
  then_children-Has es (node c l k v r) f h = h (is_black l && is_black r)

  delete_black-Has :
      (higher : Option (Tree K V)) (p : Tree K V) (crumb : Crumb K V) (path : List (Crumb K V))
      → Has (entries (plug (crumb ∷ path) p)) higher
      → Has (entries (plug (crumb ∷ path) p)) (delete_black higher p crumb path)
  unfolding delete_black
  delete_black-Has higher p crumb path h =
      let es = entries (plug (crumb ∷ path) p) in
      let painted = paint_parent black (paint_sibling red crumb) in
      let raised = raise_sibling p (turn_sibling crumb) path in
      let at_red = λ (bare : Bool).
        if is_red (parent_color crumb) && (is_black (sibling crumb) && bare)
        then some (plug (painted ∷ path) p)
        else raised in
      then_children-Has es (sibling crumb) _ (λ bare.
        either-Has es (not (is_red (parent_color crumb)) && (is_black (sibling crumb) && bare))
          higher (at_red bare) h
          (either-Has es (is_red (parent_color crumb) && (is_black (sibling crumb) && bare))
            (some (plug (painted ∷ path) p)) raised
            (entries-plug_same path (fill painted p) (fill crumb p) (repainted p crumb))
            (same-Has (entries (plug (turn_sibling crumb ∷ path) p)) es raised
              (entries-plug_same path (fill (turn_sibling crumb) p) (fill crumb p) (turned p crumb))
              (raise_sibling-Has p (turn_sibling crumb) path))))

  delete_lifted-Has :
      (p : Tree K V) (path : List (Crumb K V)) → Has (entries (plug path p)) (delete_lifted p path)
  unfolding delete_lifted
  delete_lifted-Has p [] = tt
  delete_lifted-Has p (crumb ∷ path) = delete_black-Has none p crumb path tt

  lifted :
      (p : Tree K V) (crumb : Crumb K V) (path : List (Crumb K V))
      → entries (plug (lift_sibling crumb path) p) ≡ entries (plug (crumb ∷ path) p)
  unfolding lift_sibling
  lifted p (left_of c k v nil) path = refl
  lifted p (right_of c nil k v) path = refl
  lifted p (left_of c k v (node sc sl sk sv sr)) path =
      entries-plug_same path _ _ (simp (append_assoc))
  lifted p (right_of c (node sc sl sk sv sr) k v) path =
      entries-plug_same path _ _ (simp (append_assoc))

  sibling_painted :
      (p : Tree K V) (crumb : Crumb K V)
      → entries (fill (paint_sibling red crumb) p) ≡ entries (fill crumb p)
  sibling_painted p (left_of c k v r) = rw (entries-paint red r)
  sibling_painted p (right_of c l k v) = rw (entries-paint red l)

  delete_case-Has :
      (p : Tree K V) (path : List (Crumb K V)) → Has (entries (plug path p)) (delete_case p path)
  unfolding delete_case
  delete_case-Has p [] = entries-paint black p
  delete_case-Has p (crumb ∷ path) =
      let es = entries (plug (crumb ∷ path) p) in
      let up = fill (paint_sibling red crumb) p in
      either-Has es (is_red (color_of (sibling crumb))) (delete_lifted p (lift_sibling crumb path))
        (delete_black (delete_case up path) p crumb path)
        (same-Has _ es (delete_lifted p (lift_sibling crumb path)) (lifted p crumb path)
          (delete_lifted-Has p (lift_sibling crumb path)))
        (delete_black-Has (delete_case up path) p crumb path (
          same-Has _ es (delete_case up path)
            (entries-plug_same path up (fill crumb p) (sibling_painted p crumb))
            (delete_case-Has up path)))

  take_place-Has :
      (c : Color) (child : Tree K V) (path : List (Crumb K V))
      → Has (entries (plug path child)) (take_place c child path)
  unfolding take_place
  take_place-Has red child [] = refl
  take_place-Has black child [] = refl
  take_place-Has red child (crumb ∷ path) = refl
  take_place-Has black child (crumb ∷ path) =
      either-Has (entries (plug (crumb ∷ path) child)) (is_red (color_of child))
        (some (plug (crumb ∷ path) (paint black child))) (delete_case child (crumb ∷ path))
        (entries-plug_same (crumb ∷ path) (paint black child) child (entries-paint black child))
        (delete_case-Has child (crumb ∷ path))

  -- The node goes, if it has at most one child.
  pub delete_one_child-Has :
      (c : Color) (l : Tree K V) (k : K) (v : V) (r : Tree K V) (path : List (Crumb K V))
      → (is_nil l ≡ true) ⊎ (is_nil r ≡ true)
      → Has
          (before path ++ (entries l ++ (entries r ++ after path)))
          (delete_one_child (node c l k v r) path)
  unfolding delete_one_child
  delete_one_child-Has c nil k v r path one =
      same-Has _ _ (take_place c r path) (entries-plug path r) (take_place-Has c r path)
  delete_one_child-Has c (node d a x y b) k v nil path one =
      same-Has _ _ (take_place c (node d a x y b) path) (entries-plug path (node d a x y b))
        (take_place-Has c (node d a x y b) path)
  delete_one_child-Has c (node d a x y b) k v (node d' a' x' y' b') path one =
      absurd (ground (arith, one))
