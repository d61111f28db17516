-- ===== src/RbTree/Delete/RedBlack.antt =====
-- The colours of a tree that a node with one child at most is taken out of.
use elephants.Base.{
  ℕ, suc, ◌≡◌, ◌⊎◌, refl, sym, true, Option, none, some, List, [], ◌∷◌, arith, inl, inr,
}
use elephants.RbTree.{Color, red, black, Tree, nil, node, Crumb, left_of, right_of, color_of, paint}
use elephants.RbTree.Colored.{
  IsColored, IsContext, IsRedBlack, IsInserted, plug-IsRedBlack, is_red_iff, paint_black-IsColored,
  color_of-paint_black,
}
use elephants.RbTree.Delete.{
  is_nil, lift_sibling, delete_lifted, delete_case, take_place, delete_one_child,
}
use elephants.RbTree.Delete.Colored.{
  IsContext-color, level, children-IsColored, left-IsContext, right-IsContext,
  delete_left-IsRedBlack, delete_right-IsRedBlack,
}

module _ {ℓ κ} {K : Type ℓ} {V : Type κ} where
  paint_black-same : (t : Tree K V) → color_of t ≡ black → paint black t ≡ t
  paint_black-same nil e = refl
  paint_black-same (node c l k v r) e = rw e

  -- Below a lifted sibling: a red parent and a black sibling.
  lifted_left-IsRedBlack :
      (p : Tree K V) (k : K) (v : V) (s : Tree K V) (path : List (Crumb K V)) (n : ℕ)
      → IsColored p n
      → color_of s ≡ black
      → IsColored s (suc n)
      → IsContext path red (suc n)
      → IsInserted (delete_lifted p (left_of red k v s ∷ path))
  unfolding delete_lifted
  lifted_left-IsRedBlack p k v nil path n h b hs rest = absurd (omega arith)
  lifted_left-IsRedBlack p k v (node red sl sk sv sr) path n h b hs rest =
      absurd (ground (arith, b))
  lifted_left-IsRedBlack p k v (node black sl sk sv sr) path n h b hs rest =
      let (hl, hr) = children-IsColored sl sk sv sr n hs in
      delete_left-IsRedBlack none p red k v sl sk sv sr path n h hl hr rest
        (λ e. absurd (ground (arith, e)))

  lifted_right-IsRedBlack :
      (p : Tree K V) (s : Tree K V) (k : K) (v : V) (path : List (Crumb K V)) (n : ℕ)
      → IsColored p n
      → color_of s ≡ black
      → IsColored s (suc n)
      → IsContext path red (suc n)
      → IsInserted (delete_lifted p (right_of red s k v ∷ path))
  unfolding delete_lifted
  lifted_right-IsRedBlack p nil k v path n h b hs rest = absurd (omega arith)
  lifted_right-IsRedBlack p (node red sl sk sv sr) k v path n h b hs rest =
      absurd (ground (arith, b))
  lifted_right-IsRedBlack p (node black sl sk sv sr) k v path n h b hs rest =
      let (hl, hr) = children-IsColored sl sk sv sr n hs in
      delete_right-IsRedBlack none p red sl sk sv sr k v path n h hl hr rest
        (λ e. absurd (ground (arith, e)))

  delete_case-IsRedBlack :
      (p : Tree K V) (path : List (Crumb K V)) (n : ℕ)
      → IsColored p n
      → color_of p ≡ black
      → IsContext path black (suc n)
      → IsInserted (delete_case p path)
  unfolding delete_case lift_sibling
  delete_case-IsRedBlack p [] n h b context =
      (paint black p, refl, (color_of-paint_black p, (n, rw (paint_black-same p b) h)))
  delete_case-IsRedBlack p (left_of c k v nil ∷ path) n h b context =
      let (hs, rest) = left-IsContext c k v nil path (suc n) context in absurd (omega arith)
  delete_case-IsRedBlack p (right_of c nil k v ∷ path) n h b context =
      let (hs, rest) = right-IsContext c nil k v path (suc n) context in absurd (omega arith)
  delete_case-IsRedBlack p (left_of red k v (node red sl sk sv sr) ∷ path) n h b
        (b1, clash, hs, rest) =
      absurd (ground (arith, clash))
  delete_case-IsRedBlack p (right_of red (node red sl sk sv sr) k v ∷ path) n h b
        (b1, clash, hs, rest) =
      absurd (ground (arith, clash))
  delete_case-IsRedBlack p (left_of black k v (node red sl sk sv sr) ∷ path) n h b
        ((bl, br, hl, hr), rest) =
      lifted_left-IsRedBlack p k v sl (left_of black sk sv sr ∷ path) n h bl hl (hr, rest)
  delete_case-IsRedBlack p (right_of black (node red sl sk sv sr) k v ∷ path) n h b
        ((bl, br, hl, hr), rest) =
      lifted_right-IsRedBlack p sr k v (right_of black sl sk sv ∷ path) n h br hr (hl, rest)
  delete_case-IsRedBlack p (left_of red k v (node black sl sk sv sr) ∷ path) n h b
        (b1, b2, hs, rest) =
      let (hl, hr) = children-IsColored sl sk sv sr n hs in
      delete_left-IsRedBlack (delete_case (node red p k v (node red sl sk sv sr)) path) p red k v sl
        sk sv sr path n h hl hr rest (λ e. absurd (ground (arith, e)))
  delete_case-IsRedBlack p (right_of red (node black sl sk sv sr) k v ∷ path) n h b
        (b1, b2, hs, rest) =
      let (hl, hr) = children-IsColored sl sk sv sr n hs in
      delete_right-IsRedBlack (delete_case (node red (node red sl sk sv sr) k v p) path) p red sl sk
        sv sr k v path n h hl hr rest (λ e. absurd (ground (arith, e)))
  delete_case-IsRedBlack p (left_of black k v (node black sl sk sv sr) ∷ path) n h b (hs, rest) =
      let (hl, hr) = children-IsColored sl sk sv sr n hs in
      delete_left-IsRedBlack _ p black k v sl sk sv sr path n h hl hr rest (λ e bl br.
        delete_case-IsRedBlack (node black p k v (node red sl sk sv sr)) path (suc n)
          (n, refl, h, (bl, br, hl, hr)) refl rest)
  delete_case-IsRedBlack p (right_of black (node black sl sk sv sr) k v ∷ path) n h b (hs, rest) =
      let (hl, hr) = children-IsColored sl sk sv sr n hs in
      delete_right-IsRedBlack _ p black sl sk sv sr k v path n h hl hr rest (λ e bl br.
        delete_case-IsRedBlack (node black (node red sl sk sv sr) k v p) path (suc n)
          (n, refl, (bl, br, hl, hr), h) refl rest)

  -- A red-black tree, or one red node, or none.
  abbrev pub IsDeleted : Option (Tree K V) → Type (ℓ ⊔ κ)
  IsDeleted result =
      (t : Tree K V) × (result ≡ some t)
      × (IsRedBlack t ⊎ ((k : K) × (v : V) × (t ≡ node red nil k v nil)))

  IsInserted-IsDeleted : (result : Option (Tree K V)) → IsInserted result → IsDeleted result
  IsInserted-IsDeleted result (t, run, h) = (t, run, inl h)

  -- A tree without black nodes.
  flat-IsDeleted : (t : Tree K V) → IsColored t 0 → IsDeleted (some t)
  flat-IsDeleted nil h = (nil, refl, inl (refl, (0, refl)))
  flat-IsDeleted (node red nil k v nil) h = (_, refl, inr (k, v, refl))
  flat-IsDeleted (node red (node red a x y b) k v r) (clash, cr, hl, hr) =
      absurd (ground (arith, clash))
  flat-IsDeleted (node red (node black a x y b) k v r) (c1, c2, (m, e, h1, h2), hr) =
      absurd (omega arith)
  flat-IsDeleted (node red nil k v (node red a x y b)) (c1, clash, h1, h2) =
      absurd (ground (arith, clash))
  flat-IsDeleted (node red nil k v (node black a x y b)) (c1, c2, hl, (m, e, h1, h2)) =
      absurd (omega arith)
  flat-IsDeleted (node black l k v r) (m, e, h1, h2) = absurd (omega arith)

  -- The child hangs at its grandparent.
  take_place-IsRedBlack :
      (child : Tree K V) (crumb : Crumb K V) (path : List (Crumb K V)) (n : ℕ)
      → IsColored child n
      → IsContext (crumb ∷ path) black (suc n)
      → IsInserted (take_place black child (crumb ∷ path))
  unfolding take_place
  take_place-IsRedBlack child crumb path n h context = elim (is_red_iff (color_of child)) [
    | inl (e, c) ↦ rw e (
      _,
      refl,
      plug-IsRedBlack (crumb ∷ path) (paint black child) (suc n) (paint_black-IsColored child n h c)
          (rw (color_of-paint_black child) context),
    )
    | inr (e, c) ↦ rw e (delete_case-IsRedBlack child (crumb ∷ path) n h c context)
  ]

  take_place-IsDeleted :
      (c : Color) (child : Tree K V) (path : List (Crumb K V))
      → IsColored child 0
      → IsContext path c (level c 0)
      → (c ≡ red → color_of child ≡ black)
      → IsDeleted (take_place c child path)
  unfolding take_place
  take_place-IsDeleted red child [] h context below = flat-IsDeleted child h
  take_place-IsDeleted black child [] h context below = flat-IsDeleted child h
  take_place-IsDeleted red child (crumb ∷ path) h context below =
      let b = below refl in
      (
        _,
        refl,
        inl (
            plug-IsRedBlack (crumb ∷ path) child 0 h
              (rw b (IsContext-color red (crumb ∷ path) 0 context))),
      )
  take_place-IsDeleted black child (crumb ∷ path) h context below =
      IsInserted-IsDeleted _ (take_place-IsRedBlack child crumb path 0 h context)

  pub delete_one_child-IsDeleted :
      (c : Color) (l : Tree K V) (k : K) (v : V) (r : Tree K V) (path : List (Crumb K V)) (n : ℕ)
      → (is_nil l ≡ true) ⊎ (is_nil r ≡ true)
      → IsColored (node c l k v r) n
      → IsContext path c n
      → IsDeleted (delete_one_child (node c l k v r) path)
  unfolding delete_one_child
  delete_one_child-IsDeleted red nil k v r path n one (c1, c2, hl, hr) context =
      take_place-IsDeleted red r path (rw (sym hl) hr) (rw (sym hl) context) (λ e. c2)
  delete_one_child-IsDeleted black nil k v r path n one (m, e, hl, hr) context =
      take_place-IsDeleted black r path (rw (sym hl) hr)
        (let high : 1 ≡ n = omega arith in rw high context) (λ e. absurd (ground (arith, e)))
  delete_one_child-IsDeleted c (node d a x y b) k v (node d' a' x' y' b') path n one h context =
      absurd (ground (arith, one))
  delete_one_child-IsDeleted red (node d a x y b) k v nil path n one (c1, c2, hl, hr) context =
      take_place-IsDeleted red (node d a x y b) path (rw (sym hr) hl) (rw (sym hr) context)
        (λ e. c1)
  delete_one_child-IsDeleted black (node d a x y b) k v nil path n one (m, e, hl, hr) context =
      take_place-IsDeleted black (node d a x y b) path (rw (sym hr) hl)
        (let high : 1 ≡ n = omega arith in rw high context) (λ e. absurd (ground (arith, e)))
