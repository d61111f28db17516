-- ===== src/RbTree/Colored.antt =====
-- The colours of a red-black tree, and insertions.
use elephants.Base.{
  ℕ, suc, ◌≡◌, ◌⊎◌, refl, sym, Bool, true, false, Option, some, List, [], ◌∷◌, arith, inl, inr,
  if◌then◌else◌,
}
use elephants.RbTree.{
  Order, Color, red, black, is_red, Tree, nil, node, Crumb, left_of, right_of, color_of, paint,
  plug, parent_color, sibling, rotate_left, rotate_right, rebalance, plugged, insert_case,
  insert_at, insert,
}

pub is_red_iff : (c : Color) → (is_red c ≡ true) × (c ≡ red) ⊎ (is_red c ≡ false) × (c ≡ black)
is_red_iff red = inl (refl, refl)
is_red_iff black = inr (refl, refl)

module _ {ℓ κ} {K : Type ℓ} {V : Type κ} where
  -- No red node has a red child, and each way down passes as many black nodes.
  abbrev pub IsColored : Tree K V → ℕ → Type 0
  IsColored nil n = n ≡ 0
  IsColored (node red l k v r) n =
      (color_of l ≡ black) × (color_of r ≡ black) × IsColored l n × IsColored r n
  IsColored (node black l k v r) n = (m : ℕ) × (n ≡ suc m) × IsColored l m × IsColored r m

  -- A tree of a height and a colour fits at the end of the path.
  abbrev pub IsContext : List (Crumb K V) → Color → ℕ → Type 0
  IsContext [] c n = c ≡ black
  IsContext (left_of red k v r ∷ path) c n =
      (c ≡ black) × (color_of r ≡ black) × IsColored r n × IsContext path red n
  IsContext (left_of black k v r ∷ path) c n = IsColored r n × IsContext path black (suc n)
  IsContext (right_of red l k v ∷ path) c n =
      (c ≡ black) × (color_of l ≡ black) × IsColored l n × IsContext path red n
  IsContext (right_of black l k v ∷ path) c n = IsColored l n × IsContext path black (suc n)

  -- A red-black tree: its root is black, too.
  abbrev pub IsRedBlack : Tree K V → Type 0
  IsRedBlack t = (color_of t ≡ black) × ((n : ℕ) × IsColored t n)

  pub plug-IsRedBlack :
      (path : List (Crumb K V)) (t : Tree K V) (n : ℕ)
      → IsColored t n
      → IsContext path (color_of t) n
      → IsRedBlack (plug path t)
  plug-IsRedBlack [] t n h c = (c, (n, h))
  plug-IsRedBlack (left_of red k v r ∷ path) t n h (c, cr, hr, rest) =
      plug-IsRedBlack path (node red t k v r) n (c, cr, h, hr) rest
  plug-IsRedBlack (left_of black k v r ∷ path) t n h (hr, rest) =
      plug-IsRedBlack path (node black t k v r) (suc n) (n, refl, h, hr) rest
  plug-IsRedBlack (right_of red l k v ∷ path) t n h (c, cl, hl, rest) =
      plug-IsRedBlack path (node red l k v t) n (cl, c, hl, h) rest
  plug-IsRedBlack (right_of black l k v ∷ path) t n h (hl, rest) =
      plug-IsRedBlack path (node black l k v t) (suc n) (n, refl, hl, h) rest

  -- What `insert_case` gives.
  abbrev pub IsInserted : Option (Tree K V) → Type (ℓ ⊔ κ)
  IsInserted result = (t : Tree K V) × (result ≡ some t) × IsRedBlack t

  pub either-IsInserted :
      (m : Bool) (a b : Option (Tree K V))
      → IsInserted a
      → IsInserted b
      → IsInserted (if m then a else b)
  either-IsInserted true a b h k = h
  either-IsInserted false a b h k = k

  -- The black uncle's cases, by the sides of `p` and its parent; each makes a black node with red
  -- children in the place of the grandparent.
  rebalance-IsRedBlack :
      (p : Tree K V) (parent grandparent : Crumb K V) (path : List (Crumb K V)) (n : ℕ)
      → IsColored p n
      → color_of p ≡ red
      → color_of (sibling grandparent) ≡ black
      → IsContext (parent ∷ grandparent ∷ path) black n
      → parent_color parent ≡ red
      → IsInserted (plugged (rebalance p parent grandparent path))
  unfolding rebalance rotate_left rotate_right
  rebalance-IsRedBlack nil parent grandparent path n h c u context pc = absurd (ground (arith, c))
  rebalance-IsRedBlack (node black l k v r) parent grandparent path n h c u context pc =
      absurd (ground (arith, c))
  rebalance-IsRedBlack p (left_of black pk pv pr) grandparent path n h c u context pc =
      absurd (ground (arith, pc))
  rebalance-IsRedBlack p (right_of black pl pk pv) grandparent path n h c u context pc =
      absurd (ground (arith, pc))
  rebalance-IsRedBlack p (left_of red pk pv pr) (left_of red gk gv gr) path n h c u
        (b, cs, hs, (clash, u1, u2, rest)) pc =
      absurd (ground (arith, clash))
  rebalance-IsRedBlack p (left_of red pk pv pr) (right_of red gl gk gv) path n h c u
        (b, cs, hs, (clash, u1, u2, rest)) pc =
      absurd (ground (arith, clash))
  rebalance-IsRedBlack p (right_of red pl pk pv) (left_of red gk gv gr) path n h c u
        (b, cs, hs, (clash, u1, u2, rest)) pc =
      absurd (ground (arith, clash))
  rebalance-IsRedBlack p (right_of red pl pk pv) (right_of red gl gk gv) path n h c u
        (b, cs, hs, (clash, u1, u2, rest)) pc =
      absurd (ground (arith, clash))
  rebalance-IsRedBlack (node red l k v r) (left_of red pk pv pr) (left_of black gk gv gr) path n h c
        u (b, cr, hr, (hg, context)) pc =
      (_, refl, plug-IsRedBlack path _ (suc n) (n, refl, h, (cr, u, hr, hg)) context)
  rebalance-IsRedBlack (node red l k v r) (right_of red pl pk pv) (right_of black gl gk gv) path n h
        c u (b, cl, hl, (hg, context)) pc =
      (_, refl, plug-IsRedBlack path _ (suc n) (n, refl, (u, cl, hg, hl), h) context)
  rebalance-IsRedBlack (node red l k v r) (right_of red pl pk pv) (left_of black gk gv gr) path n
        (c1, c2, h1, h2) c u (b, cl, hl, (hg, context)) pc =
      (_, refl, plug-IsRedBlack path _ (suc n) (n, refl, (cl, c1, hl, h1), (c2, u, h2, hg)) context)
  rebalance-IsRedBlack (node red l k v r) (left_of red pk pv pr) (right_of black gl gk gv) path n
        (c1, c2, h1, h2) c u (b, cr, hr, (hg, context)) pc =
      (_, refl, plug-IsRedBlack path _ (suc n) (n, refl, (u, c1, hg, h1), (c2, cr, h2, hr)) context)

  pub paint_black-IsColored :
      (t : Tree K V) (n : ℕ) → IsColored t n → color_of t ≡ red → IsColored (paint black t) (suc n)
  paint_black-IsColored nil n h c = absurd (ground (arith, c))
  paint_black-IsColored (node black l k v r) n h c = absurd (ground (arith, c))
  paint_black-IsColored (node red l k v r) n (cl, cr, hl, hr) c = (n, refl, hl, hr)

  pub color_of-paint_black : (t : Tree K V) → color_of (paint black t) ≡ black
  color_of-paint_black nil = refl
  color_of-paint_black (node c l k v r) = refl

  insert_case-IsRedBlack :
      (p : Tree K V) (path : List (Crumb K V)) (n : ℕ)
      → IsColored p n
      → color_of p ≡ red
      → IsContext path black n
      → IsInserted (insert_case p path)
  unfolding insert_case
  insert_case-IsRedBlack p [] n h c context =
      (paint black p, refl, (color_of-paint_black p, (suc n, paint_black-IsColored p n h c)))
  insert_case-IsRedBlack p (left_of red pk pv pr ∷ []) n h c (b, cr, hr, clash) =
      absurd (ground (arith, clash))
  insert_case-IsRedBlack p (right_of red pl pk pv ∷ []) n h c (b, cl, hl, clash) =
      absurd (ground (arith, clash))
  insert_case-IsRedBlack p (left_of black pk pv pr ∷ []) n h c context =
      (_, refl, plug-IsRedBlack (left_of black pk pv pr ∷ []) p n h context)
  insert_case-IsRedBlack p (right_of black pl pk pv ∷ []) n h c context =
      (_, refl, plug-IsRedBlack (right_of black pl pk pv ∷ []) p n h context)
  insert_case-IsRedBlack p (left_of black pk pv pr ∷ g ∷ path) n h c context =
      (_, refl, plug-IsRedBlack (left_of black pk pv pr ∷ g ∷ path) p n h context)
  insert_case-IsRedBlack p (right_of black pl pk pv ∷ g ∷ path) n h c context =
      (_, refl, plug-IsRedBlack (right_of black pl pk pv ∷ g ∷ path) p n h context)
  insert_case-IsRedBlack p (left_of red pk pv pr ∷ left_of red gk gv gr ∷ path) n h c
        (b, cs, hs, (clash, u1, u2, rest)) =
      absurd (ground (arith, clash))
  insert_case-IsRedBlack p (left_of red pk pv pr ∷ right_of red gl gk gv ∷ path) n h c
        (b, cs, hs, (clash, u1, u2, rest)) =
      absurd (ground (arith, clash))
  insert_case-IsRedBlack p (right_of red pl pk pv ∷ left_of red gk gv gr ∷ path) n h c
        (b, cs, hs, (clash, u1, u2, rest)) =
      absurd (ground (arith, clash))
  insert_case-IsRedBlack p (right_of red pl pk pv ∷ right_of red gl gk gv ∷ path) n h c
        (b, cs, hs, (clash, u1, u2, rest)) =
      absurd (ground (arith, clash))
  insert_case-IsRedBlack p (left_of red pk pv pr ∷ left_of black gk gv gr ∷ path) n h c
        (b, cs, hs, (hu, context)) =
      elim (is_red_iff (color_of gr)) [
        | inl (e, cu) ↦
            let (t, run, rb) =
              insert_case-IsRedBlack (node red (node black p pk pv pr) gk gv (paint black gr)) path
                (suc n)
                (refl, color_of-paint_black gr, (n, refl, h, hs), paint_black-IsColored gr n hu cu)
                refl context in
            (t, rw (insert_case, e) run, rb)
        | inr (e, cu) ↦
            let (t, run, rb) =
              rebalance-IsRedBlack p (left_of red pk pv pr) (left_of black gk gv gr) path n h c cu
                (b, cs, hs, (hu, context)) refl in
            (t, rw (insert_case, e) run, rb)
      ]
  insert_case-IsRedBlack p (left_of red pk pv pr ∷ right_of black gl gk gv ∷ path) n h c
        (b, cs, hs, (hu, context)) =
      elim (is_red_iff (color_of gl)) [
        | inl (e, cu) ↦
            let (t, run, rb) =
              insert_case-IsRedBlack (node red (paint black gl) gk gv (node black p pk pv pr)) path
                (suc n)
                (color_of-paint_black gl, refl, paint_black-IsColored gl n hu cu, (n, refl, h, hs))
                refl context in
            (t, rw (insert_case, e) run, rb)
        | inr (e, cu) ↦
            let (t, run, rb) =
              rebalance-IsRedBlack p (left_of red pk pv pr) (right_of black gl gk gv) path n h c cu
                (b, cs, hs, (hu, context)) refl in
            (t, rw (insert_case, e) run, rb)
      ]
  insert_case-IsRedBlack p (right_of red pl pk pv ∷ left_of black gk gv gr ∷ path) n h c
        (b, cs, hs, (hu, context)) =
      elim (is_red_iff (color_of gr)) [
        | inl (e, cu) ↦
            let (t, run, rb) =
              insert_case-IsRedBlack (node red (node black pl pk pv p) gk gv (paint black gr)) path
                (suc n)
                (refl, color_of-paint_black gr, (n, refl, hs, h), paint_black-IsColored gr n hu cu)
                refl context in
            (t, rw (insert_case, e) run, rb)
        | inr (e, cu) ↦
            let (t, run, rb) =
              rebalance-IsRedBlack p (right_of red pl pk pv) (left_of black gk gv gr) path n h c cu
                (b, cs, hs, (hu, context)) refl in
            (t, rw (insert_case, e) run, rb)
      ]
  insert_case-IsRedBlack p (right_of red pl pk pv ∷ right_of black gl gk gv ∷ path) n h c
        (b, cs, hs, (hu, context)) =
      elim (is_red_iff (color_of gl)) [
        | inl (e, cu) ↦
            let (t, run, rb) =
              insert_case-IsRedBlack (node red (paint black gl) gk gv (node black pl pk pv p)) path
                (suc n)
                (color_of-paint_black gl, refl, paint_black-IsColored gl n hu cu, (n, refl, hs, h))
                refl context in
            (t, rw (insert_case, e) run, rb)
        | inr (e, cu) ↦
            let (t, run, rb) =
              rebalance-IsRedBlack p (right_of red pl pk pv) (right_of black gl gk gv) path n h c cu
                (b, cs, hs, (hu, context)) refl in
            (t, rw (insert_case, e) run, rb)
      ]

module _ {ℓ κ} {K : Type ℓ} {V : Type κ} ⦃o : Order K⦄ where
  insert_at-IsRedBlack :
      (t : Tree K V) (path : List (Crumb K V)) (n : ℕ) (x : K) (y : V)
      → IsColored t n
      → IsContext path (color_of t) n
      → IsInserted (insert_at t path x y)
  unfolding insert_at
  insert_at-IsRedBlack nil path n x y h context =
      insert_case-IsRedBlack (node red nil x y nil) path n (refl, refl, h, h) refl context
  insert_at-IsRedBlack (node red l k v r) path n x y (cl, cr, hl, hr) context =
      either-IsInserted (o.lt x k) (insert_at l (left_of red k v r ∷ path) x y) _
        (insert_at-IsRedBlack l (left_of red k v r ∷ path) n x y hl (cl, cr, hr, context))
        (either-IsInserted (o.lt k x) (insert_at r (right_of red l k v ∷ path) x y) _
          (insert_at-IsRedBlack r (right_of red l k v ∷ path) n x y hr (cr, cl, hl, context))
          (_, refl, plug-IsRedBlack path (node red l k y r) n (cl, cr, hl, hr) context))
  insert_at-IsRedBlack (node black l k v r) path n x y (m, e, hl, hr) context =
      let above : IsContext path black (suc m) = rw (sym e) context in
      either-IsInserted (o.lt x k) (insert_at l (left_of black k v r ∷ path) x y) _
        (insert_at-IsRedBlack l (left_of black k v r ∷ path) m x y hl (hr, above))
        (either-IsInserted (o.lt k x) (insert_at r (right_of black l k v ∷ path) x y) _
          (insert_at-IsRedBlack r (right_of black l k v ∷ path) m x y hr (hl, above))
          (_, refl, plug-IsRedBlack path (node black l k y r) (suc m) (m, refl, hl, hr) above))

  -- Inserting into a red-black tree dereferences no null pointer, and the tree is red-black again:
  -- its root is black, no red node has a red child, and all ways down pass as many black nodes.
  pub insert-IsRedBlack : (t : Tree K V) (x : K) (y : V) → IsRedBlack t → IsInserted (insert t x y)
  unfolding insert
  insert-IsRedBlack nil x y h = (node black nil x y nil, refl, (refl, (1, (0, refl, refl, refl))))
  insert-IsRedBlack (node c l k v r) x y (b, (n, h)) =
      insert_at-IsRedBlack (node c l k v r) [] n x y h b
