-- ===== src/RbTree/Delete/Colored.antt =====
-- Deletions from a red-black tree.
use elephants.Base.{
  ℕ, suc, ◌≡◌, refl, Bool, true, false, ◌&&◌, not, Option, List, [], ◌∷◌, arith, inl, inr,
  if◌then◌else◌,
}
use elephants.RbTree.{
  Color, red, black, is_red, Tree, nil, node, Crumb, left_of, right_of, color_of, paint,
  rotate_left, rotate_right,
}
use elephants.RbTree.Colored.{
  IsColored, IsContext, IsInserted, plug-IsRedBlack, is_red_iff, paint_black-IsColored,
  color_of-paint_black,
}
use elephants.RbTree.Delete.{turn_sibling, raise_sibling, delete_black}

-- The height of a node of a colour above its children's.
abbrev pub level : Color → ℕ → ℕ
level red n = n
level black n = suc n

module _ {ℓ κ} {K : Type ℓ} {V : Type κ} where
  -- A black tree fits where a red one does.
  IsContext-black :
      (path : List (Crumb K V)) (n : ℕ) → IsContext path red n → IsContext path black n
  IsContext-black [] n h = refl
  IsContext-black (left_of red k v r ∷ path) n (c, cs, hs, rest) = (refl, cs, hs, rest)
  IsContext-black (left_of black k v r ∷ path) n h = h
  IsContext-black (right_of red l k v ∷ path) n (c, cs, hs, rest) = (refl, cs, hs, rest)
  IsContext-black (right_of black l k v ∷ path) n h = h

  pub IsContext-color :
      (c : Color) (path : List (Crumb K V)) (n : ℕ) → IsContext path c n → IsContext path black n
  IsContext-color red path n h = IsContext-black path n h
  IsContext-color black path n h = h

  node-IsColored :
      (c : Color) (l : Tree K V) (k : K) (v : V) (r : Tree K V) (n : ℕ)
      → color_of l ≡ black
      → color_of r ≡ black
      → IsColored l n
      → IsColored r n
      → IsColored (node c l k v r) (level c n)
  node-IsColored red l k v r n bl br hl hr = (bl, br, hl, hr)
  node-IsColored black l k v r n bl br hl hr = (n, refl, hl, hr)

  pub children-IsColored :
      (l : Tree K V) (k : K) (v : V) (r : Tree K V) (n : ℕ)
      → IsColored (node black l k v r) (suc n)
      → IsColored l n × IsColored r n
  children-IsColored l k v r n (m, e, hl, hr) =
      let same : n ≡ m = omega arith in (rw same hl, rw same hr)

  pub left-IsContext :
      (c : Color) (k : K) (v : V) (s : Tree K V) (path : List (Crumb K V)) (n : ℕ)
      → IsContext (left_of c k v s ∷ path) black n
      → IsColored s n × IsContext path c (level c n)
  left-IsContext red k v s path n (b, bs, hs, rest) = (hs, rest)
  left-IsContext black k v s path n h = h

  pub right-IsContext :
      (c : Color) (s : Tree K V) (k : K) (v : V) (path : List (Crumb K V)) (n : ℕ)
      → IsContext (right_of c s k v ∷ path) black n
      → IsColored s n × IsContext path c (level c n)
  right-IsContext red s k v path n (b, bs, hs, rest) = (hs, rest)
  right-IsContext black s k v path n h = h

  raise_left-IsRedBlack :
      (p : Tree K V) (c : Color) (k : K) (v : V) (sl : Tree K V) (sk : K) (sv : V) (sr : Tree K V)
      (path : List (Crumb K V)) (n : ℕ)
      → IsColored p n
      → color_of sr ≡ red
      → IsColored sl n
      → IsColored sr n
      → IsContext path c (level c (suc n))
      → IsInserted (raise_sibling p (left_of c k v (node black sl sk sv sr)) path)
  unfolding raise_sibling rotate_left
  raise_left-IsRedBlack p c k v sl sk sv sr path n h e hl hr rest = (
    _,
    refl,
    plug-IsRedBlack path _ (level c (suc n))
        (node-IsColored c (node black p k v sl) sk sv (paint black sr) (suc n) refl
          (color_of-paint_black sr) (n, refl, h, hl) (paint_black-IsColored sr n hr e))
        rest,
  )

  raise_right-IsRedBlack :
      (p : Tree K V) (c : Color) (sl : Tree K V) (sk : K) (sv : V) (sr : Tree K V) (k : K) (v : V)
      (path : List (Crumb K V)) (n : ℕ)
      → IsColored p n
      → color_of sl ≡ red
      → IsColored sl n
      → IsColored sr n
      → IsContext path c (level c (suc n))
      → IsInserted (raise_sibling p (right_of c (node black sl sk sv sr) k v) path)
  unfolding raise_sibling rotate_right
  raise_right-IsRedBlack p c sl sk sv sr k v path n h e hl hr rest = (
    _,
    refl,
    plug-IsRedBlack path _ (level c (suc n))
        (node-IsColored c (paint black sl) sk sv (node black sr k v p) (suc n)
          (color_of-paint_black sl) refl (paint_black-IsColored sl n hl e) (n, refl, hr, h))
        rest,
  )

  -- A black sibling with two black children.
  bare_left-IsRedBlack :
      (higher : Option (Tree K V)) (p : Tree K V) (c : Color) (k : K) (v : V) (sl : Tree K V)
      (sk : K) (sv : V) (sr : Tree K V) (path : List (Crumb K V)) (n : ℕ)
      → color_of sl ≡ black
      → color_of sr ≡ black
      → IsColored p n
      → IsColored sl n
      → IsColored sr n
      → IsContext path c (level c (suc n))
      → (c ≡ black → color_of sl ≡ black → color_of sr ≡ black → IsInserted higher)
      → IsInserted (delete_black higher p (left_of c k v (node black sl sk sv sr)) path)
  unfolding delete_black
  bare_left-IsRedBlack higher p black k v sl sk sv sr path n bl br h hl hr rest up =
      rw (bl, br) (up refl bl br)
  bare_left-IsRedBlack higher p red k v sl sk sv sr path n bl br h hl hr rest up =
      rw (bl, br)
        (
          _,
          refl,
          plug-IsRedBlack path (node black p k v (node red sl sk sv sr)) (suc n)
              (n, refl, h, (bl, br, hl, hr)) (IsContext-black path (suc n) rest),
        )

  bare_right-IsRedBlack :
      (higher : Option (Tree K V)) (p : Tree K V) (c : Color) (sl : Tree K V) (sk : K) (sv : V)
      (sr : Tree K V) (k : K) (v : V) (path : List (Crumb K V)) (n : ℕ)
      → color_of sl ≡ black
      → color_of sr ≡ black
      → IsColored p n
      → IsColored sl n
      → IsColored sr n
      → IsContext path c (level c (suc n))
      → (c ≡ black → color_of sl ≡ black → color_of sr ≡ black → IsInserted higher)
      → IsInserted (delete_black higher p (right_of c (node black sl sk sv sr) k v) path)
  unfolding delete_black
  bare_right-IsRedBlack higher p black sl sk sv sr k v path n bl br h hl hr rest up =
      rw (bl, br) (up refl bl br)
  bare_right-IsRedBlack higher p red sl sk sv sr k v path n bl br h hl hr rest up =
      rw (bl, br)
        (
          _,
          refl,
          plug-IsRedBlack path (node black (node red sl sk sv sr) k v p) (suc n)
              (n, refl, (bl, br, hl, hr), h) (IsContext-black path (suc n) rest),
        )

  -- A sibling with a red child is neither painted red nor left to the parent's call.
  neither-IsInserted :
      (m : Bool) (a b d : Option (Tree K V))
      → IsInserted d
      → IsInserted (if not m && false then a else if m && false then b else d)
  neither-IsInserted true a b d h = h
  neither-IsInserted false a b d h = h

  pub delete_left-IsRedBlack :
      (higher : Option (Tree K V)) (p : Tree K V) (c : Color) (k : K) (v : V) (sl : Tree K V)
      (sk : K) (sv : V) (sr : Tree K V) (path : List (Crumb K V)) (n : ℕ)
      → IsColored p n
      → IsColored sl n
      → IsColored sr n
      → IsContext path c (level c (suc n))
      → (c ≡ black → color_of sl ≡ black → color_of sr ≡ black → IsInserted higher)
      → IsInserted (delete_black higher p (left_of c k v (node black sl sk sv sr)) path)
  unfolding delete_black turn_sibling
  delete_left-IsRedBlack higher p c k v nil sk sv sr path n h hl hr rest up =
      elim (is_red_iff (color_of sr)) [
        | inl (e, cr) ↦ rw e (
            neither-IsInserted (is_red c) higher _ _
              (raise_left-IsRedBlack p c k v nil sk sv sr path n h cr hl hr rest))
        | inr (e, cr) ↦
            bare_left-IsRedBlack higher p c k v nil sk sv sr path n refl cr h hl hr rest up
      ]
  delete_left-IsRedBlack higher p c k v (node black ll lk lv lr) sk sv sr path n h hl hr rest up =
      elim (is_red_iff (color_of sr)) [
        | inl (e, cr) ↦ rw e (
            neither-IsInserted (is_red c) higher _ _ (
              raise_left-IsRedBlack p c k v (node black ll lk lv lr) sk sv sr path n h cr hl hr
                rest))
        | inr (e, cr) ↦
            bare_left-IsRedBlack higher p c k v (node black ll lk lv lr) sk sv sr path n refl cr h
              hl hr rest up
      ]
  delete_left-IsRedBlack higher p c k v (node red ll lk lv lr) sk sv sr path n h (c1, c2, h1, h2) hr
        rest up =
      elim (is_red_iff (color_of sr)) [
        | inl (e, cr) ↦ rw e (
            neither-IsInserted (is_red c) higher _ _ (
              raise_left-IsRedBlack p c k v (node red ll lk lv lr) sk sv sr path n h cr
                (c1, c2, h1, h2) hr rest))
        | inr (e, cr) ↦ rw e (
            neither-IsInserted (is_red c) higher _ _ (
              raise_left-IsRedBlack p c k v ll lk lv (node red lr sk sv sr) path n h refl h1
                (c2, cr, h2, hr) rest))
      ]

  pub delete_right-IsRedBlack :
      (higher : Option (Tree K V)) (p : Tree K V) (c : Color) (sl : Tree K V) (sk : K) (sv : V)
      (sr : Tree K V) (k : K) (v : V) (path : List (Crumb K V)) (n : ℕ)
      → IsColored p n
      → IsColored sl n
      → IsColored sr n
      → IsContext path c (level c (suc n))
      → (c ≡ black → color_of sl ≡ black → color_of sr ≡ black → IsInserted higher)
      → IsInserted (delete_black higher p (right_of c (node black sl sk sv sr) k v) path)
  unfolding delete_black turn_sibling
  delete_right-IsRedBlack higher p c sl sk sv nil k v path n h hl hr rest up =
      elim (is_red_iff (color_of sl)) [
        | inl (e, cr) ↦ rw e (
            neither-IsInserted (is_red c) higher _ _
              (raise_right-IsRedBlack p c sl sk sv nil k v path n h cr hl hr rest))
        | inr (e, cr) ↦
            bare_right-IsRedBlack higher p c sl sk sv nil k v path n cr refl h hl hr rest up
      ]
  delete_right-IsRedBlack higher p c sl sk sv (node black ll lk lv lr) k v path n h hl hr rest up =
      elim (is_red_iff (color_of sl)) [
        | inl (e, cr) ↦ rw e (
            neither-IsInserted (is_red c) higher _ _ (
              raise_right-IsRedBlack p c sl sk sv (node black ll lk lv lr) k v path n h cr hl hr
                rest))
        | inr (e, cr) ↦
            bare_right-IsRedBlack higher p c sl sk sv (node black ll lk lv lr) k v path n cr refl h
              hl hr rest up
      ]
  delete_right-IsRedBlack higher p c sl sk sv (node red ll lk lv lr) k v path n h hl
        (c1, c2, h1, h2) rest up =
      elim (is_red_iff (color_of sl)) [
        | inl (e, cr) ↦ rw e (
            neither-IsInserted (is_red c) higher _ _ (
              raise_right-IsRedBlack p c sl sk sv (node red ll lk lv lr) k v path n h cr hl
                (c1, c2, h1, h2) rest))
        | inr (e, cr) ↦ rw e (
            neither-IsInserted (is_red c) higher _ _ (
              raise_right-IsRedBlack p c (node red sl sk sv ll) lk lv lr k v path n h refl
                (cr, c1, hl, h1) h2 rest))
      ]
