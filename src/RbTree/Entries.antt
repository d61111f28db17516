-- ===== src/RbTree/Entries.antt =====
-- The entries of a tree in the order of the keys, and what an insertion does to them.
use elephants.Base.{
  ◌≡◌, refl, sym, ◌∙◌, subst, Bool, true, false, not, Option, none, some, List, [], ◌∷◌, ◌++◌,
  append-nil, append_assoc, Bool-cases, inl, inr, if◌then◌else◌,
}
use elephants.RbTree.{
  Order, Color, red, black, is_red, Tree, nil, node, Crumb, left_of, right_of, color_of, paint,
  fill, plug, parent_color, paint_parent, sibling, paint_sibling, rotate_left, rotate_right,
  rebalance, plugged, insert_case, insert_at, insert,
}
use elephants.RbTree.Colored.{IsRedBlack, insert-IsRedBlack}
use elephants.RbTree.Sorted.{
  put, IsSorted, IsSorted-split, AreBelow-trans, AreBelow-equal, put-less, put-below, put-equal,
  put-greater, put-IsSorted,
}

module _ {ℓ κ} {K : Type ℓ} {V : Type κ} where
  abbrev pub entries : Tree K V → List (K × V)
  entries nil = []
  entries (node c l k v r) = entries l ++ (k, v) ∷ entries r

  -- The entries to the left and to the right of the end of a path.
  abbrev pub before : List (Crumb K V) → List (K × V)
  before [] = []
  before (left_of c k v r ∷ path) = before path
  before (right_of c l k v ∷ path) = before path ++ (entries l ++ (k, v) ∷ [])

  abbrev pub after : List (Crumb K V) → List (K × V)
  after [] = []
  after (left_of c k v r ∷ path) = (k, v) ∷ (entries r ++ after path)
  after (right_of c l k v ∷ path) = after path

  pub entries-plug :
      (path : List (Crumb K V)) (t : Tree K V)
      → entries (plug path t) ≡ before path ++ (entries t ++ after path)
  entries-plug [] t = sym (append-nil (entries t))
  entries-plug (left_of c k v r ∷ path) t = rw (entries-plug path (node c t k v r), append_assoc)
  entries-plug (right_of c l k v ∷ path) t =
      rw (entries-plug path (node c l k v t), append_assoc, append_assoc, append_assoc)

  pub entries-paint : (c : Color) (t : Tree K V) → entries (paint c t) ≡ entries t
  entries-paint c nil = refl
  entries-paint c (node old l k v r) = refl

  -- The result, if there is one, has these entries.
  abbrev pub Has : List (K × V) → Option (Tree K V) → Type (ℓ ⊔ κ)
  Has es none = Unit
  Has es (some t) = entries t ≡ es

  pub either-Has :
      (es : List (K × V)) (m : Bool) (a b : Option (Tree K V))
      → Has es a
      → Has es b
      → Has es (if m then a else b)
  either-Has es true a b h k = h
  either-Has es false a b h k = k

  pub same-Has :
      (es more : List (K × V)) (a : Option (Tree K V)) → es ≡ more → Has es a → Has more a
  same-Has es more none e h = tt
  same-Has es more (some t) e h = h ∙ e

  pub Has-some :
      (es : List (K × V)) (a : Option (Tree K V)) (t : Tree K V)
      → Has es a
      → a ≡ some t
      → entries t ≡ es
  Has-some es a t h run = subst (Has es) run h

  pub entries-plug_same :
      (path : List (Crumb K V)) (a b : Tree K V)
      → entries a ≡ entries b
      → entries (plug path a) ≡ entries (plug path b)
  entries-plug_same path a b e = rw (entries-plug path a, entries-plug path b, e)

  recolored :
      (parent grandparent : Crumb K V) (p : Tree K V)
      → entries
          (paint red (fill (paint_sibling black grandparent) (fill (paint_parent black parent) p)))
        ≡ entries (fill grandparent (fill parent p))
  recolored (left_of c k v r) (left_of gc gk gv gr) p = rw (entries-paint black gr)
  recolored (left_of c k v r) (right_of gc gl gk gv) p = rw (entries-paint black gl)
  recolored (right_of c l k v) (left_of gc gk gv gr) p = rw (entries-paint black gr)
  recolored (right_of c l k v) (right_of gc gl gk gv) p = rw (entries-paint black gl)

  rebalance-Has :
      (p : Tree K V) (parent grandparent : Crumb K V) (path : List (Crumb K V))
      → Has
          (entries (plug (parent ∷ grandparent ∷ path) p))
          (plugged (rebalance p parent grandparent path))
  unfolding rebalance rotate_left rotate_right
  rebalance-Has nil (left_of c k v r) (right_of gc gl gk gv) path = tt
  rebalance-Has nil (right_of c l k v) (left_of gc gk gv gr) path = tt
  rebalance-Has p (left_of c k v r) (left_of gc gk gv gr) path =
      entries-plug_same path _ _ (simp (append_assoc, entries-paint))
  rebalance-Has (node pc pl pk pv pr) (left_of c k v r) (right_of gc gl gk gv) path =
      entries-plug_same path _ _ (simp (append_assoc, entries-paint))
  rebalance-Has (node pc pl pk pv pr) (right_of c l k v) (left_of gc gk gv gr) path =
      entries-plug_same path _ _ (simp (append_assoc, entries-paint))
  rebalance-Has p (right_of c l k v) (right_of gc gl gk gv) path =
      entries-plug_same path _ _ (simp (append_assoc, entries-paint))

  insert_case-Has :
      (p : Tree K V) (path : List (Crumb K V)) → Has (entries (plug path p)) (insert_case p path)
  unfolding insert_case
  insert_case-Has p [] = entries-paint black p
  insert_case-Has p (parent ∷ []) =
      either-Has (entries (plug (parent ∷ []) p)) (is_red (parent_color parent)) none
        (some (plug (parent ∷ []) p)) tt refl
  insert_case-Has p (parent ∷ grandparent ∷ path) =
      let es = entries (plug (parent ∷ grandparent ∷ path) p) in
      let up =
        paint red (fill (paint_sibling black grandparent) (fill (paint_parent black parent) p)) in
      let higher = insert_case up path in
      let turned = plugged (rebalance p parent grandparent path) in
      either-Has es (not (is_red (parent_color parent)))
        (some (plug (parent ∷ grandparent ∷ path) p))
        (if is_red (color_of (sibling grandparent)) then higher else turned) refl
        (either-Has es (is_red (color_of (sibling grandparent))) higher turned
          (same-Has (entries (plug path up)) es higher
            (entries-plug_same path up (fill grandparent (fill parent p))
              (recolored parent grandparent p))
            (insert_case-Has up path))
          (rebalance-Has p parent grandparent path))

module _ {ℓ κ} {K : Type ℓ} {V : Type κ} ⦃o : Order K⦄ where
  insert_at-Has :
      (t : Tree K V) (path : List (Crumb K V)) (x : K) (y : V)
      → IsSorted (entries t)
      → Has (before path ++ (put x y (entries t) ++ after path)) (insert_at t path x y)
  unfolding insert_at
  insert_at-Has nil path x y h =
      same-Has _ _ (insert_case (node red nil x y nil) path)
        (entries-plug path (node red nil x y nil)) (insert_case-Has (node red nil x y nil) path)
  insert_at-Has (node c l k v r) path x y h =
      let (hl, below, hr) = IsSorted-split (entries l) k v (entries r) h in
      elim (Bool-cases (o.lt x k)) [
        | inl e ↦
            rw (e, put-less x y (entries l) k v (entries r) e)
              (same-Has _ _ (insert_at l (left_of c k v r ∷ path) x y) (simp (append_assoc))
                (insert_at-Has l (left_of c k v r ∷ path) x y hl))
        | inr e ↦ elim (Bool-cases (o.lt k x)) [
          | inl f ↦
              rw
                (
                  e,
                  f,
                  put-below x y (entries l) ((k, v) ∷ entries r)
                      (AreBelow-trans k x (entries l) below f),
                  put-greater x k y v (entries r) f,
                )
                (same-Has _ _ (insert_at r (right_of c l k v ∷ path) x y) (simp (append_assoc))
                  (insert_at-Has r (right_of c l k v ∷ path) x y hr))
          | inr f ↦
              rw
                (
                  e,
                  f,
                  put-below x y (entries l) ((k, v) ∷ entries r)
                      (AreBelow-equal x k (entries l) e f below),
                  put-equal x k y v (entries r) e f,
                )
                (entries-plug path (node c l k y r))
        ]
      ]

  -- Inserting into a red-black tree whose entries are in the order of their keys is insertion in
  -- the list of the entries: a new key gets its place, and an equal key is kept and gets the new
  -- value; the entries are in the order of their keys again.
  pub insert-entries :
      (t : Tree K V) (x : K) (y : V)
      → IsRedBlack t
      → IsSorted (entries t)
      → (after : Tree K V) × (insert t x y ≡ some after)
        × (entries after ≡ put x y (entries t))
        × IsSorted (entries after)
  unfolding insert
  insert-entries nil x y h sorted = (node black nil x y nil, refl, refl, put-IsSorted x y [] sorted)
  insert-entries (node c l k v r) x y h sorted =
      let es = entries (node c l k v r) in
      let (after, run, rb) = insert-IsRedBlack (node c l k v r) x y h in
      let has = insert_at-Has (node c l k v r) [] x y sorted in
      let same : entries after ≡ put x y es =
        Has-some (put x y es ++ []) (insert (node c l k v r) x y) after has run
        ∙ append-nil (put x y es) in
      (after, run, same, rw same (put-IsSorted x y es sorted))
