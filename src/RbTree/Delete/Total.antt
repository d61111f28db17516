-- ===== src/RbTree/Delete/Total.antt =====
-- The deletion of a key, from the search on, and the colours of its result.
use elephants.Base.{
  ℕ, suc, ◌≡◌, ◌⊎◌, refl, sym, Bool, true, false, Option, some, List, [], ◌∷◌, ◌++◌, arith, inl,
  inr, if◌then◌else◌,
}
use elephants.RbTree.{
  Order, Color, red, black, Tree, nil, node, Crumb, left_of, right_of, color_of, plug,
}
use elephants.RbTree.Colored.{IsColored, IsContext, IsRedBlack, plug-IsRedBlack}
use elephants.RbTree.Delete.{
  is_nil, delete_one_child, get_smallest_child, delete_smallest, delete_child, delete_value,
  deleted,
}
use elephants.RbTree.Delete.RedBlack.{IsDeleted, delete_one_child-IsDeleted}

module _ {ℓ κ} {K : Type ℓ} {V : Type κ} where
  -- The place of the smallest child below a path.
  get_smallest_child-IsPlace :
      (c : Color) (l : Tree K V) (k : K) (v : V) (r : Tree K V) (acc path : List (Crumb K V))
      (n : ℕ)
      → IsColored (node c l k v r) n
      → IsContext (acc ++ path) c n
      → (sc : Color) × (sk : K) × (sv : V) × (sr : Tree K V) × (steps : List (Crumb K V)) × (m : ℕ)
        × (get_smallest_child (node c l k v r) acc ≡ (node sc nil sk sv sr, steps))
        × IsColored (node sc nil sk sv sr) m
        × IsContext (steps ++ path) sc m
  unfolding get_smallest_child
  get_smallest_child-IsPlace c nil k v r acc path n h context =
      (c, k, v, r, acc, n, refl, h, context)
  get_smallest_child-IsPlace red (node lc a x y b) k v r acc path n (c1, c2, hl, hr) context =
      get_smallest_child-IsPlace lc a x y b (left_of red k v r ∷ acc) path n hl
        (c1, c2, hr, context)
  get_smallest_child-IsPlace black (node lc a x y b) k v r acc path n (m, e, hl, hr) context =
      get_smallest_child-IsPlace lc a x y b (left_of black k v r ∷ acc) path m hl
        (hr, rw (sym e) context)

  -- The values do not matter.
  IsColored-value :
      (c : Color) (l : Tree K V) (k : K) (v w : V) (r : Tree K V) (n : ℕ)
      → IsColored (node c l k v r) n
      → IsColored (node c l k w r) n
  IsColored-value red l k v w r n h = h
  IsColored-value black l k v w r n h = h

  IsContext-value :
      (steps : List (Crumb K V)) (c : Color) (l : Tree K V) (k : K) (v w : V)
      (path : List (Crumb K V)) (d : Color) (n : ℕ)
      → IsContext (steps ++ right_of c l k v ∷ path) d n
      → IsContext (steps ++ right_of c l k w ∷ path) d n
  IsContext-value [] red l k v w path d n h = h
  IsContext-value [] black l k v w path d n h = h
  IsContext-value (left_of red a x r ∷ steps) c l k v w path d n (b, br, hr, rest) =
      (b, br, hr, IsContext-value steps c l k v w path red n rest)
  IsContext-value (left_of black a x r ∷ steps) c l k v w path d n (hr, rest) =
      (hr, IsContext-value steps c l k v w path black (suc n) rest)
  IsContext-value (right_of red a x r ∷ steps) c l k v w path d n (b, br, hr, rest) =
      (b, br, hr, IsContext-value steps c l k v w path red n rest)
  IsContext-value (right_of black a x r ∷ steps) c l k v w path d n (hr, rest) =
      (hr, IsContext-value steps c l k v w path black (suc n) rest)

  -- Each child fits in its place.
  left-IsContext :
      (c : Color) (l : Tree K V) (k : K) (v : V) (r : Tree K V) (path : List (Crumb K V)) (n : ℕ)
      → IsColored (node c l k v r) n
      → IsContext path c n
      → (m : ℕ) × IsColored l m × IsContext (left_of c k v r ∷ path) (color_of l) m
  left-IsContext red l k v r path n (cl, cr, hl, hr) context = (n, hl, (cl, cr, hr, context))
  left-IsContext black l k v r path n (m, e, hl, hr) context = (m, hl, (hr, rw (sym e) context))

  right-IsContext :
      (c : Color) (l : Tree K V) (k : K) (v : V) (r : Tree K V) (path : List (Crumb K V)) (n : ℕ)
      → IsColored (node c l k v r) n
      → IsContext path c n
      → (m : ℕ) × IsColored r m × IsContext (right_of c l k v ∷ path) (color_of r) m
  right-IsContext red l k v r path n (cl, cr, hl, hr) context = (n, hr, (cr, cl, hl, context))
  right-IsContext black l k v r path n (m, e, hl, hr) context = (m, hr, (hl, rw (sym e) context))

  delete_smallest-IsDeleted :
      (c : Color) (l : Tree K V) (k : K) (v : V) (rc : Color) (a : Tree K V) (x : K) (y : V)
      (b : Tree K V) (path : List (Crumb K V)) (n : ℕ)
      → IsColored (node c l k v (node rc a x y b)) n
      → IsContext path c n
      → IsDeleted (delete_smallest c l k v path (get_smallest_child (node rc a x y b) []))
  unfolding delete_smallest
  delete_smallest-IsDeleted c l k v rc a x y b path n h context =
      let (m, hr, below) = right-IsContext c l k v (node rc a x y b) path n h context in
      let (sc, sk, sv, sr, steps, d, run, hs, there) =
        get_smallest_child-IsPlace rc a x y b [] (right_of c l k v ∷ path) m hr below in
      rw run (
        delete_one_child-IsDeleted sc nil sk v sr (steps ++ right_of c l k sv ∷ path) d (inl refl)
          (IsColored-value sc nil sk sv v sr d hs)
          (IsContext-value steps c l k v sv path sc d there))

  -- Whether the key was found, and the tree: red-black, or one red node.
  abbrev pub IsDone : Option (Bool × Tree K V) → Type (ℓ ⊔ κ)
  IsDone result =
      (found : Bool) × (t : Tree K V) × (result ≡ some (found, t))
      × (IsRedBlack t ⊎ ((k : K) × (v : V) × (t ≡ node red nil k v nil)))

  IsDeleted-IsDone : (result : Option (Tree K V)) → IsDeleted result → IsDone (deleted result)
  IsDeleted-IsDone result (t, run, h) = (true, t, rw run refl, h)

  either-IsDone :
      (m : Bool) (a b : Option (Bool × Tree K V))
      → (m ≡ true → IsDone a)
      → (m ≡ false → IsDone b)
      → IsDone (if m then a else b)
  either-IsDone true a b h k = h refl
  either-IsDone false a b h k = k refl

  found-IsDeleted :
      (c : Color) (l : Tree K V) (k : K) (v : V) (r : Tree K V) (path : List (Crumb K V)) (n : ℕ)
      → IsColored (node c l k v r) n
      → IsContext path c n
      → IsDeleted (
          if is_nil r
          then delete_one_child (node c l k v r) path
          else delete_smallest c l k v path (get_smallest_child r []))
  found-IsDeleted c l k v nil path n h context =
      delete_one_child-IsDeleted c l k v nil path n (inr refl) h context
  found-IsDeleted c l k v (node rc a x y b) path n h context =
      delete_smallest-IsDeleted c l k v rc a x y b path n h context

  missing-IsDone :
      (path : List (Crumb K V)) (t : Tree K V) (n : ℕ)
      → IsColored t n
      → IsContext path (color_of t) n
      → IsDone (some (false, plug path t))
  missing-IsDone path t n h context =
      (false, plug path t, refl, inl (plug-IsRedBlack path t n h context))

module _ {ℓ κ} {K : Type ℓ} {V : Type κ} ⦃o : Order K⦄ where
  delete_child-IsDone :
      (t : Tree K V) (path : List (Crumb K V)) (n : ℕ) (x : K)
      → is_nil t ≡ false
      → IsColored t n
      → IsContext path (color_of t) n
      → IsDone (delete_child t path x)
  unfolding delete_child
  delete_child-IsDone nil path n x some_node h context = absurd (ground (arith, some_node))
  delete_child-IsDone (node c l k v r) path n x some_node h context =
      let (m, hl, below) = left-IsContext c l k v r path n h context in
      let (d, hr, beyond) = right-IsContext c l k v r path n h context in
      let missing = missing-IsDone path (node c l k v r) n h context in
      either-IsDone (o.lt x k) _ _
        (λ e.
          either-IsDone (is_nil l) _ _ (λ f. missing)
            (λ f. delete_child-IsDone l (left_of c k v r ∷ path) m x f hl below))
        (λ e.
          either-IsDone (o.lt k x) _ _
            (λ f.
              either-IsDone (is_nil r) _ _ (λ g. missing)
                (λ g. delete_child-IsDone r (right_of c l k v ∷ path) d x g hr beyond))
            (λ f. IsDeleted-IsDone _ (found-IsDeleted c l k v r path n h context)))

  -- Deleting from a red-black tree that has a node dereferences no null pointer, and the tree is
  -- red-black again, or it is one red node.
  pub delete_value-IsDone :
      (t : Tree K V) (x : K) → is_nil t ≡ false → IsRedBlack t → IsDone (delete_value t x)
  unfolding delete_value
  delete_value-IsDone t x some_node (b, (n, h)) = delete_child-IsDone t [] n x some_node h b
