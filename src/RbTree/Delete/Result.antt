-- ===== src/RbTree/Delete/Result.antt =====
-- What a deletion from a search tree does to its keys and to its values.
use elephants.Base.{
  ◌≡◌, refl, ap, ◌∙◌, subst, Bool, true, false, Option, some, List, [], ◌∷◌, ◌++◌, map, append-nil,
  Bool-cases, inl, inr,
}
use mathlib.Core.List.{map-append}
use elephants.RbTree.{Order, Color, Tree, nil, node}
use elephants.RbTree.Colored.{IsRedBlack}
use elephants.RbTree.Entries.{entries}
use elephants.RbTree.Sorted.{
  IsSorted, IsSorted-split, AreBelow-trans, AreBelow-equal, erase, has_key, erase-less, erase-below,
}
use elephants.RbTree.Delete.{is_nil, delete_value}
use elephants.RbTree.Delete.Total.{delete_value-IsDone}
use elephants.RbTree.Delete.Values.{take_over, without, has_key-node, Gives, delete_child-Gives}

module _ {ℓ κ} {K : Type ℓ} {V : Type κ} where
  -- The values, in the order of the keys.
  abbrev pub values : List (K × V) → List V
  values es = map (λ e. e.1) es

  Gives-some :
      (b found : Bool) (es : List (K × V)) (t : Tree K V) (a : Option (Bool × Tree K V))
      → Gives found es a
      → a ≡ some (b, t)
      → (b ≡ found) × (entries t ≡ es)
  Gives-some b found es t a h run = subst (Gives found es) run h

  values-take_over : (k : K) (es : List (K × V)) → values (take_over k es) ≡ values es
  values-take_over k [] = refl
  values-take_over k ((first, v) ∷ es) = refl

module _ {ℓ} {K : Type ℓ} ⦃o : Order K⦄ where
  pub lt_irrefl : (x : K) → o.lt x x ≡ false
  lt_irrefl x = elim (Bool-cases (o.lt x x)) [ inl e ↦ o.lt_asym x x e | inr e ↦ e ]

module _ {ℓ κ} {K : Type ℓ} {V : Type κ} ⦃o : Order K⦄ where
  erase-equal :
      (x k : K) (v : V) (es : List (K × V))
      → o.lt x k ≡ false
      → o.lt k x ≡ false
      → erase x ((k, v) ∷ es) ≡ es
  erase-equal x k v es e f = rw (e, f)

  erase-greater :
      (x k : K) (v : V) (es : List (K × V))
      → o.lt x k ≡ false
      → o.lt k x ≡ true
      → erase x ((k, v) ∷ es) ≡ (k, v) ∷ erase x es
  erase-greater x k v es e f = rw (e, f)

  values-without :
      (t : Tree K V) (x : K)
      → IsSorted (entries t)
      → values (without t x) ≡ values (erase x (entries t))
  values-without nil x h = refl
  values-without (node c l k v r) x h =
      let (hl, below, hr) = IsSorted-split (entries l) k v (entries r) h in
      elim (Bool-cases (o.lt x k)) [
        | inl e ↦
            let (gone, has) = erase-less x (entries l) k v (entries r) e in
            rw (gone, e) (simp (map-append, values-without l x hl))
        | inr e ↦ elim (Bool-cases (o.lt k x)) [
          | inl f ↦
              let (gone, has) =
                erase-below x (entries l) ((k, v) ∷ entries r)
                  (AreBelow-trans k x (entries l) below f) in
              rw (gone, erase-greater x k v (entries r) e f, e, f)
                (simp (map-append, values-without r x hr))
          | inr f ↦
              let (gone, has) =
                erase-below x (entries l) ((k, v) ∷ entries r)
                  (AreBelow-equal x k (entries l) e f below) in
              rw (gone, erase-equal x k v (entries r) e f, e, f)
                (simp (map-append, values-take_over))
        ]
      ]

  delete_value-without :
      (t : Tree K V) (x : K)
      → is_nil t ≡ false
      → IsRedBlack t
      → IsSorted (entries t)
      → (after : Tree K V) × (delete_value t x ≡ some (has_key x (entries t), after))
        × (entries after ≡ without t x)
  unfolding delete_value
  delete_value-without t x some_node rb sorted =
      let (found, after, run, colors) = delete_value-IsDone t x some_node rb in
      let (has, left) =
        Gives-some found (has_key x (entries t)) (without t x ++ []) after _
          (delete_child-Gives t [] x some_node sorted) run in
      (after, run ∙ ap (λ b. some (b, after)) has, left ∙ append-nil (without t x))

  -- Deleting a key from a red-black search tree that has a node tells whether the key was there, and
  -- leaves, in the order of the keys, exactly the values of the other entries.
  pub delete_value-values :
      (t : Tree K V) (x : K)
      → is_nil t ≡ false
      → IsRedBlack t
      → IsSorted (entries t)
      → (after : Tree K V) × (delete_value t x ≡ some (has_key x (entries t), after))
        × (values (entries after) ≡ values (erase x (entries t)))
  delete_value-values t x some_node rb sorted =
      let (after, run, left) = delete_value-without t x some_node rb sorted in
      (after, run, ap values left ∙ values-without t x sorted)

  -- Deleting the key of a root that has a right tree finds the key and leaves it in the tree, with
  -- the value of the next key, and the next key is the one that is gone.
  pub delete_value-next_key :
      (c : Color) (l : Tree K V) (x : K) (v : V) (r : Tree K V) (next : K) (w : V)
      (es : List (K × V))
      → IsRedBlack (node c l x v r)
      → IsSorted (entries (node c l x v r))
      → entries r ≡ (next, w) ∷ es
      → (after : Tree K V) × (delete_value (node c l x v r) x ≡ some (true, after))
        × (entries after ≡ entries l ++ (x, w) ∷ es)
  delete_value-next_key c l x v r next w es rb sorted first =
      let (after, run, left) = delete_value-without (node c l x v r) x refl rb sorted in
      let irrefl = lt_irrefl x in
      let found : has_key x (entries (node c l x v r)) ≡ true =
        has_key-node x c l x v r sorted ∙ rw irrefl refl in
      let shape : without (node c l x v r) x ≡ entries l ++ (x, w) ∷ es = rw (irrefl, first) in
      (after, run ∙ ap (λ b. some (b, after)) found, left ∙ shape)
