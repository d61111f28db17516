-- ===== src/RbTree/Delete/Values.antt =====
-- Which values a deletion leaves, and at which keys.
use elephants.Base.{
  ◌≡◌, refl, sym, ◌∙◌, Bool, true, false, Option, none, some, List, [], ◌∷◌, ◌++◌, append-nil,
  append_assoc, arith, Bool-cases, inl, inr, if◌then◌else◌,
}
use elephants.RbTree.{Order, Color, Tree, nil, node, Crumb, left_of, right_of, plug}
use elephants.RbTree.Entries.{entries, before, after, entries-plug, Has, same-Has}
use elephants.RbTree.Sorted.{
  IsSorted, IsSorted-split, AreBelow-trans, AreBelow-equal, has_key, erase-less, erase-below,
}
use elephants.RbTree.Delete.{
  is_nil, delete_one_child, get_smallest_child, delete_smallest, delete_child, deleted,
}
use elephants.RbTree.Delete.Entries.{delete_one_child-Has}

module _ {ℓ κ} {K : Type ℓ} {V : Type κ} where
  after-append : (steps path : List (Crumb K V)) → after (steps ++ path) ≡ after steps ++ after path
  after-append [] path = refl
  after-append (left_of c k v r ∷ steps) path = rw (after-append steps path, append_assoc)
  after-append (right_of c l k v ∷ steps) path = after-append steps path

  before-append :
      (steps path : List (Crumb K V)) → before (steps ++ path) ≡ before path ++ before steps
  before-append [] path = sym (append-nil (before path))
  before-append (left_of c k v r ∷ steps) path = before-append steps path
  before-append (right_of c l k v ∷ steps) path = rw (before-append steps path, append_assoc)

  -- The smallest child has the first entry.
  get_smallest_child-first :
      (c : Color) (l : Tree K V) (k : K) (v : V) (r : Tree K V) (acc : List (Crumb K V))
      → (sc : Color) × (sk : K) × (sv : V) × (sr : Tree K V) × (steps : List (Crumb K V))
        × (get_smallest_child (node c l k v r) acc ≡ (node sc nil sk sv sr, steps))
        × (entries (node c l k v r) ++ after acc ≡ (sk, sv) ∷ (entries sr ++ after steps))
        × (before steps ≡ before acc)
  unfolding get_smallest_child
  get_smallest_child-first c nil k v r acc = (c, k, v, r, acc, refl, refl, refl)
  get_smallest_child-first c (node d a x y b) k v r acc =
      let (sc, sk, sv, sr, steps, run, first, same) =
        get_smallest_child-first d a x y b (left_of c k v r ∷ acc) in
      (
        sc,
        sk,
        sv,
        sr,
        steps,
        run,
        append_assoc (entries (node d a x y b)) ((k, v) ∷ entries r) (after acc) ∙ first,
        same,
      )

  -- The first entry's value goes to the key.
  abbrev pub take_over : K → List (K × V) → List (K × V)
  take_over k [] = []
  take_over k ((first, v) ∷ es) = (k, v) ∷ es

  delete_smallest-Has :
      (c : Color) (l : Tree K V) (k : K) (v : V) (rc : Color) (a : Tree K V) (x : K) (y : V)
      (b : Tree K V) (path : List (Crumb K V))
      → Has
          (before path ++ (entries l ++ (take_over k (entries (node rc a x y b)) ++ after path)))
          (delete_smallest c l k v path (get_smallest_child (node rc a x y b) []))
  unfolding delete_smallest
  delete_smallest-Has c l k v rc a x y b path =
      let (sc, sk, sv, sr, steps, run, first, same) = get_smallest_child-first rc a x y b [] in
      let all : entries (node rc a x y b) ≡ (sk, sv) ∷ (entries sr ++ after steps) =
        sym (append-nil (entries (node rc a x y b))) ∙ first in
      rw (run, all)
        (same-Has _ _ (delete_one_child (node sc nil sk v sr) (steps ++ right_of c l k sv ∷ path))
          (rw
            (
              before-append steps (right_of c l k sv ∷ path),
              after-append steps (right_of c l k sv ∷ path),
              same,
            )
            (simp (append_assoc, append-nil)))
          (delete_one_child-Has sc nil sk v sr (steps ++ right_of c l k sv ∷ path) (inl refl)))

  -- The result, if there is one, has these entries, and tells whether the key was there.
  abbrev pub Gives : Bool → List (K × V) → Option (Bool × Tree K V) → Type (ℓ ⊔ κ)
  Gives found es none = Unit
  Gives found es (some (b, t)) = (b ≡ found) × (entries t ≡ es)

  deleted-Gives : (es : List (K × V)) (a : Option (Tree K V)) → Has es a → Gives true es (deleted a)
  deleted-Gives es none h = tt
  deleted-Gives es (some t) h = (refl, h)

  found-Gives :
      (c : Color) (l : Tree K V) (k : K) (v : V) (r : Tree K V) (path : List (Crumb K V))
      → Gives true (before path ++ (entries l ++ (take_over k (entries r) ++ after path))) (
          deleted (
            if is_nil r
            then delete_one_child (node c l k v r) path
            else delete_smallest c l k v path (get_smallest_child r [])))
  found-Gives c l k v nil path =
      deleted-Gives _ (delete_one_child (node c l k v nil) path)
        (delete_one_child-Has c l k v nil path (inr refl))
  found-Gives c l k v (node rc a x y b) path =
      deleted-Gives _ (delete_smallest c l k v path (get_smallest_child (node rc a x y b) []))
        (delete_smallest-Has c l k v rc a x y b path)

  either-Gives :
      (found : Bool) (es : List (K × V)) (m : Bool) (a b : Option (Bool × Tree K V))
      → (m ≡ true → Gives found es a)
      → (m ≡ false → Gives found es b)
      → Gives found es (if m then a else b)
  either-Gives found es true a b h k = h refl
  either-Gives found es false a b h k = k refl

  same-Gives :
      (found more_found : Bool) (es more : List (K × V)) (a : Option (Bool × Tree K V))
      → found ≡ more_found
      → es ≡ more
      → Gives found es a
      → Gives more_found more a
  same-Gives found more_found es more none e f h = tt
  same-Gives found more_found es more (some (b, t)) e f (hb, ht) = (hb ∙ e, ht ∙ f)

  without_nil-Gives :
      (t : Tree K V) (path : List (Crumb K V)) (es : List (K × V))
      → entries t ≡ es
      → Gives false (before path ++ (es ++ after path)) (some (false, plug path t))
  without_nil-Gives t path es e = (refl, rw (entries-plug path t, e))

module _ {ℓ κ} {K : Type ℓ} {V : Type κ} ⦃o : Order K⦄ where
  -- The entries that the deletion of a key leaves.
  abbrev pub without : Tree K V → K → List (K × V)
  without nil x = []
  without (node c l k v r) x =
      if o.lt x k
      then without l x ++ (k, v) ∷ entries r
      else if o.lt k x
      then entries l ++ (k, v) ∷ without r x
      else entries l ++ take_over k (entries r)

  without_nil :
      (t : Tree K V) (x : K)
      → is_nil t ≡ true
      → (has_key x (entries t) ≡ false) × (without t x ≡ entries t)
  without_nil nil x e = (refl, refl)
  without_nil (node c l k v r) x e = absurd (ground (arith, e))

  pub has_key-node :
      (x : K) (c : Color) (l : Tree K V) (k : K) (v : V) (r : Tree K V)
      → IsSorted (entries (node c l k v r))
      → has_key x (entries (node c l k v r)) ≡ (
          if o.lt x k
          then has_key x (entries l)
          else if o.lt k x
          then has_key x (entries r)
          else true)
  has_key-node x c l k v r h =
      let (hl, below, hr) = IsSorted-split (entries l) k v (entries r) h in
      elim (Bool-cases (o.lt x k)) [
        | inl e ↦ let (gone, has) = erase-less x (entries l) k v (entries r) e in rw (has, e)
        | inr e ↦ elim (Bool-cases (o.lt k x)) [
          | inl f ↦
              let (gone, has) =
                erase-below x (entries l) ((k, v) ∷ entries r)
                  (AreBelow-trans k x (entries l) below f) in
              rw (has, e, f)
          | inr f ↦
              let (gone, has) =
                erase-below x (entries l) ((k, v) ∷ entries r)
                  (AreBelow-equal x k (entries l) e f below) in
              rw (has, e, f)
        ]
      ]

  pub delete_child-Gives :
      (t : Tree K V) (path : List (Crumb K V)) (x : K)
      → is_nil t ≡ false
      → IsSorted (entries t)
      → Gives
          (has_key x (entries t))
          (before path ++ (without t x ++ after path))
          (delete_child t path x)
  unfolding delete_child
  delete_child-Gives nil path x some_node h = tt
  delete_child-Gives (node c l k v r) path x some_node h =
      let (hl, below, hr) = IsSorted-split (entries l) k v (entries r) h in
      elim (Bool-cases (o.lt x k)) [
        | inl e ↦
            rw (has_key-node x c l k v r h, e)
              (either-Gives (has_key x (entries l)) _ (is_nil l) _ _
                (λ f.
                  let (gone, same) = without_nil l x f in
                  (sym gone, rw (entries-plug path (node c l k v r), same)))
                (λ f.
                  same-Gives _ _ _ _ (delete_child l (left_of c k v r ∷ path) x) refl
                    (simp (append_assoc)) (delete_child-Gives l (left_of c k v r ∷ path) x f hl)))
        | inr e ↦ elim (Bool-cases (o.lt k x)) [
          | inl f ↦
              rw (has_key-node x c l k v r h, e, f)
                (either-Gives (has_key x (entries r)) _ (is_nil r) _ _
                  (λ g.
                    let (gone, same) = without_nil r x g in
                    (sym gone, rw (entries-plug path (node c l k v r), same)))
                  (λ g.
                    same-Gives _ _ _ _ (delete_child r (right_of c l k v ∷ path) x) refl
                      (simp (append_assoc))
                      (delete_child-Gives r (right_of c l k v ∷ path) x g hr)))
          | inr f ↦
              rw (has_key-node x c l k v r h, e, f)
                (same-Gives _ _ _ _
                  (deleted (
                    if is_nil r
                    then delete_one_child (node c l k v r) path
                    else delete_smallest c l k v path (get_smallest_child r [])))
                  refl (simp (append_assoc)) (found-Gives c l k v r path))
        ]
      ]
