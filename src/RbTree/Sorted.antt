-- ===== src/RbTree/Sorted.antt =====
-- Lists of keys and values in the order of the keys, as the entries of a search tree are.
use elephants.Base.{
  ◌≡◌, refl, Bool, true, false, List, [], ◌∷◌, ◌++◌, Bool-cases, inl, inr, if◌then◌else◌,
}
use elephants.RbTree.{Order}

module _ {ℓ κ} {K : Type ℓ} {V : Type κ} ⦃o : Order K⦄ where
  -- Insertion in a list that is in the order of the keys; an equal key is kept and gets the new
  -- value.
  abbrev pub put : K → V → List (K × V) → List (K × V)
  put x y [] = (x, y) ∷ []
  put x y ((k, v) ∷ es) =
      if o.lt x k
      then (x, y) ∷ (k, v) ∷ es
      else if o.lt k x
      then (k, v) ∷ put x y es
      else (k, y) ∷ es

  abbrev pub AreAbove : K → List (K × V) → Type ℓ
  AreAbove b [] = Unit
  AreAbove b ((k, v) ∷ es) = (o.lt b k ≡ true) × AreAbove b es

  abbrev pub AreBelow : K → List (K × V) → Type ℓ
  AreBelow b [] = Unit
  AreBelow b ((k, v) ∷ es) = (o.lt k b ≡ true) × AreBelow b es

  -- Strictly in the order of the keys.
  abbrev pub IsSorted : List (K × V) → Type ℓ
  IsSorted [] = Unit
  IsSorted ((k, v) ∷ es) = AreAbove k es × IsSorted es

  pub put-less :
      (x : K) (y : V) (es : List (K × V)) (k : K) (v : V) (more : List (K × V))
      → o.lt x k ≡ true
      → put x y (es ++ (k, v) ∷ more) ≡ put x y es ++ (k, v) ∷ more
  put-less x y [] k v more h = rw h
  put-less x y ((a, w) ∷ es) k v more h = elim (Bool-cases (o.lt x a)) [
    | inl e ↦ rw e
    | inr e ↦ elim (Bool-cases (o.lt a x)) [
      | inl f ↦ rw (e, f, put-less x y es k v more h)
      | inr f ↦ rw (e, f)
    ]
  ]

  pub put-below :
      (x : K) (y : V) (es more : List (K × V))
      → AreBelow x es
      → put x y (es ++ more) ≡ es ++ put x y more
  put-below x y [] more h = refl
  put-below x y ((a, w) ∷ es) more (lt, h) = rw (o.lt_asym a x lt, lt, put-below x y es more h)

  -- What a sorted list is made of.
  AreAbove-split :
      (b : K) (es : List (K × V)) (k : K) (v : V) (more : List (K × V))
      → AreAbove b (es ++ (k, v) ∷ more)
      → AreAbove b es × (o.lt b k ≡ true)
  AreAbove-split b [] k v more (lt, h) = (tt, lt)
  AreAbove-split b ((a, w) ∷ es) k v more (lt, h) =
      let (above, last) = AreAbove-split b es k v more h in ((lt, above), last)

  pub IsSorted-split :
      (es : List (K × V)) (k : K) (v : V) (more : List (K × V))
      → IsSorted (es ++ (k, v) ∷ more)
      → IsSorted es × AreBelow k es × IsSorted more
  IsSorted-split [] k v more (above, h) = (tt, tt, h)
  IsSorted-split ((a, w) ∷ es) k v more (above, h) =
      let (sorted, below, rest) = IsSorted-split es k v more h in
      let (near, last) = AreAbove-split a es k v more above in ((near, sorted), (last, below), rest)

  pub AreBelow-trans :
      (b c : K) (es : List (K × V)) → AreBelow b es → o.lt b c ≡ true → AreBelow c es
  AreBelow-trans b c [] h lt = tt
  AreBelow-trans b c ((a, w) ∷ es) (less, h) lt =
      (o.lt_trans a b c less lt, AreBelow-trans b c es h lt)

  AreAbove-trans : (b c : K) (es : List (K × V)) → AreAbove b es → o.lt c b ≡ true → AreAbove c es
  AreAbove-trans b c [] h lt = tt
  AreAbove-trans b c ((a, w) ∷ es) (more, h) lt =
      (o.lt_trans c b a lt more, AreAbove-trans b c es h lt)

  put-AreAbove :
      (b x : K) (y : V) (es : List (K × V))
      → AreAbove b es
      → o.lt b x ≡ true
      → AreAbove b (put x y es)
  put-AreAbove b x y [] h lt = (lt, tt)
  put-AreAbove b x y ((a, w) ∷ es) (more, h) lt = elim (Bool-cases (o.lt x a)) [
    | inl e ↦ rw e (lt, (more, h))
    | inr e ↦ elim (Bool-cases (o.lt a x)) [
      | inl f ↦ rw (e, f) (more, put-AreAbove b x y es h lt)
      | inr f ↦ rw (e, f) (more, h)
    ]
  ]

  pub put-IsSorted : (x : K) (y : V) (es : List (K × V)) → IsSorted es → IsSorted (put x y es)
  put-IsSorted x y [] h = (tt, tt)
  put-IsSorted x y ((a, w) ∷ es) (above, h) = elim (Bool-cases (o.lt x a)) [
    | inl e ↦ rw e ((e, AreAbove-trans a x es above e), (above, h))
    | inr e ↦ elim (Bool-cases (o.lt a x)) [
      | inl f ↦ rw (e, f) (put-AreAbove a x y es above f, put-IsSorted x y es h)
      | inr f ↦ rw (e, f) (above, h)
    ]
  ]

  -- Where the key is there already, `put` only exchanges its value.
  pub put-equal :
      (x k : K) (y v : V) (es : List (K × V))
      → o.lt x k ≡ false
      → o.lt k x ≡ false
      → put x y ((k, v) ∷ es) ≡ (k, y) ∷ es
  put-equal x k y v es e f = rw (e, f)

  pub put-greater :
      (x k : K) (y v : V) (es : List (K × V))
      → o.lt k x ≡ true
      → put x y ((k, v) ∷ es) ≡ (k, v) ∷ put x y es
  put-greater x k y v es f = rw (o.lt_asym k x f, f)

  pub AreBelow-equal :
      (x k : K) (es : List (K × V))
      → o.lt x k ≡ false
      → o.lt k x ≡ false
      → AreBelow k es
      → AreBelow x es
  AreBelow-equal x k es e f h = rw (o.lt_total x k e f) h

  -- A sorted list without a key's entry, and whether it has one.
  abbrev pub erase : K → List (K × V) → List (K × V)
  erase x [] = []
  erase x ((k, v) ∷ es) =
      if o.lt x k then (k, v) ∷ es else if o.lt k x then (k, v) ∷ erase x es else es

  abbrev pub has_key : K → List (K × V) → Bool
  has_key x [] = false
  has_key x ((k, v) ∷ es) = if o.lt x k then false else if o.lt k x then has_key x es else true

  pub erase-less :
      (x : K) (es : List (K × V)) (k : K) (v : V) (more : List (K × V))
      → o.lt x k ≡ true
      → (erase x (es ++ (k, v) ∷ more) ≡ erase x es ++ (k, v) ∷ more)
        × (has_key x (es ++ (k, v) ∷ more) ≡ has_key x es)
  erase-less x [] k v more h = (rw h, rw h)
  erase-less x ((a, w) ∷ es) k v more h = elim (Bool-cases (o.lt x a)) [
    | inl e ↦ (rw e, rw e)
    | inr e ↦ elim (Bool-cases (o.lt a x)) [
      | inl f ↦ let (rest, has) = erase-less x es k v more h in (rw (e, f, rest), rw (e, f, has))
      | inr f ↦ (rw (e, f), rw (e, f))
    ]
  ]

  pub erase-below :
      (x : K) (es more : List (K × V))
      → AreBelow x es
      → (erase x (es ++ more) ≡ es ++ erase x more) × (has_key x (es ++ more) ≡ has_key x more)
  erase-below x [] more h = (refl, refl)
  erase-below x ((a, w) ∷ es) more (lt, h) =
      let (rest, has) = erase-below x es more h in
      (rw (o.lt_asym a x lt, lt, rest), rw (o.lt_asym a x lt, lt, has))
