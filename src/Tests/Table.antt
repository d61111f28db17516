-- ===== src/Tests/Table.antt =====
-- A hash table for the examples: an association list, the first entry of a key counting.
use elephants.Base.{
  ℕ, ◌≡◌, refl, Bool, true, false, ◌||◌, Option, none, some, List, [], ◌∷◌, arith, Bool-cases, inl,
  inr, if◌then◌else◌,
}
use elephants.Watch.{string_hash_djb2, string_equal, WatcherObject}
use elephants.Watch.Table.{HashTable, any}
use elephants.Watch.Collect.{string_equal_iff}

abbrev pub Entries : Type 0
Entries = List (List ℕ × List WatcherObject)

abbrev pub search : Entries → List ℕ → Option (List WatcherObject)
search [] k = none
search ((k', v) ∷ t) k = if string_equal k' k then some v else search t k

abbrev pub remove : Entries → List ℕ → Entries
remove [] k = []
remove ((k', v) ∷ t) k = if string_equal k k' then remove t k else (k', v) ∷ remove t k

abbrev pub seen_key : List ℕ → List (List ℕ) → Bool
seen_key k [] = false
seen_key k (s ∷ seen) = string_equal k s || seen_key k seen

abbrev pub values_from : List (List ℕ) → Entries → List (List WatcherObject)
values_from seen [] = []
values_from seen ((k, v) ∷ t) =
    if seen_key k seen then values_from seen t else v ∷ values_from (k ∷ seen) t

abbrev pub keys_from : List (List ℕ) → Entries → List (List ℕ)
keys_from seen [] = []
keys_from seen ((k, v) ∷ t) =
    if seen_key k seen then keys_from seen t else k ∷ keys_from (k ∷ seen) t

self : (k : List ℕ) → string_equal k k ≡ true
self k = (string_equal_iff k k).1 refl

differ : (k l : List ℕ) → string_equal k l ≡ false → string_equal l k ≡ false
differ k l h = elim (Bool-cases (string_equal l k)) [
  | inr e ↦ e
  | inl e ↦ absurd (ground (arith, h, rw ((string_equal_iff l k).0 e) at h, self k))
]

pub search-remove :
    (t : Entries) (k k' : List ℕ)
    → search (remove t k) k' ≡ (if string_equal k k' then none else search t k')
search-remove [] k k' = ground arith
search-remove ((l, v) ∷ t) k k' = elim (Bool-cases (string_equal k l)) [
  | inl e ↦
      rw (e, search-remove t k k', (string_equal_iff k l).0 e)
        (elim (Bool-cases (string_equal l k')) [ inl f ↦ rw f | inr f ↦ rw f ])
  | inr e ↦ rw e (elim (Bool-cases (string_equal l k')) [
    | inl f ↦
        let same = (string_equal_iff l k').0 f in
        let apart : string_equal k k' ≡ false = rw same at e in rw (f, apart)
    | inr f ↦ rw (f, search-remove t k k')
  ])
]

-- The values that some key finds.
abbrev pub Finds : (List WatcherObject → Bool) → List (List ℕ) → Entries → Type 0
Finds p seen t =
    (k : List ℕ) × (v : List WatcherObject) × (seen_key k seen ≡ false)
    × (search t k ≡ some v)
    × (p v ≡ true)

pub any-values_from :
    (p : List WatcherObject → Bool) (t : Entries) (seen : List (List ℕ))
    → any p (values_from seen t) ≡ true
    → Finds p seen t
unfolding any
any-values_from p [] seen h = absurd (ground (arith, h))
any-values_from p ((l, w) ∷ t) seen h = elim (Bool-cases (seen_key l seen)) [
  | inl old ↦
      let (k, v, fresh, e, holds) = any-values_from p t seen (rw old at h) in
      elim (Bool-cases (string_equal l k)) [
        | inl same ↦ absurd (ground (arith, fresh, rw ((string_equal_iff l k).0 same) at old))
        | inr apart ↦ (k, v, fresh, rw apart e, holds)
      ]
  | inr new ↦ elim (Bool-cases (p w)) [
    | inl good ↦ (l, w, new, rw (self l), good)
    | inr bad ↦
        let (k, v, fresh, e, holds) = any-values_from p t (l ∷ seen) (rw (new, any, bad) at h) in
        let apart = differ k l (ground (arith, fresh)) in
        (k, v, ground (arith, fresh), rw apart e, holds)
  ]
]

pub values_from-any :
    (p : List WatcherObject → Bool) (t : Entries) (seen : List (List ℕ)) (k : List ℕ)
    (v : List WatcherObject)
    → seen_key k seen ≡ false
    → search t k ≡ some v
    → p v ≡ true
    → any p (values_from seen t) ≡ true
unfolding any
values_from-any p [] seen k v fresh e holds = absurd (ground (arith, e))
values_from-any p ((l, w) ∷ t) seen k v fresh e holds = elim (Bool-cases (string_equal l k)) [
  | inl same ↦
      let key = (string_equal_iff l k).0 same in
      let new : seen_key l seen ≡ false = rw key fresh in
      let value : some w ≡ some v = rw same at e in rw (new, any) (ground (arith, value, holds))
  | inr apart ↦
      let later : search t k ≡ some v = rw apart at e in
      elim (Bool-cases (seen_key l seen)) [
        | inl old ↦ rw old (values_from-any p t seen k v fresh later holds)
        | inr new ↦
            let found =
              values_from-any p t (l ∷ seen) k v (rw (differ l k apart) fresh) later holds in
            rw (new, any) (ground (arith, found))
      ]
]

abbrev pub assoc_table : HashTable string_hash_djb2 string_equal (List WatcherObject)
assoc_table = record {
  Table = Entries;
  create = λ n. [];
  search = search;
  insert = λ t k v. (k, v) ∷ t;
  assign = λ t k v. (k, v) ∷ t;
  remove = remove;
  keys = keys_from [];
  values = values_from [];
  search-create = λ n k. refl;
  search-insert = λ t k k' v e. refl;
  search-assign = λ t k k' v w e. refl;
  search-remove = search-remove;
  any-values = λ t p. (
    λ h. let (k, v, fresh, e, holds) = any-values_from p t [] h in (k, v, e, holds),
    λ (k, v, e, holds). values_from-any p t [] k v refl e holds,
  );
}
