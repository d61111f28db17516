-- ===== src/Watch/Table.antt =====
-- The hash table that zk_hashtable.c stands on (hashtable/hashtable.h, a library of its own) as a
-- record of its operations and what the header documents of them. A table is made with a hash
-- function and a test of equality. A value is a pointer, so what is written behind the one that
-- `hashtable_search` returns changes the table: `assign`.
use elephants.Base.{
  ℕ, ◌≡◌, ◌↔◌, Bool, true, false, ◌||◌, Option, none, some, List, [], ◌∷◌, if◌then◌else◌,
}

-- A test holds of some element.
unfoldable pub any {ℓ} : {A : Type ℓ} → (A → Bool) → List A → Bool
any p [] = false
any p (x ∷ xs) = p x || any p xs

pub record HashTable (hash : List ℕ → ℕ) (equal : List ℕ → List ℕ → Bool) (V : Type 0)
    : Type 1 where
  pub Table : Type 0
  pub create : ℕ → Table
  pub search : Table → List ℕ → Option V
  pub insert : Table → List ℕ → V → Table
  pub assign : Table → List ℕ → V → Table
  pub remove : Table → List ℕ → Table
  -- The keys and the values in the order of the iterator.
  pub keys : Table → List (List ℕ)
  pub values : Table → List V
  pub search-create : (n : ℕ) (k : List ℕ) → search (create n) k ≡ none
  -- The header does not say what a second insertion of a key does.
  pub search-insert :
      (t : Table) (k k' : List ℕ) (v : V)
      → search t k ≡ none
      → search (insert t k v) k' ≡ (if equal k k' then some v else search t k')
  pub search-assign :
      (t : Table) (k k' : List ℕ) (v w : V)
      → search t k ≡ some w
      → search (assign t k v) k' ≡ (if equal k k' then some v else search t k')
  pub search-remove :
      (t : Table) (k k' : List ℕ)
      → search (remove t k) k' ≡ (if equal k k' then none else search t k')
  -- The iterator comes past what `hashtable_search` finds, and nothing else.
  pub any-values :
      (t : Table) (p : V → Bool)
      → (any p (values t) ≡ true) ↔ ((k : List ℕ) × (v : V) × (search t k ≡ some v) × (p v ≡ true))
