-- ===== src/Tests/Trees.antt =====
-- Concrete red-black trees, with numbers as keys.
use elephants.Base.{ℕ, ◌≡◌, refl, true, false, none, some, [], ◌∷◌, arith, inl, ltb}
use elephants.RbTree.{Order, red, black, Tree, nil, node, insert}
use elephants.RbTree.Colored.{IsRedBlack, IsInserted, insert-IsRedBlack}
use elephants.RbTree.Sorted.{put, IsSorted, erase, has_key}
use elephants.RbTree.Entries.{entries, insert-entries}
use elephants.RbTree.Delete.{delete_value}
use elephants.RbTree.Delete.Total.{IsDone, delete_value-IsDone}
use elephants.RbTree.Delete.Result.{values, delete_value-values, delete_value-next_key}
use elephants.RbTree.Delete.RedRoot.{insert-delete_value}

ltb_trans : (a b c : ℕ) → ltb a b ≡ true → ltb b c ≡ true → ltb a c ≡ true
ltb_trans a b c h k = ground arith

ltb_asym : (a b : ℕ) → ltb a b ≡ true → ltb b a ≡ false
ltb_asym a b h = ground arith

ltb_total : (a b : ℕ) → ltb a b ≡ false → ltb b a ≡ false → a ≡ b
ltb_total a b h k = ground arith

instance by_size : Order ℕ
by_size = record { lt = ltb; lt_trans = ltb_trans; lt_asym = ltb_asym; lt_total = ltb_total }

-- 10 above 5 and 20, 20 above 15, which is red.
abbrev tree : Tree ℕ ℕ
tree = node black (node black nil 5 50 nil) 10 100 (node black (node red nil 15 150 nil) 20 200 nil)

tree-IsRedBlack : IsRedBlack tree
tree-IsRedBlack =
    (refl, (2, (1, refl, (0, refl, refl, refl), (0, refl, (refl, refl, refl, refl), refl))))

tree-IsSorted : IsSorted (entries tree)
unfolding by_size
tree-IsSorted = ((refl, (refl, (refl, tt))), ((refl, (refl, tt)), ((refl, tt), (tt, tt))))

insert-IsRedBlack_example : IsInserted (insert tree 17 170)
insert-IsRedBlack_example = insert-IsRedBlack tree 17 170 tree-IsRedBlack

insert-entries_example :
    (after : Tree ℕ ℕ) × (insert tree 17 170 ≡ some after)
    × (entries after ≡ put 17 170 (entries tree))
    × IsSorted (entries after)
insert-entries_example = insert-entries tree 17 170 tree-IsRedBlack tree-IsSorted

delete_value-IsDone_example : IsDone (delete_value tree 5)
delete_value-IsDone_example = delete_value-IsDone tree 5 refl tree-IsRedBlack

delete_value-values_example :
    (after : Tree ℕ ℕ) × (delete_value tree 5 ≡ some (has_key 5 (entries tree), after))
    × (values (entries after) ≡ values (erase 5 (entries tree)))
delete_value-values_example = delete_value-values tree 5 refl tree-IsRedBlack tree-IsSorted

delete_value-next_key_example :
    (after : Tree ℕ ℕ) × (delete_value tree 10 ≡ some (true, after))
    × (entries after ≡ (5, 50) ∷ (10, 150) ∷ (20, 200) ∷ [])
delete_value-next_key_example =
    delete_value-next_key black (node black nil 5 50 nil) 10 100
      (node black (node red nil 15 150 nil) 20 200 nil) 15 150 ((20, 200) ∷ []) tree-IsRedBlack
      tree-IsSorted refl

insert-delete_value_example :
    (t : Tree ℕ ℕ) × (delete_value (node black (node red nil 5 50 nil) 10 100 nil) 10
      ≡ some (true, t))
    × (insert t 3 30 ≡ none)
unfolding by_size
insert-delete_value_example = insert-delete_value 5 50 10 100 3 30 (inl refl)
