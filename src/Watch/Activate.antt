-- ===== src/Watch/Activate.antt =====
-- What registering a watcher adds to the tables, and that they stay free of duplicates.
use elephants.Base.{
  ℕ, ◌≡◌, Bool, true, false, ◌&&◌, ◌||◌, Option, none, some, List, [], ◌∷◌, ℤ, Bool-cases,
  Option-cases, inl, inr, if◌then◌else◌,
}
use elephants.Watch.{
  string_hash_djb2, string_equal, WatcherObject, same_watcher, add_to_list, Which, node, exist,
  child, Registration, Watchers, do_insert_watcher_object, activate_watcher,
}
use elephants.Watch.Table.{HashTable}
use elephants.Watch.Lists.{is_in, no_dups, is_in-add_to_list, no_dups-add_to_list}
use elephants.Watch.Collect.{string_equal_iff, table, watchers_at}

-- A checker's result names this table.
abbrev pub selects : Option Which → Which → Bool
selects (some node) node = true
selects (some exist) exist = true
selects (some child) child = true
selects _ which = false

module _ (H : HashTable string_hash_djb2 string_equal (List WatcherObject)) where
  watchers_at-insert :
      (ht : HashTable.Table H) (path other : List ℕ) (wo w : WatcherObject)
      → is_in w (watchers_at H (do_insert_watcher_object H ht path wo) other)
        ≡ ((string_equal path other && same_watcher wo w) || is_in w (watchers_at H ht other))
  unfolding do_insert_watcher_object
  watchers_at-insert ht path other wo w = elim (Option-cases (HashTable.search H ht path)) [
    | inl e ↦
        let law = HashTable.search-insert H ht path other (wo ∷ []) e in
        elim (Bool-cases (string_equal path other)) [
          | inl same ↦
              let there = (string_equal_iff path other).0 same in
              rw (do_insert_watcher_object, e, law, same, ← there, e)
          | inr differs ↦ rw (do_insert_watcher_object, e, law, differs)
        ]
    | inr (wl, e) ↦
        let law = HashTable.search-assign H ht path other (add_to_list wl wo false).wl wl e in
        elim (Bool-cases (string_equal path other)) [
          | inl same ↦
              let there = (string_equal_iff path other).0 same in
              rw (do_insert_watcher_object, e, law, same, ← there, e)
                (is_in-add_to_list wl wo false w)
          | inr differs ↦ rw (do_insert_watcher_object, e, law, differs)
        ]
  ]

  -- The lists in the tables have no duplicates, at any path.
  abbrev pub IsDuplicateFree : Watchers H → Type 0
  IsDuplicateFree zh =
      (which : Which) (path : List ℕ) → no_dups (watchers_at H (table H zh which) path) ≡ true

  no_dups-insert :
      (ht : HashTable.Table H) (path other : List ℕ) (wo : WatcherObject)
      → ((k : List ℕ) → no_dups (watchers_at H ht k) ≡ true)
      → no_dups (watchers_at H (do_insert_watcher_object H ht path wo) other) ≡ true
  unfolding do_insert_watcher_object
  no_dups-insert ht path other wo h = elim (Option-cases (HashTable.search H ht path)) [
    | inl e ↦
        let law = HashTable.search-insert H ht path other (wo ∷ []) e in
        elim (Bool-cases (string_equal path other)) [
          | inl same ↦ rw (do_insert_watcher_object, e, law, same)
          | inr differs ↦ rw (do_insert_watcher_object, e, law, differs) (h other)
        ]
    | inr (wl, e) ↦
        let law = HashTable.search-assign H ht path other (add_to_list wl wo false).wl wl e in
        elim (Bool-cases (string_equal path other)) [
          | inl same ↦
              rw (do_insert_watcher_object, e, law, same)
                (no_dups-add_to_list wl wo false (rw e at (h path)))
          | inr differs ↦ rw (do_insert_watcher_object, e, law, differs) (h other)
        ]
  ]

  table-activate_watcher :
      (zh : Watchers H) (reg : Registration) (rc : ℤ) (which : Which)
      → table H (activate_watcher H zh (some reg) rc) which ≡ (
          if selects (reg.checker rc) which
          then do_insert_watcher_object H (table H zh which) reg.path reg.object
          else table H zh which)
  unfolding activate_watcher
  table-activate_watcher zh reg rc node = elim (Option-cases (reg.checker rc)) [
    | inl e ↦ rw (activate_watcher, e)
    | inr (node, e) ↦ rw (activate_watcher, e)
    | inr (exist, e) ↦ rw (activate_watcher, e)
    | inr (child, e) ↦ rw (activate_watcher, e)
  ]
  table-activate_watcher zh reg rc exist = elim (Option-cases (reg.checker rc)) [
    | inl e ↦ rw (activate_watcher, e)
    | inr (node, e) ↦ rw (activate_watcher, e)
    | inr (exist, e) ↦ rw (activate_watcher, e)
    | inr (child, e) ↦ rw (activate_watcher, e)
  ]
  table-activate_watcher zh reg rc child = elim (Option-cases (reg.checker rc)) [
    | inl e ↦ rw (activate_watcher, e)
    | inr (node, e) ↦ rw (activate_watcher, e)
    | inr (exist, e) ↦ rw (activate_watcher, e)
    | inr (child, e) ↦ rw (activate_watcher, e)
  ]

  -- A registration leaves its watcher at its path in the table that its checker names for the return
  -- code, and in no other place; without a table, nothing changes.
  pub is_in-activate_watcher :
      (zh : Watchers H) (reg : Registration) (rc : ℤ) (which : Which) (other : List ℕ)
      (w : WatcherObject)
      → is_in w (watchers_at H (table H (activate_watcher H zh (some reg) rc) which) other) ≡ (
          (selects (reg.checker rc) which
            && (string_equal reg.path other && same_watcher reg.object w))
          || is_in w (watchers_at H (table H zh which) other))
  is_in-activate_watcher zh reg rc which other w =
      rw (table-activate_watcher zh reg rc which)
        (elim (Bool-cases (selects (reg.checker rc) which)) [
          | inl chosen ↦
              rw chosen (watchers_at-insert (table H zh which) reg.path other reg.object w)
          | inr other_table ↦ rw other_table
        ])

  -- If the lists in the tables have no duplicates, they have none after a registration either.
  pub activate_watcher-IsDuplicateFree :
      (zh : Watchers H) (reg : Option Registration) (rc : ℤ)
      → IsDuplicateFree zh
      → IsDuplicateFree (activate_watcher H zh reg rc)
  unfolding activate_watcher
  activate_watcher-IsDuplicateFree zh none rc h which path = h which path
  activate_watcher-IsDuplicateFree zh (some reg) rc h which path =
      rw (table-activate_watcher zh reg rc which)
        (elim (Bool-cases (selects (reg.checker rc) which)) [
          | inl chosen ↦
              rw chosen (no_dups-insert (table H zh which) reg.path path reg.object (h which))
          | inr other_table ↦ rw other_table (h which path)
        ])
