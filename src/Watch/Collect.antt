-- ===== src/Watch/Collect.antt =====
-- Which watchers an event reaches, and which are left afterwards.
use elephants.Base.{
  ℕ, ◌≡◌, ◌↔◌, ◌⊎◌, refl, sym, Bool, true, false, ◌&&◌, ◌||◌, Option, none, some, List, [], ◌∷◌, ℤ,
  ◌==ℤ◌, ==_refl, arith, Bool-cases, Option-cases, inl, inr, if◌then◌else◌,
}
use elephants.Watch.{
  string_hash_djb2, string_equal, WatcherObject, same_watcher, add_to_list, Which, node, exist,
  child, Watchers, copy_table, collect_session_watchers, add_for_event, collect_watchers,
  zoo_session_event, created_event, deleted_event, changed_event, child_event,
}
use elephants.Watch.Table.{HashTable, any}
use elephants.Watch.Lists.{
  is_in, no_dups, is_in-add_to_list, no_dups-add_to_list, is_in-copy_watchers,
  no_dups-copy_watchers, is_in-copy_values, no_dups-copy_values,
}

pub string_equal_iff : (k k' : List ℕ) → (string_equal k k' ≡ true) ↔ (k ≡ k')
unfolding string_equal
string_equal_iff k k' = (to k k', λ e. rw (sym e) (self k))
  where
    to : (k k' : List ℕ) → string_equal k k' ≡ true → k ≡ k'
    to [] [] h = refl
    to [] (d ∷ k') h = ground arith
    to (c ∷ k) [] h = ground arith
    to (c ∷ k) (d ∷ k') h =
        let e : c ≡ d = ground arith in let tail = to k k' (ground arith) in rw (e, tail)

    self : (k : List ℕ) → string_equal k k ≡ true
    self [] = refl
    self (c ∷ k) = rw (==_refl c, self k)

or_false : (b : Bool) → (b || false) ≡ b
or_false true = refl
or_false false = refl

or-elim : (a b : Bool) → (a || b) ≡ true → (a ≡ true) ⊎ (b ≡ true)
or-elim true b h = inl refl
or-elim false b h = inr h

-- The tables that an event of a node looks its path up in.
abbrev pub reaches : ℤ → Which → Bool
reaches type node = type ==ℤ created_event || type ==ℤ changed_event || type ==ℤ deleted_event
reaches type exist = type ==ℤ created_event || type ==ℤ changed_event || type ==ℤ deleted_event
reaches type child = type ==ℤ child_event || type ==ℤ deleted_event

module _ (H : HashTable string_hash_djb2 string_equal (List WatcherObject)) where
  abbrev pub table : Watchers H → Which → HashTable.Table H
  table zh node = zh.active_node_watchers
  table zh exist = zh.active_exist_watchers
  table zh child = zh.active_child_watchers

  abbrev pub found : Option (List WatcherObject) → List WatcherObject
  found none = []
  found (some wl) = wl

  -- The watchers left at a path in a table.
  abbrev pub watchers_at : HashTable.Table H → List ℕ → List WatcherObject
  watchers_at ht path = found (HashTable.search H ht path)

  watchers_at-remove :
      (ht : HashTable.Table H) (path other : List ℕ)
      → watchers_at (HashTable.remove H ht path) other
        ≡ (if string_equal path other then [] else watchers_at ht other)
  watchers_at-remove ht path other = elim (Bool-cases (string_equal path other)) [
    | inl e ↦ rw (HashTable.search-remove H ht path other, e)
    | inr e ↦ rw (HashTable.search-remove H ht path other, e)
  ]

  add_for_event-table :
      (ht : HashTable.Table H) (path : List ℕ) (list : List WatcherObject)
      → (add_for_event H ht path list).0 ≡ HashTable.remove H ht path
  unfolding add_for_event
  add_for_event-table ht path list = elim (Option-cases (HashTable.search H ht path)) [
    | inl e ↦ rw (add_for_event, e)
    | inr (wl, e) ↦ rw (add_for_event, e)
  ]

  is_in-add_for_event :
      (ht : HashTable.Table H) (path : List ℕ) (list : List WatcherObject) (w : WatcherObject)
      → is_in w (add_for_event H ht path list).1 ≡ (is_in w (watchers_at ht path) || is_in w list)
  unfolding add_for_event
  is_in-add_for_event ht path list w = elim (Option-cases (HashTable.search H ht path)) [
    | inl e ↦ rw (add_for_event, e)
    | inr (wl, e) ↦ rw (add_for_event, e) (is_in-copy_watchers wl list false w)
  ]

  no_dups-add_for_event :
      (ht : HashTable.Table H) (path : List ℕ) (list : List WatcherObject)
      → no_dups list ≡ true
      → no_dups (add_for_event H ht path list).1 ≡ true
  unfolding add_for_event
  no_dups-add_for_event ht path list h = elim (Option-cases (HashTable.search H ht path)) [
    | inl e ↦ rw (add_for_event, e) h
    | inr (wl, e) ↦ rw (add_for_event, e) (no_dups-copy_watchers wl list false h)
  ]

  watchers_at-add_for_event :
      (ht : HashTable.Table H) (path : List ℕ) (list : List WatcherObject) (other : List ℕ)
      → watchers_at (add_for_event H ht path list).0 other
        ≡ (if string_equal path other then [] else watchers_at ht other)
  watchers_at-add_for_event ht path list other =
      rw (add_for_event-table ht path list) (watchers_at-remove ht path other)

  no_dups-session :
      (zh : Watchers H)
      → no_dups (collect_session_watchers H zh (add_to_list [] zh.default_watcher true).wl) ≡ true
  unfolding collect_session_watchers copy_table
  no_dups-session zh = no_dups-copy_values (HashTable.values H zh.active_child_watchers) _ (
      no_dups-copy_values (HashTable.values H zh.active_exist_watchers) _ (
        no_dups-copy_values (HashTable.values H zh.active_node_watchers) _
          (no_dups-add_to_list [] zh.default_watcher true refl)))

  -- The watchers that an event of a node collects are those left at its path in the tables that the
  -- event reaches, and no others.
  pub is_in-collect_watchers :
      (zh : Watchers H) (type : ℤ) (path : List ℕ) (w : WatcherObject)
      → (type ==ℤ zoo_session_event) ≡ false
      → is_in w (collect_watchers H zh type path).1 ≡ (
          (reaches type node && is_in w (watchers_at (table zh node) path))
          || (reaches type exist && is_in w (watchers_at (table zh exist) path))
          || (reaches type child && is_in w (watchers_at (table zh child) path)))
  unfolding collect_watchers
  is_in-collect_watchers zh type path w h =
      let nodes = is_in-add_for_event zh.active_node_watchers path [] w in
      let after_nodes = (add_for_event H zh.active_node_watchers path []).1 in
      let exists = is_in-add_for_event zh.active_exist_watchers path after_nodes w in
      let after_exists = (add_for_event H zh.active_exist_watchers path after_nodes).1 in
      let children = is_in-add_for_event zh.active_child_watchers path after_exists w in
      let only_children = is_in-add_for_event zh.active_child_watchers path [] w in ground arith

  -- No watcher is collected twice, even when it is left in several tables or at several nodes.
  pub no_dups-collect_watchers :
      (zh : Watchers H) (type : ℤ) (path : List ℕ)
      → no_dups (collect_watchers H zh type path).1 ≡ true
  unfolding collect_watchers
  no_dups-collect_watchers zh type path =
      let after_nodes = (add_for_event H zh.active_node_watchers path []).1 in
      let after_exists = (add_for_event H zh.active_exist_watchers path after_nodes).1 in
      let nodes = no_dups-add_for_event zh.active_node_watchers path [] refl in
      let exists = no_dups-add_for_event zh.active_exist_watchers path after_nodes nodes in
      let children = no_dups-add_for_event zh.active_child_watchers path after_exists exists in
      let only_children = no_dups-add_for_event zh.active_child_watchers path [] refl in
      let session = no_dups-session zh in ground arith

  -- Watchers are for one event: after an event of a node the tables that it reaches have nothing
  -- left at its path, and the watchers at other paths and in other tables are as before.
  pub watchers_at-collect_watchers :
      (zh : Watchers H) (type : ℤ) (path : List ℕ) (which : Which) (other : List ℕ)
      → (type ==ℤ zoo_session_event) ≡ false
      → watchers_at (table (collect_watchers H zh type path).0 which) other ≡ (
          if reaches type which && string_equal path other
          then []
          else watchers_at (table zh which) other)
  unfolding collect_watchers
  watchers_at-collect_watchers zh type path which other h =
      let after_nodes = (add_for_event H zh.active_node_watchers path []).1 in
      let after_exists = (add_for_event H zh.active_exist_watchers path after_nodes).1 in
      let nodes = watchers_at-add_for_event zh.active_node_watchers path [] other in
      let exists = watchers_at-add_for_event zh.active_exist_watchers path after_nodes other in
      let children = watchers_at-add_for_event zh.active_child_watchers path after_exists other in
      let only_children = watchers_at-add_for_event zh.active_child_watchers path [] other in
      elim which [ node ↦ ground arith | exist ↦ ground arith | child ↦ ground arith ]

  is_in-session :
      (zh : Watchers H) (w : WatcherObject)
      → is_in w (collect_session_watchers H zh (add_to_list [] zh.default_watcher true).wl) ≡ (
          any (is_in w) (HashTable.values H zh.active_child_watchers)
          || (any (is_in w) (HashTable.values H zh.active_exist_watchers)
              || (any (is_in w) (HashTable.values H zh.active_node_watchers)
                  || same_watcher zh.default_watcher w)))
  unfolding collect_session_watchers copy_table
  is_in-session zh w = rw (
    is_in-copy_values (HashTable.values H zh.active_child_watchers) _ w,
    is_in-copy_values (HashTable.values H zh.active_exist_watchers) _ w,
    is_in-copy_values (HashTable.values H zh.active_node_watchers) _ w,
    is_in-add_to_list [] zh.default_watcher true w,
    or_false (same_watcher zh.default_watcher w),
  )

  any-registered :
      (zh : Watchers H) (w : WatcherObject) (which : Which)
      → (any (is_in w) (HashTable.values H (table zh which)) ≡ true)
        ↔ ((path : List ℕ) × (is_in w (watchers_at (table zh which) path) ≡ true))
  any-registered zh w which = (to, from)
    where
      to :
          any (is_in w) (HashTable.values H (table zh which)) ≡ true
          → (path : List ℕ) × (is_in w (watchers_at (table zh which) path) ≡ true)
      to h =
          let (path, wl, e, i) = (HashTable.any-values H (table zh which) (is_in w)).0 h in
          (path, rw e i)

      from :
          (path : List ℕ) × (is_in w (watchers_at (table zh which) path) ≡ true)
          → any (is_in w) (HashTable.values H (table zh which)) ≡ true
      from (path, i) = elim (Option-cases (HashTable.search H (table zh which) path)) [
        | inl e ↦ absurd (ground (arith, rw e at i))
        | inr (wl, e) ↦
            (HashTable.any-values H (table zh which) (is_in w)).1 (path, wl, e, rw e at i)
      ]

  -- A session event reaches the default watcher and every watcher that is left anywhere, and only
  -- these.
  pub is_in-collect_watchers_session :
      (zh : Watchers H) (path : List ℕ) (w : WatcherObject)
      → (is_in w (collect_watchers H zh zoo_session_event path).1 ≡ true) ↔ (
          (same_watcher zh.default_watcher w ≡ true)
          ⊎ ((which : Which) × (at_path : List ℕ) × (is_in w (watchers_at (table zh which) at_path)
                ≡ true)))
  unfolding collect_watchers
  is_in-collect_watchers_session zh path w = (to, from)
    where
      to :
          is_in w (collect_watchers H zh zoo_session_event path).1 ≡ true
          → (same_watcher zh.default_watcher w ≡ true)
            ⊎ ((which : Which) × (at_path : List ℕ) × (is_in w
                    (watchers_at (table zh which) at_path)
                  ≡ true))
      to h = elim (or-elim _ _ (rw (is_in-session zh w) at h)) [
        | inl c ↦ let (k, i) = (any-registered zh w child).0 c in inr (child, k, i)
        | inr h1 ↦ elim (or-elim _ _ h1) [
          | inl e ↦ let (k, i) = (any-registered zh w exist).0 e in inr (exist, k, i)
          | inr h2 ↦ elim (or-elim _ _ h2) [
            | inl n ↦ let (k, i) = (any-registered zh w node).0 n in inr (node, k, i)
            | inr d ↦ inl d
          ]
        ]
      ]

      from :
          (same_watcher zh.default_watcher w ≡ true)
            ⊎ ((which : Which) × (at_path : List ℕ) × (is_in w
                    (watchers_at (table zh which) at_path)
                  ≡ true))
          → is_in w (collect_watchers H zh zoo_session_event path).1 ≡ true
      from (inl d) = rw (is_in-session zh w) (ground (arith, d))
      from (inr (node, k, i)) =
          let h = (any-registered zh w node).1 (k, i) in rw (is_in-session zh w) (ground (arith, h))
      from (inr (exist, k, i)) =
          let h = (any-registered zh w exist).1 (k, i) in
          rw (is_in-session zh w) (ground (arith, h))
      from (inr (child, k, i)) =
          let h = (any-registered zh w child).1 (k, i) in
          rw (is_in-session zh w) (ground (arith, h))
