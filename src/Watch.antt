-- ===== src/Watch.antt =====
-- zk_hashtable.c: the watchers that the application has left at nodes, and what becomes of them when
-- the server reports an event. A watcher object is its function and its context, both pointers; a
-- `watcher_object_list_t` is the list of its objects from the head on.
pub mod Table
pub mod Lists
pub mod Collect
pub mod Activate
use elephants.Base.{
  ℕ, ◌+◌, ◌-◌, ◌*◌, ◌%◌, ◌^◌, Bool, true, false, ◌&&◌, ◌||◌, Option, none, some, List, [], ◌∷◌, ℤ,
  pos, negsuc, ◌==ℤ◌, ltb, leb, ◌==◌, length, map, if◌then◌else◌,
}
use elephants.ZnodePath.{sub_string}
use elephants.Watch.Table.{HashTable}

-- `int c = *cstr++` extends the sign of a `char`; the sum is an `unsigned int`.
abbrev pub char_to_unsigned : ℕ → ℕ
char_to_unsigned c = if leb 128 c then 2 ^ 32 + c - 256 else c

unfoldable pub djb2_from : ℕ → List ℕ → ℕ
djb2_from hash [] = hash
djb2_from hash (c ∷ cstr) =
    djb2_from ((hash * 2 ^ 5 % 2 ^ 32 + hash + char_to_unsigned c) % 2 ^ 32) cstr

abbrev pub string_hash_djb2 : List ℕ → ℕ
string_hash_djb2 cstr = djb2_from 5381 cstr

-- `strcmp(key1, key2) == 0`
unfoldable pub string_equal : List ℕ → List ℕ → Bool
string_equal [] [] = true
string_equal [] (d ∷ key2) = false
string_equal (c ∷ key1) [] = false
string_equal (c ∷ key1) (d ∷ key2) = c == d && string_equal key1 key2

pub record WatcherObject : Type 0 where
  pub watcher : ℕ
  pub context : ℕ

-- `wobj->watcher == wo->watcher && wobj->context == wo->context`
abbrev pub same_watcher : WatcherObject → WatcherObject → Bool
same_watcher wobj wo = wobj.watcher == wo.watcher && wobj.context == wo.context

unfoldable pub search_watcher : List WatcherObject → WatcherObject → Option WatcherObject
search_watcher [] wo = none
search_watcher (wobj ∷ next) wo = if same_watcher wobj wo then some wobj else search_watcher next wo

-- The list, the result, and how many objects have been freed and allocated.
pub record Added : Type 0 where
  pub wl : List WatcherObject
  pub res : ℕ
  pub allocated : ℕ
  pub freed : ℕ

abbrev pub clone_watcher_object : WatcherObject → WatcherObject
clone_watcher_object wo = record { watcher = wo.watcher; context = wo.context }

unfoldable pub add_to_list : List WatcherObject → WatcherObject → Bool → Added
add_to_list wl wo clone = elim (search_watcher wl wo) [
  | none ↦ record {
    wl = (if clone then clone_watcher_object wo else wo) ∷ wl;
    res = 1;
    allocated = if clone then 1 else 0;
    freed = 0;
  }
  | some found ↦ record { wl = wl; res = 0; allocated = 0; freed = if clone then 0 else 1 }
]

-- `copy_watchers(from, to, clone)`, `from` from its head on.
unfoldable pub copy_watchers : List WatcherObject → List WatcherObject → Bool → Added
copy_watchers [] to clone = record { wl = to; res = 0; allocated = 0; freed = 0 }
copy_watchers (wo ∷ next) to clone =
    let added = add_to_list to wo clone in
    let rest = copy_watchers next added.wl clone in
    record {
      wl = rest.wl;
      res = 0;
      allocated = added.allocated + rest.allocated;
      freed = added.freed + rest.freed;
    }

abbrev pub copy_values : List (List WatcherObject) → List WatcherObject → List WatcherObject
copy_values [] to = to
copy_values (w ∷ more) to = copy_values more (copy_watchers w to true).wl

-- The events, as the server numbers them.
abbrev pub zoo_session_event : ℤ
zoo_session_event = negsuc 0

abbrev pub created_event : ℤ
created_event = pos 1

abbrev pub deleted_event : ℤ
deleted_event = pos 2

abbrev pub changed_event : ℤ
changed_event = pos 3

abbrev pub child_event : ℤ
child_event = pos 4

-- The three tables of a handle, by which a checker names one.
pub data Which : Type 0 where
  node exist child : Which

abbrev pub zok : ℤ
zok = pos 0

abbrev pub znonode : ℤ
znonode = negsuc 100

unfoldable pub exists_result_checker : ℤ → Option Which
exists_result_checker rc =
    if rc ==ℤ zok then some node else if rc ==ℤ znonode then some exist else none

unfoldable pub data_result_checker : ℤ → Option Which
data_result_checker rc = if rc ==ℤ zok then some node else none

unfoldable pub child_result_checker : ℤ → Option Which
child_result_checker rc = if rc ==ℤ zok then some child else none

-- `watcher_registration_t`
pub record Registration : Type 0 where
  pub object : WatcherObject
  pub checker : ℤ → Option Which
  pub path : List ℕ

-- A call of a watcher: its function and context, and what it is told.
pub record Call : Type 0 where
  pub object : WatcherObject
  pub type : ℤ
  pub state : ℤ
  pub path : List ℕ

unfoldable pub do_foreach_watcher :
    Option (List ℕ) → List WatcherObject → List ℕ → ℤ → ℤ → List Call
do_foreach_watcher chroot [] path type state = []
do_foreach_watcher chroot (wo ∷ next) path type state =
    let client_path = if type ==ℤ zoo_session_event then path else sub_string chroot path in
    record { object = wo; type = type; state = state; path = client_path }
    ∷ do_foreach_watcher chroot next path type state

module _ (H : HashTable string_hash_djb2 string_equal (List WatcherObject)) where
  -- The watchers of a handle: the default one, and the tables.
  pub record Watchers : Type 0 where
    pub default_watcher : WatcherObject
    pub active_node_watchers : HashTable.Table H
    pub active_exist_watchers : HashTable.Table H
    pub active_child_watchers : HashTable.Table H

  -- `hashtable_insert` of a list of one, or an addition behind the pointer that was found.
  unfoldable pub do_insert_watcher_object :
      HashTable.Table H → List ℕ → WatcherObject → HashTable.Table H
  do_insert_watcher_object ht path wo = elim (HashTable.search H ht path) [
    | none ↦ HashTable.insert H ht path (wo ∷ [])
    | some wl ↦ HashTable.assign H ht path (add_to_list wl wo false).wl
  ]

  abbrev pub insert_watcher_object : HashTable.Table H → List ℕ → WatcherObject → HashTable.Table H
  insert_watcher_object ht path wo = do_insert_watcher_object ht path wo

  unfoldable pub copy_table : HashTable.Table H → List WatcherObject → List WatcherObject
  copy_table from to = copy_values (HashTable.values H from) to

  unfoldable pub collect_session_watchers : Watchers → List WatcherObject → List WatcherObject
  collect_session_watchers zh list =
      let list1 = copy_table zh.active_node_watchers list in
      let list2 = copy_table zh.active_exist_watchers list1 in
      copy_table zh.active_child_watchers list2

  -- The table and the list after `add_for_event`.
  unfoldable pub add_for_event :
      HashTable.Table H → List ℕ → List WatcherObject → HashTable.Table H × List WatcherObject
  add_for_event ht path list = elim (HashTable.search H ht path) [
    | none ↦ (HashTable.remove H ht path, list)
    | some wl ↦ (HashTable.remove H ht path, (copy_watchers wl list false).wl)
  ]

  abbrev pub add_node : List ℕ → Watchers × List WatcherObject → Watchers × List WatcherObject
  add_node path (zh, list) =
      let (ht, list1) = add_for_event zh.active_node_watchers path list in
      (record zh { active_node_watchers = ht }, list1)

  abbrev pub add_exist : List ℕ → Watchers × List WatcherObject → Watchers × List WatcherObject
  add_exist path (zh, list) =
      let (ht, list1) = add_for_event zh.active_exist_watchers path list in
      (record zh { active_exist_watchers = ht }, list1)

  abbrev pub add_child : List ℕ → Watchers × List WatcherObject → Watchers × List WatcherObject
  add_child path (zh, list) =
      let (ht, list1) = add_for_event zh.active_child_watchers path list in
      (record zh { active_child_watchers = ht }, list1)

  unfoldable pub collect_watchers : Watchers → ℤ → List ℕ → Watchers × List WatcherObject
  collect_watchers zh type path =
      if type ==ℤ zoo_session_event
      then (zh, collect_session_watchers zh (add_to_list [] zh.default_watcher true).wl)
      else if type ==ℤ created_event || type ==ℤ changed_event
      then add_exist path (add_node path (zh, []))
      else if type ==ℤ child_event
      then add_child path (zh, [])
      else if type ==ℤ deleted_event
      then add_child path (add_exist path (add_node path (zh, [])))
      else (zh, [])

  abbrev pub deliver_watchers : Option (List ℕ) → ℤ → ℤ → List ℕ → List WatcherObject → List Call
  deliver_watchers chroot type state path list = do_foreach_watcher chroot list path type state

  unfoldable pub activate_watcher : Watchers → Option Registration → ℤ → Watchers
  activate_watcher zh none rc = zh
  activate_watcher zh (some reg) rc = elim (reg.checker rc) [
    | none ↦ zh
    | some node ↦ record zh {
      active_node_watchers = insert_watcher_object zh.active_node_watchers reg.path reg.object;
    }
    | some exist ↦ record zh {
      active_exist_watchers = insert_watcher_object zh.active_exist_watchers reg.path reg.object;
    }
    | some child ↦ record zh {
      active_child_watchers = insert_watcher_object zh.active_child_watchers reg.path reg.object;
    }
  ]
