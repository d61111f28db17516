-- ===== src/Client/Requests.antt =====
-- zookeeper.c: the asynchronous functions of the API, one for each kind of request.
use elephants.Base.{ℕ, Bool, not, Option, none, some, List, [], ℤ, pos, ◌==◌, if◌then◌else◌}
use elephants.Wire.OArchive.{OArchive}
use elephants.Watch.{
  WatcherObject, Registration, data_result_checker, exists_result_checker, child_result_checker,
}
use elephants.Client.{
  Callback, CompletionType, completion_void, completion_stat, completion_data,
  completion_stringlist, completion_stringlist_stat, completion_acllist, completion_string, Handle,
  Jute, Outcome, submit, with_path, create_watcher_registration,
}

-- `struct ACL`: the permissions, and the scheme and the name of an identity.
pub record Acl : Type 0 where
  pub perms : ℤ
  pub scheme : List ℕ
  pub id : List ℕ

-- The bodies of the requests, with the path on the server first.
pub data Request : Type 0 where
  get_data_request : List ℕ → Bool → Request
  set_data_request : List ℕ → List ℕ → ℤ → Request
  create_request : List ℕ → List ℕ → List Acl → ℕ → Request
  delete_request : List ℕ → ℤ → Request
  exists_request : List ℕ → Bool → Request
  get_children_request : List ℕ → Bool → Request
  get_children2_request : List ℕ → Bool → Request
  sync_request : List ℕ → Request
  get_acl_request : List ℕ → Request
  set_acl_request : List ℕ → List Acl → ℤ → Request

abbrev pub is_set : WatcherObject → Bool
is_set wo = not (wo.watcher == 0)

-- What the caller of every function gives: the archive and the number of the request, the function
-- and the data of its completion.
pub record Ticket : Type 0 where
  pub oa : OArchive
  pub xid : ℤ
  pub dc : Callback
  pub data_of : ℕ

-- `watch ? zh->watcher : 0, zh->context`; `zh` is read without a test.
abbrev pub default_or_none : Bool → Handle → WatcherObject
default_or_none watch zh = record {
  watcher = if watch then zh.watcher.watcher else 0;
  context = zh.watcher.context;
}

-- `acl_entries == 0` stands for no entries.
abbrev pub acl_or_none : Option (List Acl) → List Acl
acl_or_none none = []
acl_or_none (some acl) = acl

module _ (jute : Jute Request) (outcome : Outcome) (t : Ticket) where
  abbrev pub send_request : ℤ → Request → CompletionType → Option Registration → Handle → ℤ × Handle
  send_request op body type wo zh =
      submit jute outcome
        (record {
          oa = t.oa;
          xid = t.xid;
          op = op;
          body = body;
          type = type;
          dc = t.dc;
          data_of = t.data_of;
          watcher = wo;
        })
        zh

  unfoldable pub zoo_awget : Option Handle → List ℕ → WatcherObject → ℤ × Option Handle
  zoo_awget zh path wo = with_path zh 0 path (λ p.
      send_request (pos 4) (get_data_request p (is_set wo)) completion_data
        (create_watcher_registration p data_result_checker wo))

  unfoldable pub zoo_aget : Handle → List ℕ → Bool → ℤ × Option Handle
  zoo_aget zh path watch = zoo_awget (some zh) path (default_or_none watch zh)

  -- The marshalling, a parameter, writes the length of the data with it, -1 for none.
  unfoldable pub zoo_aset : Option Handle → List ℕ → List ℕ → ℤ → ℤ × Option Handle
  zoo_aset zh path buffer version =
      with_path zh 0 path
        (λ p. send_request (pos 5) (set_data_request p buffer version) completion_stat none)

  unfoldable pub zoo_acreate :
      Option Handle → List ℕ → List ℕ → Option (List Acl) → ℕ → ℤ × Option Handle
  zoo_acreate zh path value acl_entries flags = with_path zh flags path (λ p.
      send_request (pos 1) (create_request p value (acl_or_none acl_entries) flags)
        completion_string none)

  unfoldable pub zoo_adelete : Option Handle → List ℕ → ℤ → ℤ × Option Handle
  zoo_adelete zh path version =
      with_path zh 0 path
        (λ p. send_request (pos 2) (delete_request p version) completion_void none)

  unfoldable pub zoo_awexists : Option Handle → List ℕ → WatcherObject → ℤ × Option Handle
  zoo_awexists zh path wo = with_path zh 0 path (λ p.
      send_request (pos 3) (exists_request p (is_set wo)) completion_stat
        (create_watcher_registration p exists_result_checker wo))

  unfoldable pub zoo_aexists : Handle → List ℕ → Bool → ℤ × Option Handle
  zoo_aexists zh path watch = zoo_awexists (some zh) path (default_or_none watch zh)

  unfoldable pub zoo_awget_children : Option Handle → List ℕ → WatcherObject → ℤ × Option Handle
  zoo_awget_children zh path wo = with_path zh 0 path (λ p.
      send_request (pos 8) (get_children_request p (is_set wo)) completion_stringlist
        (create_watcher_registration p child_result_checker wo))

  unfoldable pub zoo_aget_children : Handle → List ℕ → Bool → ℤ × Option Handle
  zoo_aget_children zh path watch = zoo_awget_children (some zh) path (default_or_none watch zh)

  unfoldable pub zoo_awget_children2 : Option Handle → List ℕ → WatcherObject → ℤ × Option Handle
  zoo_awget_children2 zh path wo = with_path zh 0 path (λ p.
      send_request (pos 12) (get_children2_request p (is_set wo)) completion_stringlist_stat
        (create_watcher_registration p child_result_checker wo))

  unfoldable pub zoo_aget_children2 : Handle → List ℕ → Bool → ℤ × Option Handle
  zoo_aget_children2 zh path watch = zoo_awget_children2 (some zh) path (default_or_none watch zh)

  unfoldable pub zoo_async : Option Handle → List ℕ → ℤ × Option Handle
  zoo_async zh path =
      with_path zh 0 path (λ p. send_request (pos 9) (sync_request p) completion_string none)

  unfoldable pub zoo_aget_acl : Option Handle → List ℕ → ℤ × Option Handle
  zoo_aget_acl zh path =
      with_path zh 0 path (λ p. send_request (pos 6) (get_acl_request p) completion_acllist none)

  unfoldable pub zoo_aset_acl : Option Handle → List ℕ → ℤ → List Acl → ℤ × Option Handle
  zoo_aset_acl zh path version acl =
      with_path zh 0 path
        (λ p. send_request (pos 7) (set_acl_request p acl version) completion_void none)
