-- ===== src/Client/Blocking.antt =====
-- zookeeper.c: the blocking functions of the API. Each makes an asynchronous request with
-- SYNCHRONOUS_MARKER and waits, if it was accepted, for the thread that reads the answers: what
-- `wait_sync_completion` leaves in the `sync_completion`, and of the handle, is an argument.
use elephants.Base.{
  ℕ, ◌≡◌, Bool, true, false, Option, none, some, List, ℤ, pos, ◌==ℤ◌, if◌then◌else◌,
}
use elephants.Watch.{WatcherObject}
use elephants.Frame.{zok, zsystemerror}
use elephants.Client.{synchronous_marker, Handle, Jute, Outcome, zbadarguments}
use elephants.Client.Requests.{
  Acl, Request, Ticket, default_or_none, zoo_awget, zoo_aset, zoo_acreate, zoo_adelete,
  zoo_awexists, zoo_awget_children, zoo_awget_children2, zoo_aget_acl, zoo_aset_acl,
}
use elephants.Client.Issue.{Call, issue, refusal, issue-refused}

-- `struct sync_completion`; `S` stands for the generated `struct Stat`.
pub record SyncCompletion (S : Type 0) : Type 0 where
  pub rc : ℤ
  pub stat : S
  pub buff_len : ℤ
  pub strs2 : List (List ℕ)
  pub acl : List Acl

module _ {S : Type 0} (jute : Jute Request) (outcome : Outcome) (ticket : Ticket) (alloc : Bool)
    (wait_sync_completion : Handle → SyncCompletion S × Handle) where
  -- The code, what the completion holds if it was waited for, and the handle.
  abbrev pub waited : ℤ × Option Handle → ℤ × Option (SyncCompletion S) × Option Handle
  waited (rc, none) = (rc, none, none)
  waited (rc, some zh) =
      let (sc, zh1) = wait_sync_completion zh in
      if rc ==ℤ zok then (sc.rc, some sc, some zh1) else (rc, none, some zh)

  -- `alloc_sync_completion`, the request, and the wait.
  unfoldable pub blocking :
      Option Handle
      → (Ticket → Option Handle → ℤ × Option Handle)
      → ℤ × Option (SyncCompletion S) × Option Handle
  blocking zh request =
      if alloc
      then waited (request (record ticket { dc = synchronous_marker }) zh)
      else (zsystemerror, none, zh)

  -- What is written through the pointers of the caller: nothing unless the code is 0.
  abbrev pub written :
      {A : Type 0}
      → (SyncCompletion S → A)
      → ℤ × Option (SyncCompletion S) × Option Handle
      → ℤ × Option A × Option Handle
  written f (rc, none, zh) = (rc, none, zh)
  written f (rc, some sc, zh) = (rc, if rc ==ℤ pos 0 then some (f sc) else none, zh)

  abbrev pub code_only : ℤ × Option (SyncCompletion S) × Option Handle → ℤ × Option Handle
  code_only (rc, sc, zh) = (rc, zh)

  abbrev pub if_wanted : {A : Type 0} → Bool → A → Option A
  if_wanted true a = some a
  if_wanted false a = none

  unfoldable pub zoo_create :
      Option Handle → List ℕ → List ℕ → Option (List Acl) → ℕ → ℤ × Option Handle
  unfolding blocking
  zoo_create zh path value acl flags =
      code_only (blocking zh (λ t z. zoo_acreate jute outcome t z path value acl flags))

  unfoldable pub zoo_delete : Option Handle → List ℕ → ℤ → ℤ × Option Handle
  unfolding blocking
  zoo_delete zh path version =
      code_only (blocking zh (λ t z. zoo_adelete jute outcome t z path version))

  -- The last argument of these says whether `stat`, `strings` or `acl` is not NULL.
  unfoldable pub zoo_wexists :
      Option Handle → List ℕ → WatcherObject → Bool → ℤ × Option (Option S) × Option Handle
  unfolding blocking
  zoo_wexists zh path wo stat =
      written (λ sc. if_wanted stat sc.stat)
        (blocking zh (λ t z. zoo_awexists jute outcome t z path wo))

  unfoldable pub zoo_exists : Handle → List ℕ → Bool → Bool → ℤ × Option (Option S) × Option Handle
  unfolding zoo_wexists
  zoo_exists zh path watch stat = zoo_wexists (some zh) path (default_or_none watch zh) stat

  -- `buffer_len` is none for NULL.
  unfoldable pub zoo_wget :
      Option Handle
      → List ℕ
      → WatcherObject
      → Option ℤ
      → Bool
      → ℤ × Option (Option S × ℤ) × Option Handle
  unfolding blocking
  zoo_wget zh path wo none stat = (zbadarguments, none, zh)
  zoo_wget zh path wo (some buffer_len) stat =
      written (λ sc. (if_wanted stat sc.stat, sc.buff_len))
        (blocking zh (λ t z. zoo_awget jute outcome t z path wo))

  unfoldable pub zoo_get :
      Handle → List ℕ → Bool → Option ℤ → Bool → ℤ × Option (Option S × ℤ) × Option Handle
  unfolding zoo_wget
  zoo_get zh path watch buffer_len stat =
      zoo_wget (some zh) path (default_or_none watch zh) buffer_len stat

  unfoldable pub zoo_set2 :
      Option Handle → List ℕ → List ℕ → ℤ → Bool → ℤ × Option (Option S) × Option Handle
  unfolding blocking
  zoo_set2 zh path buffer version stat =
      written (λ sc. if_wanted stat sc.stat)
        (blocking zh (λ t z. zoo_aset jute outcome t z path buffer version))

  unfoldable pub zoo_set :
      Option Handle → List ℕ → List ℕ → ℤ → ℤ × Option (Option S) × Option Handle
  unfolding zoo_set2
  zoo_set zh path buffer version = zoo_set2 zh path buffer version false

  unfoldable pub zoo_wget_children :
      Option Handle
      → List ℕ
      → WatcherObject
      → Bool
      → ℤ × Option (Option (List (List ℕ))) × Option Handle
  unfolding blocking
  zoo_wget_children zh path wo strings =
      written (λ sc. if_wanted strings sc.strs2)
        (blocking zh (λ t z. zoo_awget_children jute outcome t z path wo))

  unfoldable pub zoo_get_children :
      Handle → List ℕ → Bool → Bool → ℤ × Option (Option (List (List ℕ))) × Option Handle
  unfolding zoo_wget_children
  zoo_get_children zh path watch strings =
      zoo_wget_children (some zh) path (default_or_none watch zh) strings

  -- `stat` is written through without a test.
  unfoldable pub zoo_wget_children2 :
      Option Handle
      → List ℕ
      → WatcherObject
      → Bool
      → ℤ × Option (S × Option (List (List ℕ))) × Option Handle
  unfolding blocking
  zoo_wget_children2 zh path wo strings =
      written (λ sc. (sc.stat, if_wanted strings sc.strs2))
        (blocking zh (λ t z. zoo_awget_children2 jute outcome t z path wo))

  unfoldable pub zoo_get_children2 :
      Handle → List ℕ → Bool → Bool → ℤ × Option (S × Option (List (List ℕ))) × Option Handle
  unfolding zoo_wget_children2
  zoo_get_children2 zh path watch strings =
      zoo_wget_children2 (some zh) path (default_or_none watch zh) strings

  unfoldable pub zoo_get_acl :
      Option Handle
      → List ℕ
      → Bool
      → Bool
      → ℤ × Option (Option (List Acl) × Option S) × Option Handle
  unfolding blocking
  zoo_get_acl zh path acl stat =
      written (λ sc. (if_wanted acl sc.acl, if_wanted stat sc.stat))
        (blocking zh (λ t z. zoo_aget_acl jute outcome t z path))

  unfoldable pub zoo_set_acl : Option Handle → List ℕ → ℤ → List Acl → ℤ × Option Handle
  unfolding blocking
  zoo_set_acl zh path version acl =
      code_only (blocking zh (λ t z. zoo_aset_acl jute outcome t z path version acl))

  -- A blocking call whose request is refused, after its `sync_completion` was allocated, does not
  -- wait: whatever an answer would bring, it returns the error of the request, with nothing
  -- written for the caller and the handle as it was.
  pub blocking-refused :
      (zh : Handle) (call : Call)
      → alloc ≡ true
      → (refusal jute outcome (record ticket { dc = synchronous_marker }) zh call ==ℤ zok) ≡ false
      → blocking (some zh) (λ t z. issue jute outcome t z call)
        ≡ (refusal jute outcome (record ticket { dc = synchronous_marker }) zh call, none, some zh)
  unfolding blocking
  blocking-refused zh call allocated refused =
      let (null, e) =
        issue-refused jute outcome (record ticket { dc = synchronous_marker }) zh call refused in
      rw (allocated, e, refused)
