-- ===== src/Session.antt =====
-- zookeeper.c: the session of a handle, which the IO thread runs: what the server has sent, what
-- becomes of the completions that wait for it, and the errors that end a connection. The functions
-- that jute generates for replies are a parameter; small allocations are taken to succeed. What a
-- function of the application does when it is called is not part of the model: the call is recorded.
pub mod Time
pub mod Handshake
pub mod Sync
pub mod Send
pub mod Connect
pub mod Interest
pub mod Auth
pub mod Complete
pub mod Close
pub mod Process
use elephants.Base.{
  ℕ, zero, suc, ◌+◌, ◌-◌, Bool, true, false, Option, none, some, List, [], ◌∷◌, ◌++◌, ℤ, pos,
  negsuc, ◌==ℤ◌, is_neg, ◌==◌, length, if◌then◌else◌,
}
use elephants.Wire.IArchive.{IArchive}
use elephants.Watch.{string_hash_djb2, string_equal, WatcherObject, Watchers, Registration, Call}
use elephants.Watch.Table.{HashTable}
use elephants.Frame.{Incoming}
use elephants.Client.{Completion, CompletionType, Callback, Handle}

-- The numbers that no request has.
abbrev pub watcher_event_xid : ℤ
watcher_event_xid = negsuc 0

abbrev pub ping_xid : ℤ
ping_xid = negsuc 1

abbrev pub auth_xid : ℤ
auth_xid = negsuc 3

abbrev pub set_watches_xid : ℤ
set_watches_xid = negsuc 7

-- The numbers of the states besides CONNECTED.
abbrev pub zoo_connecting_state : ℤ
zoo_connecting_state = pos 1

abbrev pub zoo_associating_state : ℤ
zoo_associating_state = pos 2

abbrev pub zoo_expired_session_state : ℤ
zoo_expired_session_state = negsuc 111

abbrev pub zoo_auth_failed_state : ℤ
zoo_auth_failed_state = negsuc 112

abbrev pub zruntimeinconsistency : ℤ
zruntimeinconsistency = negsuc 1

abbrev pub zauthfailed : ℤ
zauthfailed = negsuc 114

abbrev pub zclosing : ℤ
zclosing = negsuc 115

pub record ReplyHeader : Type 0 where
  pub xid : ℤ
  pub zxid : ℤ
  pub err : ℤ

pub record WatcherEvent : Type 0 where
  pub type : ℤ
  pub state : ℤ
  pub path : List ℕ

-- The generated functions for replies, `A` being what a reply holds; their codes are not tested. The
-- two that write give the bytes of a new archive.
pub record Replies (A : Type 0) : Type 0 where
  pub deserialize_reply_header : IArchive → ReplyHeader × IArchive
  pub deserialize_watcher_event : IArchive → WatcherEvent × IArchive
  pub deserialize_reply : CompletionType → IArchive → A
  pub serialize_reply_header : ReplyHeader → List ℕ
  pub serialize_watcher_event : ReplyHeader → WatcherEvent → List ℕ

-- An entry of `completions_to_process`: `completion_list_t` with its `buffer` and, for an event, the
-- watchers that it reaches.
pub record Ready : Type 0 where
  pub completion : Completion
  pub buffer : List ℕ
  pub watcher_result : List WatcherObject

-- `auth_info`; a completion of 0 is NULL.
pub record AuthInfo : Type 0 where
  pub state : ℕ
  pub scheme : List ℕ
  pub auth : List ℕ
  pub completion : ℕ
  pub data_of : ℕ

-- A caller that is woken: its `sync_completion`, the code, and what the reply holds.
pub record Notified (A : Type 0) : Type 0 where
  pub sc : ℕ
  pub rc : ℤ
  pub reply : Option A

-- A call of a function of the application.
pub data Called (A : Type 0) : Type 0 where
  watcher_called : Call → Called A
  completion_called : Callback → ℤ → Option A → ℕ → Called A
  auth_called : ℕ → ℤ → ℕ → Called A

-- `struct timeval`
pub record Timeval : Type 0 where
  pub tv_sec : ℤ
  pub tv_usec : ℤ

-- The part of `zhandle_t` that concerns the connection to a server and its session. `client_id` and
-- `passwd` are the `clientid_t`.
pub record Link : Type 0 where
  pub addrs_count : ℕ
  pub recv_timeout : ℤ
  pub client_id : ℤ
  pub passwd : List ℕ
  pub last_recv : Timeval
  pub last_send : Timeval
  pub last_ping : Timeval
  pub next_deadline : Timeval

-- The buffer that is being received: one of its own, or that of the handshake.
pub data Input : Type 0 where
  packet_input : Incoming → Input
  primer_input : Incoming → Input

module _ (H : HashTable string_hash_djb2 string_equal (List WatcherObject)) (A : Type 0) where
  -- `zhandle_t` with what the IO thread uses; `notified` and `called` are what it has done,
  -- and `freed` says that the handle is gone.
  pub record Session : Type 0 where
    pub client : Handle
    pub active_node_watchers : HashTable.Table H
    pub active_exist_watchers : HashTable.Table H
    pub active_child_watchers : HashTable.Table H
    pub fd : ℤ
    pub connect_index : ℕ
    pub link : Link
    pub ref_counter : ℤ
    pub last_zxid : ℤ
    pub input_buffer : Option Input
    pub to_process : List Incoming
    pub completions_to_process : List Ready
    pub auth_h : List AuthInfo
    pub notified : List (Notified A)
    pub called : List (Called A)
    pub freed : Bool

  -- The watchers of a handle, as zk_hashtable.c sees them.
  abbrev pub watchers_of : Session → Watchers H
  watchers_of zh = record {
    default_watcher = zh.client.watcher;
    active_node_watchers = zh.active_node_watchers;
    active_exist_watchers = zh.active_exist_watchers;
    active_child_watchers = zh.active_child_watchers;
  }

  abbrev pub with_watchers : Session → Watchers H → Session
  with_watchers zh ws = record zh {
    active_node_watchers = ws.active_node_watchers;
    active_exist_watchers = ws.active_exist_watchers;
    active_child_watchers = ws.active_child_watchers;
  }

  abbrev pub set_state : Session → ℤ → Session
  set_state zh state = record zh { client = record zh.client { state = state } }
