-- ===== src/Client.antt =====
-- zookeeper.c: the handle of a client and the queues that requests go through. A request that is
-- accepted leaves a completion in `sent_requests`, to be found when the server answers, and a packet
-- in `to_send`.
pub mod Requests
pub mod Accounts
pub mod Issue
pub mod Blocking
use elephants.Base.{
  ℕ, zero, suc, ◌+◌, ◌-◌, Bool, true, false, not, ◌&&◌, ◌||◌, Option, none, some, List, [], ◌∷◌,
  ◌++◌, ℤ, pos, negsuc, ◌==ℤ◌, is_neg, ◌==◌, if◌then◌else◌,
}
use elephants.ZnodePath.{prepend_string, is_valid_path}
use elephants.Wire.OArchive.{OArchive, get_buffer, get_buffer_len}
use elephants.Watch.{WatcherObject, Which, Registration}
use elephants.Frame.{Packet, Round, flush_send_queue, queue_buffer_bytes, zok, zsystemerror}

abbrev pub zmarshallingerror : ℤ
zmarshallingerror = negsuc 4

abbrev pub zbadarguments : ℤ
zbadarguments = negsuc 7

abbrev pub zinvalidstate : ℤ
zinvalidstate = negsuc 8

abbrev pub zoo_connected_state : ℤ
zoo_connected_state = pos 3

-- What a completion is: `SYNCHRONOUS_MARKER`, or a function of the application.
pub data Callback : Type 0 where
  synchronous_marker : Callback
  function : ℕ → Callback

abbrev pub is_marker : Callback → Bool
is_marker synchronous_marker = true
is_marker (function f) = false

pub data CompletionType : Type 0 where
  completion_void completion_stat completion_data completion_stringlist completion_stringlist_stat
        completion_acllist completion_string completion_watch :
      CompletionType

-- `completion_list_t`
pub record Completion : Type 0 where
  pub xid : ℤ
  pub type : CompletionType
  pub dc : Callback
  pub data_of : ℕ
  pub watcher : Option Registration

-- The parts of `zhandle_t` that requests use; `wire` is what has been sent on the socket.
pub record Handle : Type 0 where
  pub state : ℤ
  pub chroot : Option (List ℕ)
  pub watcher : WatcherObject
  pub close_requested : ℕ
  pub outstanding_sync : ℕ
  pub sent_requests : List Completion
  pub to_send : List Packet
  pub wire : List ℕ

-- Whether `calloc` succeeds for the completion, and for the packet.
pub record Memory : Type 0 where
  pub completion : Bool
  pub packet : Bool

unfoldable pub is_unrecoverable : Handle → ℤ
is_unrecoverable zh = if is_neg zh.state then zinvalidstate else zok

unfoldable pub create_watcher_registration :
    List ℕ → (ℤ → Option Which) → WatcherObject → Option Registration
create_watcher_registration path checker wo =
    if wo.watcher == 0 then none else some (record { object = wo; checker = checker; path = path })

unfoldable pub create_completion_entry :
    Bool → ℤ → CompletionType → Callback → ℕ → Option Registration → Option Completion
create_completion_entry false xid type dc data_of wo = none
create_completion_entry true xid type dc data_of wo =
    some (record { xid = xid; type = type; dc = dc; data_of = data_of; watcher = wo })

unfoldable pub queue_completion_nolock : List Completion → Completion → Bool → List Completion
queue_completion_nolock [] c add_to_front = c ∷ []
queue_completion_nolock (head ∷ list) c add_to_front =
    if add_to_front then c ∷ head ∷ list else (head ∷ list) ++ c ∷ []

unfoldable pub add_completion :
    Bool → Handle → ℤ → CompletionType → Callback → ℕ → Bool → Option Registration → ℤ × Handle
unfolding create_completion_entry queue_completion_nolock
add_completion calloc zh xid type dc data_of add_to_front wo =
    elim (create_completion_entry calloc xid type dc data_of wo) [
      | none ↦ (zsystemerror, zh)
      | some c ↦
          if not (zh.close_requested == 1)
          then (
            zok,
            record zh {
              sent_requests = queue_completion_nolock zh.sent_requests c add_to_front;
              outstanding_sync =
                  if is_marker dc then zh.outstanding_sync + 1 else zh.outstanding_sync;
            },
          )
          else (zinvalidstate, zh)
    ]

-- The adaptors: with threads the IO thread is woken, unless the handle is being closed; without
-- them the queue is flushed, in the rounds that are given.
pub data Adaptor : Type 0 where
  threaded single : Adaptor

abbrev pub flushed : Handle → Option (ℤ × List ℕ × List Packet) → Handle
flushed zh none = zh
flushed zh (some (rc, out, queue)) = record zh { to_send = queue; wire = zh.wire ++ out }

unfoldable pub adaptor_send_queue : Adaptor → List Round → Handle → Handle
adaptor_send_queue adaptor rounds zh =
    let flush =
      flushed zh (flush_send_queue (zh.state ==ℤ zoo_connected_state) (pos 0) rounds zh.to_send) in
    elim adaptor [ single ↦ flush | threaded ↦ if zh.close_requested == 0 then zh else flush ]

abbrev pub bytes_of : Option (List ℕ) → List ℕ
bytes_of none = []
bytes_of (some b) = b

-- The functions that jute generates from zookeeper.jute, for the bodies of requests of a type `R`:
-- they append to an archive and return its code.
pub record Jute (R : Type 0) : Type 0 where
  pub serialize_request_header : OArchive → ℤ → ℤ → ℤ × OArchive
  pub serialize_request : OArchive → R → ℤ × OArchive

-- `rc = rc < 0 ? rc : ...`
abbrev pub unless_failed {ℓ} : {S : Type ℓ} → ℤ × S → (S → ℤ × S) → ℤ × S
unless_failed (rc, s) f = if is_neg rc then (rc, s) else f s

-- What a request is besides its body: the archive to write in, the number, the operation, and the
-- completion.
pub record Submission (R : Type 0) : Type 0 where
  pub oa : OArchive
  pub xid : ℤ
  pub op : ℤ
  pub body : R
  pub type : CompletionType
  pub dc : Callback
  pub data_of : ℕ
  pub watcher : Option Registration

-- How a request ends: what memory there is, and what becomes of the queue afterwards.
pub record Outcome : Type 0 where
  pub memory : Memory
  pub adaptor : Adaptor
  pub rounds : List Round

-- `queue_buffer_bytes(&zh->to_send, get_buffer(oa), get_buffer_len(oa))`
unfoldable pub queue_packet : Bool → List ℕ → ℕ → Handle → ℤ × Handle
unfolding queue_buffer_bytes
queue_packet calloc buffer len zh =
    let (rc, queue) = queue_buffer_bytes calloc zh.to_send buffer len in
    (rc, record zh { to_send = queue })

unfoldable pub add_request :
    Memory
    → Handle
    → ℤ
    → CompletionType
    → Callback
    → ℕ
    → Option Registration
    → List ℕ
    → ℕ
    → ℤ × Handle
unfolding add_completion queue_packet
add_request memory zh xid type dc data_of wo buffer len =
    unless_failed (add_completion memory.completion zh xid type dc data_of false wo)
      (queue_packet memory.packet buffer len)

abbrev pub serialized : {R : Type 0} → Jute R → Submission R → ℤ × OArchive
serialized jute s =
    unless_failed (Jute.serialize_request_header jute s.oa s.xid s.op)
      (λ oa. Jute.serialize_request jute oa s.body)

-- The part that all requests share, from `serialize_RequestHeader` to the end.
unfoldable pub submit : {R : Type 0} → Jute R → Outcome → Submission R → Handle → ℤ × Handle
unfolding add_request get_buffer get_buffer_len adaptor_send_queue
submit jute outcome s zh =
    let (rc, oa) = serialized jute s in
    let (rc1, zh1) =
      if is_neg rc
      then (rc, zh)
      else add_request outcome.memory zh s.xid s.type s.dc s.data_of s.watcher
          (bytes_of (get_buffer oa)) (get_buffer_len oa) in
    (
      if is_neg rc1 then zmarshallingerror else zok,
      adaptor_send_queue outcome.adaptor outcome.rounds zh1,
    )

-- `Request_path_init`, and what is done with the path where it returns ZOK; no handle is NULL.
unfoldable pub request_path_init : Option Handle → ℕ → List ℕ → ℤ × List ℕ
unfolding prepend_string is_valid_path is_unrecoverable
request_path_init none flags path = (zbadarguments, path)
request_path_init (some zh) flags path =
    let server_path = prepend_string zh.chroot path in
    if not (is_valid_path (some server_path) flags)
    then (zbadarguments, server_path)
    else (is_unrecoverable zh, server_path)

abbrev pub with_path :
    Option Handle → ℕ → List ℕ → (List ℕ → Handle → ℤ × Handle) → ℤ × Option Handle
with_path none flags path f = ((request_path_init none flags path).0, none)
with_path (some zh) flags path f =
    let (rc, server_path) = request_path_init (some zh) flags path in
    if rc ==ℤ zok then (let (rc1, zh1) = f server_path zh in (rc1, some zh1)) else (rc, some zh)
