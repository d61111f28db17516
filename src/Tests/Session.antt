-- ===== src/Tests/Session.antt =====
-- Concrete inputs at which the theorems on sessions apply.
use elephants.Base.{
  length, ℕ, ◌-◌, ◌≡◌, refl, true, false, none, some, List, [], ◌∷◌, ◌++◌, ℤ, pos, negsuc, map,
  ◌==ℤ◌, if◌then◌else◌,
}
use elephants.Tests.Table.{assoc_table}
use elephants.Watch.{WatcherObject}
use elephants.Frame.{Incoming, up_to, would_block}
use elephants.Client.{
  Completion, Handle, synchronous_marker, function, completion_stat, completion_void, threaded,
  single,
}
use elephants.Client.Accounts.{count_markers}
use elephants.Session.{
  Timeval, Link, Session, Replies, zruntimeinconsistency, zoo_auth_failed_state,
}
use elephants.Session.Auth.{pending_auth}
use elephants.Session.Close.{Closing}
use elephants.Session.Send.{Writers}
use elephants.Session.Connect.{Events}
use elephants.Session.Complete.{
  error_event, call_auth, auth_completion_func, handle_error, free_completions,
}
use elephants.Session.Complete.Delivered.{IsDelivered}
use elephants.Session.Complete.Failure.{
  IsFailed, callers, fakes, state_after, free_completions-IsFailed, handle_error-client,
}
use elephants.Session.Complete.Authenticated.{auth_completion_func-once}
use elephants.Session.Process.{goes_on, returns, process_reply, process_packets, zookeeper_process}
use elephants.Session.Process.Order.{
  packets, all_woken, all_queued, IsAfter, process_packets-IsAfter,
}
use elephants.Session.Process.Accounts.{
  IsProcessed, process_reply-out_of_order, zookeeper_process-IsCounted,
}

-- A reply of three bytes: its xid, its zxid and its error; it holds its length.
abbrev pub byte : List ℕ → ℤ
byte [] = pos 0
byte (b ∷ bytes) = pos b

abbrev pub tail : List ℕ → List ℕ
tail [] = []
tail (b ∷ bytes) = bytes

abbrev pub byte_replies : Replies ℕ
byte_replies = record {
  deserialize_reply_header = λ ia. (
    record {
      xid = byte ia.buffer;
      zxid = byte (tail ia.buffer);
      err = byte (tail (tail ia.buffer));
    },
    ia,
  );
  deserialize_watcher_event = λ ia. (record { type = pos 0; state = pos 0; path = [] }, ia);
  deserialize_reply = λ type ia. ia.len;
  serialize_reply_header = λ hdr. 0 ∷ 0 ∷ 0 ∷ [];
  serialize_watcher_event = λ hdr evt. 0 ∷ 0 ∷ 0 ∷ [];
}

abbrev pub no_closing : Closing
no_closing = record { serialized = (pos 0, []); len = 0; calloc = true; rounds = [] }

abbrev pub some_watcher : WatcherObject
some_watcher = record { watcher = 7; context = 8 }

-- A caller that is blocked, and a function that is called.
abbrev pub blocked_request : Completion
blocked_request = record {
  xid = pos 4;
  type = completion_stat;
  dc = synchronous_marker;
  data_of = 11;
  watcher = none;
}

abbrev pub queued_request : Completion
queued_request = record {
  xid = pos 5;
  type = completion_void;
  dc = function 9;
  data_of = 12;
  watcher = none;
}

abbrev pub last_request : Completion
last_request = record {
  xid = pos 6;
  type = completion_stat;
  dc = synchronous_marker;
  data_of = 13;
  watcher = none;
}

abbrev pub packet : List ℕ → Incoming
packet bytes = record { image = []; buffer = some bytes; curr_offset = 7 }

abbrev pub connected : Handle
connected = record {
  state = pos 3;
  chroot = none;
  watcher = some_watcher;
  close_requested = 0;
  outstanding_sync = 2;
  sent_requests = blocked_request ∷ queued_request ∷ last_request ∷ [];
  to_send = [];
  wire = [];
}

abbrev pub first_packet : Incoming
first_packet = packet (4 ∷ 1 ∷ 0 ∷ [])

abbrev pub second_packet : Incoming
second_packet = packet (5 ∷ 2 ∷ 0 ∷ [])

abbrev pub sixteen : List ℕ
sixteen = 1 ∷ 2 ∷ 3 ∷ 4 ∷ 5 ∷ 6 ∷ 7 ∷ 8 ∷ 9 ∷ 10 ∷ 11 ∷ 12 ∷ 13 ∷ 14 ∷ 15 ∷ 16 ∷ []

abbrev pub noon : Timeval
noon = record { tv_sec = pos 43200; tv_usec = pos 250000 }

abbrev pub link : Link
link = record {
  addrs_count = 2;
  recv_timeout = pos 30000;
  client_id = pos 99;
  passwd = sixteen;
  last_recv = noon;
  last_send = noon;
  last_ping = noon;
  next_deadline = noon;
}

abbrev pub session : Session assoc_table ℕ
session = record {
  client = connected;
  active_node_watchers = [];
  active_exist_watchers = [];
  active_child_watchers = [];
  fd = pos 10;
  connect_index = 0;
  link = link;
  ref_counter = pos 0;
  last_zxid = pos 0;
  input_buffer = none;
  to_process = first_packet ∷ second_packet ∷ [];
  completions_to_process = [];
  auth_h = record { state = 0; scheme = []; auth = []; completion = 21; data_of = 22 } ∷ [];
  notified = [];
  called = [];
  freed = false;
}

abbrev pub pairs : List (Completion × Incoming)
pairs = (blocked_request, first_packet) ∷ (queued_request, second_packet) ∷ []

process_packets-IsAfter_example :
    (zh' : Session assoc_table ℕ) × (process_packets assoc_table byte_replies threaded no_closing
        session
        (packets assoc_table byte_replies threaded no_closing pairs)
      ≡ goes_on zh')
    × IsAfter assoc_table byte_replies threaded no_closing zh'
        (last_request ∷ [])
        (session.notified ++ all_woken assoc_table byte_replies threaded no_closing pairs)
        (session.completions_to_process
          ++ all_queued assoc_table byte_replies threaded no_closing pairs)
process_packets-IsAfter_example =
    process_packets-IsAfter assoc_table byte_replies threaded no_closing session pairs
      (last_request ∷ []) refl ((refl, refl, refl, refl), ((refl, refl, refl, refl), tt))

free_completions-IsFailed_example :
    IsFailed assoc_table byte_replies threaded
      (negsuc 3)
      (record session { client = record connected { sent_requests = [] } })
      connected.sent_requests
      (free_completions assoc_table byte_replies threaded true (negsuc 3) session)
free_completions-IsFailed_example =
    free_completions-IsFailed assoc_table byte_replies threaded (negsuc 3) session

abbrev pub no_writers : Writers
no_writers = record {
  set_watches = λ zxid nodes exists children. (pos 0, [], 0);
  auth_packet = λ scheme auth. (pos 0, auth, length auth);
  ping = (pos 0, [], 0);
}

-- A packet that begins to arrive.
abbrev pub arrival : Events
arrival = record {
  writable = false;
  readable = true;
  so_error = false;
  hlen_send = up_to 4;
  req_send = up_to 44;
  rounds = [];
  sent_at = noon;
  header = up_to 2;
  body = would_block;
  stream = 0 ∷ 0 ∷ [];
  recv_at = noon;
  packet_calloc = λ n. true;
  recv_calloc = λ n. true;
}

zookeeper_process-IsCounted_example : IsProcessed assoc_table byte_replies threaded no_closing (
    zookeeper_process assoc_table byte_replies threaded no_closing no_writers true arrival
      (some session))
zookeeper_process-IsCounted_example =
    zookeeper_process-IsCounted assoc_table byte_replies threaded no_closing no_writers true arrival
      session refl

process_reply-out_of_order_example :
    (after : Session assoc_table ℕ) × (process_reply assoc_table byte_replies single no_closing
        session
        (record { xid = pos 5; zxid = pos 1; err = pos 0 })
        (record { len = 7; off = 0; buffer = [] })
        []
      ≡ returns zruntimeinconsistency after)
    × (after.client.sent_requests ≡ [])
    × (after.notified
        ≡ session.notified
          ++ callers assoc_table byte_replies single zruntimeinconsistency connected.sent_requests)
    × IsDelivered assoc_table byte_replies single zruntimeinconsistency
        (error_event assoc_table byte_replies single session)
        (fakes assoc_table byte_replies single zruntimeinconsistency connected.sent_requests)
        after
    × (after.ref_counter ≡ session.ref_counter)
process_reply-out_of_order_example =
    process_reply-out_of_order assoc_table byte_replies single no_closing session
      (record { xid = pos 5; zxid = pos 1; err = pos 0 }) (record { len = 7; off = 0; buffer = [] })
      [] blocked_request (queued_request ∷ last_request ∷ []) refl refl

auth_completion_func-once_example :
    ((auth_completion_func assoc_table byte_replies single (negsuc 3) session).called
      ≡ session.called
        ++ map (call_auth assoc_table byte_replies single (negsuc 3)) (pending_auth session.auth_h))
    × (pending_auth (auth_completion_func assoc_table byte_replies single (negsuc 3) session).auth_h
        ≡ [])
    × ((auth_completion_func assoc_table byte_replies single (negsuc 3) session).client.state
        ≡ (if negsuc 3 ==ℤ pos 0 then session.client.state else zoo_auth_failed_state))
auth_completion_func-once_example =
    auth_completion_func-once assoc_table byte_replies single (negsuc 3) session

handle_error-client_example :
    ((handle_error assoc_table byte_replies single session (negsuc 3)).client ≡ record connected {
      state = state_after assoc_table byte_replies single (negsuc 3) (pos 3);
      to_send = [];
      sent_requests = [];
      outstanding_sync = connected.outstanding_sync - count_markers connected.sent_requests;
    })
    × ((handle_error assoc_table byte_replies single session (negsuc 3)).notified
        ≡ session.notified
          ++ callers assoc_table byte_replies single (negsuc 3) connected.sent_requests)
    × ((handle_error assoc_table byte_replies single session (negsuc 3)).ref_counter
        ≡ session.ref_counter)
handle_error-client_example = handle_error-client assoc_table byte_replies single (negsuc 3) session
