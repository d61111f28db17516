-- ===== src/Session/Complete.antt =====
-- zookeeper.c: what becomes of completions when a reply is there or the connection is lost, and the
-- calls of the application that follow.
pub mod Failure
pub mod Delivered
pub mod Counted
pub mod Authenticated
use elephants.Base.{
  ℕ, zero, suc, ◌+◌, ◌-◌, Bool, true, false, not, ◌&&◌, Option, none, some, List, [], ◌∷◌, ◌++◌,
  map, ℤ, pos, negsuc, ◌==ℤ◌, is_neg, ◌==◌, length, if◌then◌else◌,
}
use elephants.Wire.IArchive.{IArchive}
use elephants.Watch.{
  string_hash_djb2, string_equal, WatcherObject, Call, collect_watchers, deliver_watchers,
  zoo_session_event,
}
use elephants.Watch.Table.{HashTable}
use elephants.Frame.{Incoming}
use elephants.Client.{
  Completion, CompletionType, Callback, synchronous_marker, function, completion_void,
  completion_watch, is_marker, Handle, Adaptor, threaded, single, is_unrecoverable,
  queue_completion_nolock, zoo_connected_state,
}
use elephants.Session.{
  Session, Ready, Replies, ReplyHeader, WatcherEvent, AuthInfo, Notified, Called, watcher_called,
  completion_called, auth_called, Input, packet_input, primer_input, watchers_of, with_watchers,
  set_state, watcher_event_xid, ping_xid, zoo_connecting_state, zoo_auth_failed_state, zclosing,
}
use elephants.Session.Auth.{get_auth_completions, mark_active_auth}

-- An archive over a buffer and a length that is told of it.
abbrev pub archive : List ℕ → ℕ → IArchive
archive buffer len = record { len = len; off = 0; buffer = buffer }

-- The call of the function that has no completion: `queue_completion` of a list that is not the
-- handle's, at its end.
abbrev pub queue_ready : List Ready → Ready → List Ready
queue_ready list c = list ++ c ∷ []

-- The adaptors: with threads another thread processes completions.
unfoldable pub process_async : Adaptor → ℕ → Bool
process_async threaded outstanding_sync = false
process_async single outstanding_sync = outstanding_sync == 0

module _ {A : Type 0} (H : HashTable string_hash_djb2 string_equal (List WatcherObject))
    (replies : Replies A) (adaptor : Adaptor) where
  abbrev pub call_auth : ℤ → ℕ × ℕ → Called A
  call_auth rc (completion, data_of) = auth_called completion rc data_of

  abbrev pub fake_reply : ℤ → Completion → Ready
  fake_reply reason c = record {
    completion = c;
    buffer =
        Replies.serialize_reply_header replies
          (record { xid = c.xid; zxid = negsuc 0; err = reason });
    watcher_result = [];
  }

  -- The body of the loop of `free_completions`. An `int` counts `outstanding_sync`; here it stops
  -- at 0. Without `callCompletion` the entry of an asynchronous request is dropped and never
  -- freed.
  unfoldable pub free_completion : Bool → ℤ → Session H A → Completion → Session H A
  free_completion call_completion reason zh c =
      if is_marker c.dc
      then record zh {
        client = record zh.client { outstanding_sync = zh.client.outstanding_sync - 1 };
        notified = zh.notified ++ record { sc = c.data_of; rc = reason; reply = none } ∷ [];
      }
      else if not call_completion
      then zh
      else if c.xid ==ℤ ping_xid
      then zh
      else record zh {
        completions_to_process = queue_ready zh.completions_to_process (fake_reply reason c);
      }

  unfoldable pub free_all : Bool → ℤ → List Completion → Session H A → Session H A
  unfolding free_completion
  free_all call_completion reason [] zh = zh
  free_all call_completion reason (c ∷ list) zh =
      free_all call_completion reason list (free_completion call_completion reason zh c)

  -- The completions of authentication data are called, each once.
  unfoldable pub call_auth_completions : ℤ → Session H A → Session H A
  unfolding get_auth_completions
  call_auth_completions reason zh =
      let (auth_h, a_list) = get_auth_completions zh.auth_h [] in
      record zh { auth_h = auth_h; called = zh.called ++ map (call_auth reason) a_list }

  unfoldable pub free_completions : Bool → ℤ → Session H A → Session H A
  unfolding free_all call_auth_completions
  free_completions call_completion reason zh = call_auth_completions reason (
      free_all call_completion reason zh.client.sent_requests
        (record zh { client = record zh.client { sent_requests = [] } }))

  -- `input_buffer` is freed unless it is the primer.
  abbrev pub kept_input : Option Input → Option Input
  kept_input none = none
  kept_input (some (packet_input buff)) = none
  kept_input (some (primer_input buff)) = some (primer_input buff)

  unfoldable pub cleanup_bufs : Bool → ℤ → Session H A → Session H A
  unfolding free_completions
  cleanup_bufs call_completion rc zh =
      let emptied : Session H A = record zh {
        client = record zh.client { to_send = [] };
        to_process = [];
      } in
      let freed = free_completions call_completion rc emptied in
      record freed { input_buffer = kept_input freed.input_buffer }

  -- What one entry calls: the watchers of an event, or the function of a completion. A ping calls
  -- none; a failed reply is not read.
  unfoldable pub deserialize_response :
      CompletionType → ℤ → Bool → ℤ → Completion → IArchive → List (Called A)
  deserialize_response completion_void xid failed rc cptr ia =
      if xid ==ℤ ping_xid then [] else completion_called cptr.dc rc none cptr.data_of ∷ []
  deserialize_response completion_watch xid failed rc cptr ia = []
  deserialize_response type xid failed rc cptr ia =
      completion_called cptr.dc rc
        (if failed then none else some (Replies.deserialize_reply replies type ia)) cptr.data_of
      ∷ []

  -- What `process_sync_completion` reads of an answer without an error.
  abbrev pub sync_reply : CompletionType → IArchive → Option A
  sync_reply completion_void ia = none
  sync_reply completion_watch ia = none
  sync_reply type ia = some (Replies.deserialize_reply replies type ia)

  abbrev pub watcher_calls : List Call → List (Called A)
  watcher_calls [] = []
  watcher_calls (c ∷ calls) = watcher_called c ∷ watcher_calls calls

  unfoldable pub process_completion : Option (List ℕ) → Ready → List (Called A)
  unfolding deserialize_response
  process_completion chroot cptr =
      let (hdr, ia) =
        Replies.deserialize_reply_header replies (archive cptr.buffer (length cptr.buffer)) in
      if hdr.xid ==ℤ watcher_event_xid
      then (let (evt, rest) = Replies.deserialize_watcher_event replies ia in
          watcher_calls (deliver_watchers H chroot evt.type evt.state evt.path cptr.watcher_result))
      else deserialize_response cptr.completion.type hdr.xid (not (hdr.err ==ℤ pos 0)) hdr.err
          cptr.completion ia

  abbrev pub process_all : Option (List ℕ) → List Ready → List (Called A)
  process_all chroot [] = []
  process_all chroot (c ∷ list) = process_completion chroot c ++ process_all chroot list

  unfoldable pub process_completions : Session H A → Session H A
  unfolding process_completion
  process_completions zh = record zh {
    completions_to_process = [];
    called = zh.called ++ process_all zh.client.chroot zh.completions_to_process;
  }

  abbrev pub if_process_async : Session H A → Session H A
  if_process_async zh =
      if process_async adaptor zh.client.outstanding_sync then process_completions zh else zh

  unfoldable pub queue_session_event : Session H A → ℤ → Session H A
  unfolding process_async process_completions
  queue_session_event zh state =
      let (ws, list) = collect_watchers H (watchers_of H A zh) zoo_session_event [] in
      let collected = with_watchers H A zh ws in
      if_process_async (record collected {
        completions_to_process = queue_ready zh.completions_to_process (record {
          completion = record {
            xid = watcher_event_xid;
            type = completion_watch;
            dc = function 0;
            data_of = 0;
            watcher = none;
          };
          buffer =
              Replies.serialize_watcher_event replies
                (record { xid = watcher_event_xid; zxid = pos 0; err = pos 0 })
                (record { type = zoo_session_event; state = state; path = [] });
          watcher_result = list;
        });
      })

  -- The event that a lost connection is reported with.
  abbrev pub error_event : Session H A → Session H A
  error_event zh =
      if is_neg zh.client.state
      then queue_session_event zh zh.client.state
      else if zh.client.state ==ℤ zoo_connected_state
      then queue_session_event zh zoo_connecting_state
      else zh

  -- The socket is closed, the next server's turn, and the handle not connected.
  unfoldable pub disconnect : Session H A → Session H A
  disconnect zh =
      let closed : Session H A = record zh {
        fd = negsuc 0;
        connect_index = zh.connect_index + 1;
      } in
      if is_neg closed.client.state then closed else set_state H A closed (pos 0)

  unfoldable pub handle_error : Session H A → ℤ → Session H A
  unfolding queue_session_event cleanup_bufs process_async process_completions disconnect
  handle_error zh rc = if_process_async (disconnect (cleanup_bufs true rc (error_event zh)))

  abbrev pub handle_socket_error_msg : Session H A → ℤ → ℤ × Session H A
  handle_socket_error_msg zh rc = (rc, handle_error zh rc)

  -- The log messages are left out; their arguments read the scheme of the first authentication
  -- data, a null pointer where there is none.
  unfoldable pub auth_completion_func : ℤ → Session H A → Session H A
  unfolding call_auth_completions mark_active_auth
  auth_completion_func rc zh = call_auth_completions rc (
      if rc ==ℤ pos 0
      then record zh { auth_h = mark_active_auth zh.auth_h }
      else set_state H A zh zoo_auth_failed_state)

  -- The buffers and completions of a handle that is freed.
  unfoldable pub destroy : Session H A → Session H A
  unfolding cleanup_bufs
  destroy zh =
      let cleaned = cleanup_bufs true zclosing zh in
      let closed =
        if cleaned.fd ==ℤ negsuc 0
        then cleaned
        else set_state H A (record cleaned { fd = negsuc 0 }) (pos 0) in
      record closed { auth_h = [] }
