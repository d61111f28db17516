-- ===== src/Session/Process.antt =====
-- zookeeper.c: `zookeeper_process`, from the packets that have been received on.
pub mod Order
pub mod Accounts
use elephants.Base.{
  ℕ, zero, suc, ◌+◌, ◌-◌, Bool, true, false, not, ◌&&◌, Option, none, some, List, [], ◌∷◌, ◌++◌, ℤ,
  pos, negsuc, ◌==ℤ◌, is_neg, ltb_ℤ, ◌==◌, length, if◌then◌else◌,
}
use elephants.Wire.IArchive.{IArchive}
use elephants.Watch.{
  string_hash_djb2, string_equal, WatcherObject, collect_watchers, activate_watcher,
}
use elephants.Watch.Table.{HashTable}
use elephants.Frame.{Incoming, zok}
use elephants.Client.{
  Completion, Callback, function, completion_watch, is_marker, Handle, Adaptor, is_unrecoverable,
  queue_completion_nolock, zbadarguments, zinvalidstate,
}
use elephants.Session.{
  Session, Ready, Replies, ReplyHeader, WatcherEvent, Notified, watchers_of, with_watchers,
  watcher_event_xid, ping_xid, auth_xid, set_watches_xid, zruntimeinconsistency, zauthfailed,
}
use elephants.Session.Close.{Closing, api_prolog, api_epilog}
use elephants.Session.Send.{Writers}
use elephants.Session.Connect.{Events, check_events}
use elephants.Session.Complete.{
  archive, queue_ready, handle_error, auth_completion_func, if_process_async, sync_reply,
}

-- `dequeue_completion`
unfoldable pub dequeue_completion : List Completion → Option Completion × List Completion
dequeue_completion [] = (none, [])
dequeue_completion (cptr ∷ list) = (some cptr, list)

abbrev pub bytes_of : Option (List ℕ) → List ℕ
bytes_of none = []
bytes_of (some b) = b

-- A round of the loop goes on, or the function returns with a code, or an assertion fails.
pub data Step (S : Type 0) : Type 0 where
  goes_on : S → Step S
  returns : ℤ → S → Step S
  aborts : Step S

module _ {A : Type 0} (H : HashTable string_hash_djb2 string_equal (List WatcherObject))
    (replies : Replies A) (adaptor : Adaptor) (closing : Closing) where
  abbrev pub epilog : Session H A → ℤ → Step (Session H A)
  epilog zh rc = let (rc1, zh1) = api_epilog H replies adaptor closing zh rc in returns rc1 zh1

  -- A reply of the server that reports an event: the watchers it reaches are collected, and called
  -- later.
  unfoldable pub process_event : Session H A → WatcherEvent → List ℕ → Session H A
  process_event zh evt bytes =
      let (ws, list) = collect_watchers H (watchers_of H A zh) evt.type evt.path in
      let collected = with_watchers H A zh ws in
      record collected {
        completions_to_process = queue_ready zh.completions_to_process (record {
          completion = record {
            xid = watcher_event_xid;
            type = completion_watch;
            dc = function 0;
            data_of = 0;
            watcher = none;
          };
          buffer = bytes;
          watcher_result = list;
        });
      }

  -- The answer to the request of `cptr`, which has been taken off the queue.
  unfoldable pub complete : Session H A → Completion → ReplyHeader → IArchive → List ℕ → Session H A
  complete zh cptr hdr ia bytes =
      let ws = activate_watcher H (watchers_of H A zh) cptr.watcher hdr.err in
      let activated = with_watchers H A zh ws in
      if not (is_marker cptr.dc)
      then (if hdr.xid ==ℤ ping_xid then activated else record activated {
        completions_to_process =
            queue_ready zh.completions_to_process
              (record { completion = cptr; buffer = bytes; watcher_result = [] });
      })
      else record activated {
        client = record zh.client { outstanding_sync = zh.client.outstanding_sync - 1 };
        notified =
            zh.notified
            ++ record {
              sc = cptr.data_of;
              rc = hdr.err;
              reply = if hdr.err ==ℤ pos 0 then sync_reply H replies adaptor cptr.type ia else none;
            }
              ∷ [];
      }

  abbrev pub with_requests : Session H A → List Completion → Session H A
  with_requests zh list = record zh { client = record zh.client { sent_requests = list } }

  -- A reply to a request: the completion at the head of the queue must be the one it belongs to.
  -- Where it is not, the function returns without `api_epilog`.
  unfoldable pub process_reply : Session H A → ReplyHeader → IArchive → List ℕ → Step (Session H A)
  unfolding dequeue_completion complete queue_completion_nolock handle_error api_epilog
  process_reply zh hdr ia bytes =
      let (cptr, list) = dequeue_completion zh.client.sent_requests in
      let dequeued = with_requests zh list in
      elim cptr [
        | none ↦ if zh.client.close_requested == 1 then epilog dequeued zinvalidstate else aborts
        | some c ↦
            if not (c.xid ==ℤ hdr.xid)
            then returns zruntimeinconsistency (
                handle_error H replies adaptor
                  (with_requests zh (queue_completion_nolock list c true)) zruntimeinconsistency)
            else goes_on (complete dequeued c hdr ia bytes)
      ]

  -- `auth_completion_func`, and the end of the connection where authentication has failed.
  unfoldable pub process_auth : Session H A → ReplyHeader → Step (Session H A)
  unfolding auth_completion_func handle_error api_epilog
  process_auth zh hdr =
      let told = auth_completion_func H replies adaptor hdr.err zh in
      if is_neg told.client.state
      then epilog (handle_error H replies adaptor told zauthfailed) zauthfailed
      else goes_on told

  abbrev pub note_zxid : Session H A → ReplyHeader → Session H A
  note_zxid zh hdr = record zh {
    last_zxid = if ltb_ℤ (pos 0) hdr.zxid then hdr.zxid else zh.last_zxid;
  }

  -- A round of the loop. The archive is given `curr_offset` as its length.
  unfoldable pub process_packet : Session H A → Incoming → Step (Session H A)
  unfolding process_event process_reply process_auth
  process_packet zh bptr =
      let bytes = bytes_of bptr.buffer in
      let (hdr, ia) = Replies.deserialize_reply_header replies (archive bytes bptr.curr_offset) in
      let seen = note_zxid zh hdr in
      if hdr.xid ==ℤ watcher_event_xid
      then goes_on (process_event seen (Replies.deserialize_watcher_event replies ia).0 bytes)
      else if hdr.xid ==ℤ set_watches_xid
      then goes_on seen
      else if hdr.xid ==ℤ auth_xid
      then process_auth seen hdr
      else process_reply seen hdr ia bytes

  -- The loop over `to_process`, each packet being dequeued before its round.
  unfoldable pub process_packets : Session H A → List Incoming → Step (Session H A)
  unfolding process_packet
  process_packets zh [] = goes_on zh
  process_packets zh (bptr ∷ list) = elim (process_packet (record zh { to_process = list }) bptr) [
    | goes_on zh1 ↦ process_packets zh1 list
    | returns rc zh1 ↦ returns rc zh1
    | aborts ↦ aborts
  ]

  -- What follows the loop.
  abbrev pub after_loop : Step (Session H A) → Step (Session H A)
  after_loop (goes_on done) = epilog (if_process_async H replies adaptor done) zok
  after_loop (returns rc done) = returns rc done
  after_loop aborts = aborts

  -- `zookeeper_process`; `none` stands for a NULL handle.
  abbrev pub map_step : Step (Session H A) → Step (Option (Session H A))
  map_step (goes_on zh) = goes_on (some zh)
  map_step (returns rc zh) = returns rc (some zh)
  map_step aborts = aborts

  unfoldable pub zookeeper_process :
      Writers → Bool → Events → Option (Session H A) → Step (Option (Session H A))
  unfolding process_packets is_unrecoverable check_events
  zookeeper_process writers big_endian ev none = returns zbadarguments none
  zookeeper_process writers big_endian ev (some zh) =
      if is_neg zh.client.state
      then returns (is_unrecoverable zh.client) (some zh)
      else (let (rc, checked) =
            check_events H replies adaptor writers big_endian ev
              (api_prolog H replies adaptor closing zh) in
          map_step (
            if not (rc ==ℤ zok)
            then epilog checked rc
            else after_loop (process_packets checked checked.to_process)))
