-- ===== src/Session/Close.antt =====
-- zookeeper.c: the reference counter of a handle, and `zookeeper_close`. A call of the API counts
-- while it runs; a handle that is to be closed is freed when no call is left.
pub mod Accounts
use elephants.Base.{
  ℕ, Bool, true, not, ◌&&◌, Option, none, some, List, ℤ, pos, negsuc, ◌+ℤ◌, ◌==ℤ◌, is_neg, ltb_ℤ,
  ◌==◌, if◌then◌else◌,
}
use elephants.Watch.{string_hash_djb2, string_equal, WatcherObject}
use elephants.Watch.Table.{HashTable}
use elephants.Frame.{Packet, Round, flush_send_queue, queue_buffer_bytes, zok}
use elephants.Client.{Adaptor, flushed, zmarshallingerror, zoo_connected_state}
use elephants.Session.{Session, Replies, zclosing}
use elephants.Session.Complete.{free_completions, destroy}

-- What closing a handle needs: the code and the bytes of the request header, whether `calloc`
-- succeeds for the packet, and the rounds in which it is sent.
pub record Closing : Type 0 where
  pub serialized : ℤ × List ℕ
  pub len : ℕ
  pub calloc : Bool
  pub rounds : List Round

module _ {A : Type 0} (H : HashTable string_hash_djb2 string_equal (List WatcherObject))
    (replies : Replies A) (adaptor : Adaptor) (closing : Closing) where
  abbrev pub inc_ref_counter : Session H A → ℤ → Session H A
  inc_ref_counter zh i = record zh {
    ref_counter =
        zh.ref_counter +ℤ (if is_neg i then negsuc 0 else if i ==ℤ pos 0 then pos 0 else pos 1);
  }

  -- The close request behind what is still to be sent.
  unfoldable pub queue_close : List Packet → ℤ × List Packet
  unfolding queue_buffer_bytes
  queue_close to_send =
      if is_neg closing.serialized.0
      then (closing.serialized.0, to_send)
      else queue_buffer_bytes closing.calloc to_send closing.serialized.1 closing.len

  abbrev pub after_flush : Session H A → Option (ℤ × List ℕ × List Packet) → ℤ × Session H A
  after_flush zh none = (zok, zh)
  after_flush zh (some (rc, out, left)) =
      (rc, record zh { client = flushed zh.client (some (rc, out, left)) })

  abbrev pub with_to_send : Session H A → List Packet → Session H A
  with_to_send zh queue = record zh { client = record zh.client { to_send = queue } }

  -- The queue with the close request is flushed for 3 seconds.
  unfoldable pub send_close : Session H A → ℤ × Session H A
  unfolding queue_close
  send_close zh =
      let (rc, queue) = queue_close zh.client.to_send in
      if is_neg rc
      then (zmarshallingerror, with_to_send zh queue)
      else after_flush (with_to_send zh queue)
          (flush_send_queue true (pos 3000) closing.rounds queue)

  -- `zookeeper_close` where no other call runs: the handle is freed.
  unfoldable pub close_last : Session H A → ℤ × Session H A
  unfolding send_close destroy
  close_last zh =
      let (rc, sent) =
        if zh.client.state ==ℤ zoo_connected_state then send_close zh else (zok, zh) in
      (rc, record (destroy H replies adaptor sent) { freed = true })

  -- `zookeeper_close`, a handle that is not NULL. While other calls run, the completions that wait
  -- are answered and the handle stays: the counter that was raised is lowered, and is not 0 then.
  unfoldable pub zookeeper_close : Session H A → ℤ × Session H A
  unfolding close_last free_completions
  zookeeper_close zh =
      let requested : Session H A = record zh {
        client = record zh.client { close_requested = 1 };
      } in
      let counted = inc_ref_counter requested (pos 1) in
      if ltb_ℤ (pos 1) counted.ref_counter
      then (
        zok,
        inc_ref_counter (free_completions H replies adaptor true zclosing counted) (negsuc 0),
      )
      else close_last counted

  abbrev pub api_prolog : Session H A → Session H A
  api_prolog zh = inc_ref_counter zh (pos 1)

  unfoldable pub api_epilog : Session H A → ℤ → ℤ × Session H A
  unfolding zookeeper_close
  api_epilog zh rc =
      let counted = inc_ref_counter zh (negsuc 0) in
      if counted.ref_counter ==ℤ pos 0 && not (counted.client.close_requested == 0)
      then (rc, (zookeeper_close counted).1)
      else (rc, counted)
