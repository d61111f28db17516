-- ===== src/Session/Close/Accounts.antt =====
-- Closing a handle keeps `outstanding_sync` the number of blocked callers whose requests wait.
use elephants.Base.{
  ℕ, not, ◌&&◌, Option, none, some, List, ℤ, pos, negsuc, ◌==ℤ◌, is_neg, ltb_ℤ, ◌==◌, Bool-cases,
  inl, inr,
}
use elephants.Watch.{string_hash_djb2, string_equal, WatcherObject}
use elephants.Watch.Table.{HashTable}
use elephants.Frame.{Packet}
use elephants.Client.{Adaptor, zoo_connected_state}
use elephants.Client.Accounts.{IsAccounted}
use elephants.Session.{Session, Replies, zclosing}
use elephants.Session.Close.{
  Closing, queue_close, after_flush, with_to_send, send_close, close_last, zookeeper_close,
  api_epilog, inc_ref_counter,
}
use elephants.Session.Complete.Counted.{sub_self, destroy-IsCounted}
use elephants.Session.Complete.Failure.{free_completions-IsFailed}

module _ {A : Type 0} (H : HashTable string_hash_djb2 string_equal (List WatcherObject))
    (replies : Replies A) (adaptor : Adaptor) (closing : Closing) where
  abbrev pub IsCounted : Session H A → Type 0
  IsCounted zh = IsAccounted zh.client

  after_flush-IsCounted :
      (zh : Session H A) (result : Option (ℤ × List ℕ × List Packet))
      → IsCounted zh
      → IsCounted (after_flush H replies adaptor closing zh result).1
  after_flush-IsCounted zh none h = h
  after_flush-IsCounted zh (some (rc, out, left)) h = h

  send_close-IsCounted :
      (zh : Session H A) → IsCounted zh → IsCounted (send_close H replies adaptor closing zh).1
  unfolding send_close
  send_close-IsCounted zh h =
      let (rc, queue) = queue_close H replies adaptor closing zh.client.to_send in
      let queued = with_to_send H replies adaptor closing zh queue in
      elim (Bool-cases (is_neg rc)) [
        | inl e ↦ rw (send_close, e) h
        | inr e ↦ rw (send_close, e) (after_flush-IsCounted queued _ h)
      ]

  close_last-IsCounted :
      (zh : Session H A) → IsCounted zh → IsCounted (close_last H replies adaptor closing zh).1
  unfolding close_last
  close_last-IsCounted zh h = elim (Bool-cases (zh.client.state ==ℤ zoo_connected_state)) [
    | inl e ↦
        rw (close_last, e)
          (destroy-IsCounted H replies adaptor (send_close H replies adaptor closing zh).1
            (send_close-IsCounted zh h))
    | inr e ↦ rw (close_last, e) (destroy-IsCounted H replies adaptor zh h)
  ]

  zookeeper_close-IsCounted :
      (zh : Session H A) → IsCounted zh → IsCounted (zookeeper_close H replies adaptor closing zh).1
  unfolding zookeeper_close
  zookeeper_close-IsCounted zh h =
      let requested : Session H A = record zh {
        client = record zh.client { close_requested = 1 };
      } in
      let counted = inc_ref_counter H replies adaptor closing requested (pos 1) in
      elim (Bool-cases (ltb_ℤ (pos 1) counted.ref_counter)) [
        | inl e ↦
            rw
              (
                zookeeper_close,
                e,
                (free_completions-IsFailed H replies adaptor zclosing counted).client,
              )
              (sub_self H replies adaptor _ _ h)
        | inr e ↦ rw (zookeeper_close, e) (close_last-IsCounted counted h)
      ]

  pub api_epilog-IsCounted :
      (zh : Session H A) (rc : ℤ)
      → IsCounted zh
      → IsCounted (api_epilog H replies adaptor closing zh rc).1
  unfolding api_epilog
  api_epilog-IsCounted zh rc h =
      let counted = inc_ref_counter H replies adaptor closing zh (negsuc 0) in
      elim (Bool-cases
        (counted.ref_counter ==ℤ pos 0 && not (counted.client.close_requested == 0))) [
          | inl e ↦ rw (api_epilog, e) (zookeeper_close-IsCounted counted h)
          | inr e ↦ rw (api_epilog, e) h
        ]
