-- ===== src/Session/Complete/Counted.antt =====
-- Failing the requests that wait keeps `outstanding_sync` the number of blocked callers among them.
use elephants.Base.{ℕ, ◌-◌, ◌≡◌, true, List, ℤ, pos, negsuc, ◌==ℤ◌, arith, Bool-cases, inl, inr}
use elephants.Watch.{string_hash_djb2, string_equal, WatcherObject}
use elephants.Watch.Table.{HashTable}
use elephants.Client.{Adaptor}
use elephants.Client.Accounts.{IsAccounted}
use elephants.Session.{Session, Replies, zclosing}
use elephants.Session.Complete.{
  destroy, handle_error, cleanup_bufs, auth_completion_func, call_auth_completions,
  queue_session_event,
}
use elephants.Session.Complete.Failure.{
  cleanup_bufs-client, handle_error-client, queue_session_event-client,
}

module _ {A : Type 0} (H : HashTable string_hash_djb2 string_equal (List WatcherObject))
    (replies : Replies A) (adaptor : Adaptor) where
  pub sub_self : (a b : ℕ) → a ≡ b → a - b ≡ 0
  sub_self a b e = omega arith

  pub handle_error-IsCounted :
      (zh : Session H A) (rc : ℤ)
      → IsAccounted zh.client
      → IsAccounted (handle_error H replies adaptor zh rc).client
  handle_error-IsCounted zh rc h =
      rw ((handle_error-client H replies adaptor rc zh).0) (sub_self _ _ h)

  pub cleanup_bufs-IsCounted :
      (zh : Session H A) (rc : ℤ)
      → IsAccounted zh.client
      → IsAccounted (cleanup_bufs H replies adaptor true rc zh).client
  cleanup_bufs-IsCounted zh rc h =
      rw ((cleanup_bufs-client H replies adaptor rc zh).0) (sub_self _ _ h)

  pub destroy-IsCounted :
      (zh : Session H A) → IsAccounted zh.client → IsAccounted (destroy H replies adaptor zh).client
  unfolding destroy
  destroy-IsCounted zh h =
      let cleaned = cleanup_bufs H replies adaptor true zclosing zh in
      elim (Bool-cases (cleaned.fd ==ℤ negsuc 0)) [
        | inl e ↦ rw (destroy, e) (cleanup_bufs-IsCounted zh zclosing h)
        | inr e ↦ rw (destroy, e) (cleanup_bufs-IsCounted zh zclosing h)
      ]

  pub auth_completion_func-IsCounted :
      (zh : Session H A) (rc : ℤ)
      → IsAccounted zh.client
      → IsAccounted (auth_completion_func H replies adaptor rc zh).client
  unfolding auth_completion_func call_auth_completions
  auth_completion_func-IsCounted zh rc h = elim (Bool-cases (rc ==ℤ pos 0)) [
    | inl e ↦ rw (auth_completion_func, e) h
    | inr e ↦ rw (auth_completion_func, e) h
  ]

  pub queue_session_event-IsCounted :
      (zh : Session H A) (state : ℤ)
      → IsAccounted zh.client
      → IsAccounted (queue_session_event H replies adaptor zh state).client
  queue_session_event-IsCounted zh state h =
      rw ((queue_session_event-client H replies adaptor state zh state).0) h
