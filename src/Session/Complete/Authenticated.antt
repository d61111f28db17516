-- ===== src/Session/Complete/Authenticated.antt =====
-- What an answer to authentication calls.
use elephants.Base.{
  ◌≡◌, ap, Bool-cases, inl, inr, List, [], ◌++◌, map, ℤ, pos, ◌==ℤ◌, if◌then◌else◌,
}
use elephants.Watch.{string_hash_djb2, string_equal, WatcherObject}
use elephants.Watch.Table.{HashTable}
use elephants.Client.{Adaptor}
use elephants.Session.{Session, Replies, zoo_auth_failed_state}
use elephants.Session.Auth.{
  pending_auth, mark_active_auth, pending_auth-mark_active_auth, get_auth_completions-pending,
  get_auth_completions-cleared,
}
use elephants.Session.Complete.{call_auth, call_auth_completions, auth_completion_func}

module _ {A : Type 0} (H : HashTable string_hash_djb2 string_equal (List WatcherObject))
    (replies : Replies A) (adaptor : Adaptor) where
  call_auth_completions-once :
      (reason : ℤ) (zh : Session H A)
      → ((call_auth_completions H replies adaptor reason zh).called
          ≡ zh.called ++ map (call_auth H replies adaptor reason) (pending_auth zh.auth_h))
        × (pending_auth (call_auth_completions H replies adaptor reason zh).auth_h ≡ [])
  unfolding call_auth_completions
  call_auth_completions-once reason zh = (
    ap (λ list. zh.called ++ map (call_auth H replies adaptor reason) list)
        (get_auth_completions-pending zh.auth_h []),
    get_auth_completions-cleared zh.auth_h [],
  )

  -- An answer to authentication calls the completion of each authentication data that has one,
  -- once and in the order of the list, with the answer's code, and after it no data has one. An
  -- error refuses the handle for good; without an error its state is kept.
  pub auth_completion_func-once :
      (rc : ℤ) (zh : Session H A)
      → ((auth_completion_func H replies adaptor rc zh).called
          ≡ zh.called ++ map (call_auth H replies adaptor rc) (pending_auth zh.auth_h))
        × (pending_auth (auth_completion_func H replies adaptor rc zh).auth_h ≡ [])
        × ((auth_completion_func H replies adaptor rc zh).client.state
            ≡ (if rc ==ℤ pos 0 then zh.client.state else zoo_auth_failed_state))
  unfolding auth_completion_func call_auth_completions
  auth_completion_func-once rc zh = elim (Bool-cases (rc ==ℤ pos 0)) [
    | inl e ↦
        let (calls, cleared) =
          call_auth_completions-once rc (record zh { auth_h = mark_active_auth zh.auth_h }) in
        (
          rw (auth_completion_func, e, calls, pending_auth-mark_active_auth),
          rw (auth_completion_func, e) cleared,
          rw (auth_completion_func, e),
        )
    | inr e ↦
        let (calls, cleared) =
          call_auth_completions-once rc
            (record zh { client = record zh.client { state = zoo_auth_failed_state } }) in
        (
          rw (auth_completion_func, e, calls),
          rw (auth_completion_func, e) cleared,
          rw (auth_completion_func, e),
        )
  ]
