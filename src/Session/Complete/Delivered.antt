-- ===== src/Session/Complete/Delivered.antt =====
-- The replies with an error that asynchronous requests get when the connection is lost.
use elephants.Base.{
  ◌≡◌, refl, sym, ap, ◌∙◌, true, List, [], ◌∷◌, ◌++◌, map, append-nil, append_assoc, ℤ, ◌==ℤ◌,
  is_neg, Bool-cases, inl, inr, if◌then◌else◌,
}
use elephants.Watch.{string_hash_djb2, string_equal, WatcherObject}
use elephants.Watch.Table.{HashTable}
use elephants.Client.{Completion, is_marker, Handle, Adaptor}
use elephants.Session.{Session, Ready, Replies, ping_xid}
use elephants.Session.Auth.{get_auth_completions}
use elephants.Session.Complete.{
  process_async, free_completions, free_all, free_completion, call_auth, call_auth_completions,
  cleanup_bufs, process_all, process_completions, if_process_async, error_event, disconnect,
  handle_error,
}
use elephants.Session.Complete.Failure.{fakes, free_completions-IsFailed, error_event-client}

module _ {A : Type 0} (H : HashTable string_hash_djb2 string_equal (List WatcherObject))
    (replies : Replies A) (adaptor : Adaptor) (reason : ℤ) where
  -- What is called, and what is ready to be called, once a list of replies is added to what was
  -- ready: the completions of authentication data are called; what is ready is called by the same
  -- thread or left to another.
  pub record IsDelivered (before : Session H A) (added : List Ready) (after : Session H A)
      : Type 0 where
    pub ready : after.completions_to_process ≡ (
        if process_async adaptor after.client.outstanding_sync
        then []
        else before.completions_to_process ++ added)
    pub called :
        after.called
        ≡ before.called
          ++ (map (call_auth H replies adaptor reason) (get_auth_completions before.auth_h []).1
              ++ (if process_async adaptor after.client.outstanding_sync
                  then process_all H replies adaptor before.client.chroot
                      (before.completions_to_process ++ added)
                  else []))

  -- `free_all` changes neither what was called nor the authentication data.
  record IsUncalled (zh after : Session H A) : Type 0 where
    called : after.called ≡ zh.called
    auth_h : after.auth_h ≡ zh.auth_h

  free_completion-IsUncalled :
      (zh : Session H A) (c : Completion)
      → IsUncalled zh (free_completion H replies adaptor true reason zh c)
  unfolding free_completion
  free_completion-IsUncalled zh c = elim (Bool-cases (is_marker c.dc)) [
    | inl e ↦ record { called = rw (free_completion, e); auth_h = rw (free_completion, e) }
    | inr e ↦ elim (Bool-cases (c.xid ==ℤ ping_xid)) [
      | inl p ↦ record { called = rw (free_completion, e, p); auth_h = rw (free_completion, e, p) }
      | inr p ↦ record { called = rw (free_completion, e, p); auth_h = rw (free_completion, e, p) }
    ]
  ]

  free_all-IsUncalled :
      (list : List Completion) (zh : Session H A)
      → IsUncalled zh (free_all H replies adaptor true reason list zh)
  unfolding free_all
  free_all-IsUncalled [] zh = record { called = refl; auth_h = refl }
  free_all-IsUncalled (c ∷ list) zh =
      let first = free_completion-IsUncalled zh c in
      let rest = free_all-IsUncalled list (free_completion H replies adaptor true reason zh c) in
      record { called = rest.called ∙ first.called; auth_h = rest.auth_h ∙ first.auth_h }

  -- What a handle has called and is ready to call.
  record IsCleaned (before : Session H A) (added : List Ready) (after : Session H A) : Type 0 where
    ready : after.completions_to_process ≡ before.completions_to_process ++ added
    called :
        after.called
        ≡ before.called
          ++ map (call_auth H replies adaptor reason) (get_auth_completions before.auth_h []).1
    chroot : after.client.chroot ≡ before.client.chroot

  cleanup_bufs-IsCleaned :
      (zh : Session H A)
      → IsCleaned zh
          (fakes H replies adaptor reason zh.client.sent_requests)
          (cleanup_bufs H replies adaptor true reason zh)
  unfolding cleanup_bufs free_completions call_auth_completions
  cleanup_bufs-IsCleaned zh =
      let emptied : Session H A = record zh {
        client = record zh.client { to_send = []; sent_requests = [] };
        to_process = [];
      } in
      let kept = free_all-IsUncalled zh.client.sent_requests emptied in
      let failed =
        free_completions-IsFailed H replies adaptor reason
          (record zh { client = record zh.client { to_send = [] }; to_process = [] }) in
      record {
        ready = failed.ready;
        called = rw (kept.called, kept.auth_h) refl;
        chroot = ap (λ (k : Handle). k.chroot) failed.client;
      }

  disconnect-IsCleaned :
      (before : Session H A) (added : List Ready) (zh : Session H A)
      → IsCleaned before added zh
      → IsCleaned before added (disconnect H replies adaptor zh)
  unfolding disconnect
  disconnect-IsCleaned before added zh h = elim (Bool-cases (is_neg zh.client.state)) [
    | inl e ↦ record {
      ready = rw (disconnect, e) h.ready;
      called = rw (disconnect, e) h.called;
      chroot = rw (disconnect, e) h.chroot;
    }
    | inr e ↦ record {
      ready = rw (disconnect, e) h.ready;
      called = rw (disconnect, e) h.called;
      chroot = rw (disconnect, e) h.chroot;
    }
  ]

  if_process_async-IsDelivered :
      (before : Session H A) (added : List Ready) (zh : Session H A)
      → IsCleaned before added zh
      → IsDelivered before added (if_process_async H replies adaptor zh)
  unfolding process_completions
  if_process_async-IsDelivered before added zh h =
      elim (Bool-cases (process_async adaptor zh.client.outstanding_sync)) [
        | inl e ↦ record {
          ready = rw (e, e) refl;
          called = rw (e, e, h.called, h.ready, h.chroot, append_assoc) refl;
        }
        | inr e ↦ record { ready = rw (e, e) h.ready; called = rw (e, e, append-nil) h.called }
      ]

  -- After a lost connection each asynchronous request that waited but a ping has a reply with the
  -- error, in the order of the requests, behind what was ready and the event of the loss.
  pub handle_error-IsDelivered :
      (zh : Session H A)
      → IsDelivered
          (error_event H replies adaptor zh)
          (fakes H replies adaptor reason zh.client.sent_requests)
          (handle_error H replies adaptor zh reason)
  unfolding handle_error
  handle_error-IsDelivered zh =
      let started = error_event H replies adaptor zh in
      let (client, told, refs) = error_event-client H replies adaptor reason zh in
      let cleaned = cleanup_bufs H replies adaptor true reason started in
      let added = fakes H replies adaptor reason started.client.sent_requests in
      let same : added ≡ fakes H replies adaptor reason zh.client.sent_requests =
        ap (λ (k : Handle). fakes H replies adaptor reason k.sent_requests) client in
      rw (sym same) (
        if_process_async-IsDelivered started added (disconnect H replies adaptor cleaned)
          (disconnect-IsCleaned started added cleaned (cleanup_bufs-IsCleaned started)))
