-- ===== src/Session/Complete/Failure.antt =====
-- A connection that is lost or closed: every request that waits is answered, and none is left.
use elephants.Base.{
  ◌-◌, ◌≡◌, refl, sym, ap, ◌∙◌, true, none, List, [], ◌∷◌, ◌++◌, append-nil, append_assoc, ℤ, pos,
  ◌==ℤ◌, is_neg, arith, Bool-cases, inl, inr, if◌then◌else◌,
}
use elephants.Watch.{string_hash_djb2, string_equal, WatcherObject}
use elephants.Watch.Table.{HashTable}
use elephants.Client.{Completion, is_marker, Handle, Adaptor, zoo_connected_state}
use elephants.Client.Accounts.{count_markers}
use elephants.Session.{Session, Ready, Replies, Notified, ping_xid, zoo_connecting_state}
use elephants.Session.Complete.{
  fake_reply, free_completion, free_all, call_auth_completions, free_completions, cleanup_bufs,
  process_completions, if_process_async, queue_session_event, error_event, disconnect, handle_error,
  process_async,
}

module _ {A : Type 0} (H : HashTable string_hash_djb2 string_equal (List WatcherObject))
    (replies : Replies A) (adaptor : Adaptor) (reason : ℤ) where
  -- The blocked callers among the completions, each with the reason as its code.
  abbrev pub callers : List Completion → List (Notified A)
  callers [] = []
  callers (c ∷ list) =
      if is_marker c.dc
      then record { sc = c.data_of; rc = reason; reply = none } ∷ callers list
      else callers list

  -- The others but for pings, each with a reply that is made up.
  abbrev pub fakes : List Completion → List Ready
  fakes [] = []
  fakes (c ∷ list) =
      if is_marker c.dc
      then fakes list
      else if c.xid ==ℤ ping_xid
      then fakes list
      else fake_reply H replies adaptor reason c ∷ fakes list

  pub record IsFailed (zh : Session H A) (list : List Completion) (after : Session H A)
      : Type 0 where
    pub told : after.notified ≡ zh.notified ++ callers list
    pub ready : after.completions_to_process ≡ zh.completions_to_process ++ fakes list
    pub client :
        after.client
        ≡ record zh.client { outstanding_sync = zh.client.outstanding_sync - count_markers list }
    pub refs : after.ref_counter ≡ zh.ref_counter

  free_all-IsFailed :
      (list : List Completion) (zh : Session H A)
      → IsFailed zh list (free_all H replies adaptor true reason list zh)
  unfolding free_all free_completion
  free_all-IsFailed [] zh = record {
    told = sym (append-nil _);
    ready = sym (append-nil _);
    client = ap (λ n. record zh.client { outstanding_sync = n }) (omega arith);
    refs = refl;
  }
  free_all-IsFailed (c ∷ list) zh = elim (Bool-cases (is_marker c.dc)) [
    | inl e ↦
        let first = free_completion H replies adaptor true reason zh c in
        let rest = free_all-IsFailed list first in
        record {
          told = rw (free_all, rest.told, free_completion, e, append_assoc);
          ready = rw (free_all, rest.ready, free_completion, e);
          client =
              rw (e, rest.client, free_completion, e)
                (ap (λ n. record zh.client { outstanding_sync = n }) (omega arith));
          refs = rw (free_all, rest.refs, free_completion, e);
        }
    | inr e ↦ elim (Bool-cases (c.xid ==ℤ ping_xid)) [
      | inl p ↦
          let rest = free_all-IsFailed list (free_completion H replies adaptor true reason zh c) in
          record {
            told = rw (free_all, rest.told, free_completion, e, p);
            ready = rw (free_all, rest.ready, free_completion, e, p);
            client = rw (e, rest.client, free_completion, e, p);
            refs = rw (free_all, rest.refs, free_completion, e, p);
          }
      | inr p ↦
          let rest = free_all-IsFailed list (free_completion H replies adaptor true reason zh c) in
          record {
            told = rw (free_all, rest.told, free_completion, e, p);
            ready = rw (free_all, rest.ready, free_completion, e, p, append_assoc);
            client = rw (e, rest.client, free_completion, e, p);
            refs = rw (free_all, rest.refs, free_completion, e, p);
          }
    ]
  ]

  -- With `callCompletion`, `free_completions` answers every request that waits: the blocked
  -- callers are woken with the reason as their code, for each of the others but pings a reply with
  -- the reason is queued, in the order of the requests, and no request waits any more.
  pub free_completions-IsFailed :
      (zh : Session H A)
      → IsFailed
          (record zh { client = record zh.client { sent_requests = [] } })
          zh.client.sent_requests
          (free_completions H replies adaptor true reason zh)
  unfolding free_completions call_auth_completions
  free_completions-IsFailed zh =
      let all =
        free_all-IsFailed zh.client.sent_requests
          (record zh { client = record zh.client { sent_requests = [] } }) in
      record { told = all.told; ready = all.ready; client = all.client; refs = all.refs }

  pub queue_session_event-client :
      (zh : Session H A) (state : ℤ)
      → ((queue_session_event H replies adaptor zh state).client ≡ zh.client)
        × ((queue_session_event H replies adaptor zh state).notified ≡ zh.notified)
        × ((queue_session_event H replies adaptor zh state).ref_counter ≡ zh.ref_counter)
  unfolding queue_session_event process_completions
  queue_session_event-client zh state =
      elim (Bool-cases (process_async adaptor zh.client.outstanding_sync)) [
        | inl e ↦
            (rw (queue_session_event, e), rw (queue_session_event, e), rw (queue_session_event, e))
        | inr e ↦
            (rw (queue_session_event, e), rw (queue_session_event, e), rw (queue_session_event, e))
      ]

  pub error_event-client :
      (zh : Session H A)
      → ((error_event H replies adaptor zh).client ≡ zh.client)
        × ((error_event H replies adaptor zh).notified ≡ zh.notified)
        × ((error_event H replies adaptor zh).ref_counter ≡ zh.ref_counter)
  error_event-client zh = elim (Bool-cases (is_neg zh.client.state)) [
    | inl e ↦ rw e (queue_session_event-client zh zh.client.state)
    | inr e ↦ elim (Bool-cases (zh.client.state ==ℤ zoo_connected_state)) [
      | inl f ↦ rw (e, f) (queue_session_event-client zh zoo_connecting_state)
      | inr f ↦ rw (e, f) (refl, refl, refl)
    ]
  ]

  pub cleanup_bufs-client :
      (zh : Session H A)
      → ((cleanup_bufs H replies adaptor true reason zh).client ≡ record zh.client {
        to_send = [];
        sent_requests = [];
        outstanding_sync = zh.client.outstanding_sync - count_markers zh.client.sent_requests;
      })
        × ((cleanup_bufs H replies adaptor true reason zh).notified
            ≡ zh.notified ++ callers zh.client.sent_requests)
        × ((cleanup_bufs H replies adaptor true reason zh).ref_counter ≡ zh.ref_counter)
  unfolding cleanup_bufs
  cleanup_bufs-client zh =
      let failed =
        free_completions-IsFailed
          (record zh { client = record zh.client { to_send = [] }; to_process = [] }) in
      (failed.client, failed.told, failed.refs)

  -- The state of the handle after an error.
  abbrev pub state_after : ℤ → ℤ
  state_after state = if is_neg state then state else pos 0

  pub if_process_async-client :
      (zh : Session H A)
      → ((if_process_async H replies adaptor zh).client ≡ zh.client)
        × ((if_process_async H replies adaptor zh).notified ≡ zh.notified)
        × ((if_process_async H replies adaptor zh).ref_counter ≡ zh.ref_counter)
  unfolding process_completions
  if_process_async-client zh =
      elim (Bool-cases (process_async adaptor zh.client.outstanding_sync)) [
        | inl e ↦ (rw e, rw e, rw e)
        | inr e ↦ (rw e, rw e, rw e)
      ]

  pub disconnect-client :
      (zh : Session H A)
      → ((disconnect H replies adaptor zh).client
          ≡ record zh.client { state = state_after zh.client.state })
        × ((disconnect H replies adaptor zh).notified ≡ zh.notified)
        × ((disconnect H replies adaptor zh).ref_counter ≡ zh.ref_counter)
  unfolding disconnect
  disconnect-client zh = elim (Bool-cases (is_neg zh.client.state)) [
    | inl e ↦ (rw (disconnect, e), rw (disconnect, e), rw (disconnect, e))
    | inr e ↦ (rw (disconnect, e), rw (disconnect, e), rw (disconnect, e))
  ]

  -- A lost connection: every blocked caller whose request waits is woken with the error, nothing
  -- is left to send or waits, and the handle is not connected, unless it was expired or refused
  -- before, which it remains. The counter of calls stays.
  pub handle_error-client :
      (zh : Session H A)
      → ((handle_error H replies adaptor zh reason).client ≡ record zh.client {
        state = state_after zh.client.state;
        to_send = [];
        sent_requests = [];
        outstanding_sync = zh.client.outstanding_sync - count_markers zh.client.sent_requests;
      })
        × ((handle_error H replies adaptor zh reason).notified
            ≡ zh.notified ++ callers zh.client.sent_requests)
        × ((handle_error H replies adaptor zh reason).ref_counter ≡ zh.ref_counter)
  unfolding handle_error
  handle_error-client zh =
      let started = error_event H replies adaptor zh in
      let cleaned = cleanup_bufs H replies adaptor true reason started in
      let closed = disconnect H replies adaptor cleaned in
      let (client, told, refs) = if_process_async-client closed in
      let (client1, told1, refs1) = disconnect-client cleaned in
      let (client2, told2, refs2) = cleanup_bufs-client started in
      let (client3, told3, refs3) = error_event-client zh in
      (
        client
            ∙ client1
            ∙ ap (λ (k : Handle). record k { state = state_after k.state })
                (client2
                  ∙ ap
                      (λ (k : Handle). record k {
                        to_send = [];
                        sent_requests = [];
                        outstanding_sync = k.outstanding_sync - count_markers k.sent_requests;
                      })
                      client3),
        told
            ∙ told1
            ∙ told2
            ∙ ap (λ (k : Handle). started.notified ++ callers k.sent_requests) client3
            ∙ ap (λ n. n ++ callers zh.client.sent_requests) told3,
        refs ∙ refs1 ∙ refs2 ∙ refs3,
      )
