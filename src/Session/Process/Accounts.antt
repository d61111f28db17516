-- ===== src/Session/Process/Accounts.antt =====
-- Every reply keeps `outstanding_sync` the number of blocked callers whose requests wait; and what a
-- reply out of order does.
use elephants.Base.{
  ℕ, ◌+◌, ◌-◌, ◌≡◌, refl, sym, ap, ◌∙◌, Bool, true, false, not, Option, none, some, List, [], ◌∷◌,
  ◌++◌, ◌==ℤ◌, is_neg, ◌==◌, arith, Bool-cases, inl, inr, if◌then◌else◌, subst,
}
use elephants.Wire.IArchive.{IArchive}
use elephants.Watch.{string_hash_djb2, string_equal, WatcherObject}
use elephants.Watch.Table.{HashTable}
use elephants.Frame.{Incoming, zok}
use elephants.Client.{
  is_unrecoverable, Completion, is_marker, Handle, Adaptor, queue_completion_nolock, zinvalidstate,
}
use elephants.Client.Accounts.{count_markers}
use elephants.Session.{
  Session, Replies, ReplyHeader, WatcherEvent, ping_xid, watcher_event_xid, set_watches_xid,
  auth_xid, zruntimeinconsistency, zauthfailed,
}
use elephants.Session.Close.{Closing, api_prolog}
use elephants.Session.Complete.{
  archive, error_event, handle_error, auth_completion_func, if_process_async,
}
use elephants.Session.Complete.Counted.{handle_error-IsCounted, auth_completion_func-IsCounted}
use elephants.Session.Complete.Failure.{
  callers, fakes, handle_error-client, if_process_async-client,
}
use elephants.Session.Complete.Delivered.{IsDelivered, handle_error-IsDelivered}
use elephants.Session.Send.{Writers}
use elephants.Session.Connect.{Events, check_events}
use elephants.Session.Connect.Accounts.{check_events-IsKept}
use elephants.Session.Close.Accounts.{IsCounted, api_epilog-IsCounted}
use elephants.Session.Process.{
  Step, goes_on, returns, aborts, bytes_of, dequeue_completion, note_zxid, with_requests, complete,
  epilog, process_event, process_auth, process_reply, process_packet, process_packets, map_step,
  after_loop, zookeeper_process,
}

module _ {A : Type 0} (H : HashTable string_hash_djb2 string_equal (List WatcherObject))
    (replies : Replies A) (adaptor : Adaptor) (closing : Closing) where
  abbrev pub IsCountedStep : Step (Session H A) → Type 0
  IsCountedStep (goes_on zh) = IsCounted H replies adaptor closing zh
  IsCountedStep (returns rc zh) = IsCounted H replies adaptor closing zh
  IsCountedStep aborts = Unit

  abbrev pub IsProcessed : Step (Option (Session H A)) → Type 0
  IsProcessed (goes_on (some zh)) = IsCounted H replies adaptor closing zh
  IsProcessed (goes_on none) = Unit
  IsProcessed (returns rc (some zh)) = IsCounted H replies adaptor closing zh
  IsProcessed (returns rc none) = Unit
  IsProcessed aborts = Unit

  either-IsCounted :
      (m : Bool) (a b : Step (Session H A))
      → IsCountedStep a
      → IsCountedStep b
      → IsCountedStep (if m then a else b)
  either-IsCounted true a b h k = h
  either-IsCounted false a b h k = k

  either-IsProcessed :
      (m : Bool) (a b : Step (Option (Session H A)))
      → IsProcessed a
      → IsProcessed b
      → IsProcessed (if m then a else b)
  either-IsProcessed true a b h k = h
  either-IsProcessed false a b h k = k

  map_step-IsProcessed :
      (step : Step (Session H A))
      → IsCountedStep step
      → IsProcessed (map_step H replies adaptor closing step)
  map_step-IsProcessed (goes_on zh) h = h
  map_step-IsProcessed (returns rc zh) h = h
  map_step-IsProcessed aborts h = tt

  one_less : (a b : ℕ) (m : Bool) → a ≡ (if m then 1 + b else b) → m ≡ true → a - 1 ≡ b
  one_less a b m h e = ground arith

  no_less : (a b : ℕ) (m : Bool) → a ≡ (if m then 1 + b else b) → m ≡ false → a ≡ b
  no_less a b m h e = ground arith

  -- Taking a completion off the queue, its answer lowers the counter if a caller waits for it.
  complete-IsCounted :
      (zh : Session H A) (c : Completion) (list : List Completion) (hdr : ReplyHeader)
      (ia : IArchive) (bytes : List ℕ)
      → zh.client.outstanding_sync ≡ count_markers (c ∷ list)
      → IsCounted H replies adaptor closing (
          complete H replies adaptor closing
            (with_requests H replies adaptor closing zh list)
            c
            hdr
            ia
            bytes)
  unfolding complete
  complete-IsCounted zh c list hdr ia bytes h = elim (Bool-cases (is_marker c.dc)) [
    | inl e ↦ rw (complete, e) (one_less _ _ _ h e)
    | inr e ↦ elim (Bool-cases (hdr.xid ==ℤ ping_xid)) [
      | inl p ↦ rw (complete, e, p) (no_less _ _ _ h e)
      | inr p ↦ rw (complete, e, p) (no_less _ _ _ h e)
    ]
  ]

  put_back :
      (list : List Completion) (c : Completion) → queue_completion_nolock list c true ≡ c ∷ list
  unfolding queue_completion_nolock
  put_back [] c = refl
  put_back (head ∷ list) c = refl

  process_reply-empty-IsCounted :
      (zh : Session H A) (hdr : ReplyHeader) (ia : IArchive) (bytes : List ℕ)
      → zh.client.sent_requests ≡ []
      → IsCounted H replies adaptor closing zh
      → IsCountedStep (process_reply H replies adaptor closing zh hdr ia bytes)
  unfolding process_reply dequeue_completion
  process_reply-empty-IsCounted zh hdr ia bytes e h =
      let taken : dequeue_completion zh.client.sent_requests ≡ (none, []) =
        rw (e, dequeue_completion) in
      let dequeued = with_requests H replies adaptor closing zh [] in
      elim (Bool-cases (zh.client.close_requested == 1)) [
        | inl f ↦
            rw (process_reply, taken, f)
              (rw taken (
                api_epilog-IsCounted H replies adaptor closing dequeued zinvalidstate
                  (h ∙ ap count_markers e)))
        | inr f ↦ rw (process_reply, taken, f) tt
      ]

  process_reply-some-IsCounted :
      (zh : Session H A) (hdr : ReplyHeader) (ia : IArchive) (bytes : List ℕ) (c : Completion)
      (list : List Completion)
      → zh.client.sent_requests ≡ c ∷ list
      → IsCounted H replies adaptor closing zh
      → IsCountedStep (process_reply H replies adaptor closing zh hdr ia bytes)
  unfolding process_reply dequeue_completion
  process_reply-some-IsCounted zh hdr ia bytes c list e h =
      let taken : dequeue_completion zh.client.sent_requests ≡ (some c, list) =
        rw (e, dequeue_completion) in
      let kept = with_requests H replies adaptor closing zh (queue_completion_nolock list c true) in
      elim (Bool-cases (c.xid ==ℤ hdr.xid)) [
        | inl f ↦
            rw (process_reply, taken, f)
              (rw taken (complete-IsCounted zh c list hdr ia bytes (h ∙ ap count_markers e)))
        | inr f ↦
            rw (process_reply, taken, f)
              (rw taken (
                handle_error-IsCounted H replies adaptor kept zruntimeinconsistency
                  (h ∙ ap count_markers (e ∙ sym (put_back list c)))))
      ]

  process_reply-IsCounted :
      (zh : Session H A) (hdr : ReplyHeader) (ia : IArchive) (bytes : List ℕ)
      → IsCounted H replies adaptor closing zh
      → IsCountedStep (process_reply H replies adaptor closing zh hdr ia bytes)
  process_reply-IsCounted zh hdr ia bytes h =
      elim zh.client.sent_requests
          as (λ list.
            zh.client.sent_requests ≡ list
            → IsCountedStep (process_reply H replies adaptor closing zh hdr ia bytes)) [
              | [] ↦ λ e. process_reply-empty-IsCounted zh hdr ia bytes e h
              | c ∷ list ↦ λ e. process_reply-some-IsCounted zh hdr ia bytes c list e h
            ]
        refl

  process_event-IsCounted :
      (zh : Session H A) (evt : WatcherEvent) (bytes : List ℕ)
      → IsCounted H replies adaptor closing zh
      → IsCounted H replies adaptor closing (process_event H replies adaptor closing zh evt bytes)
  unfolding process_event
  process_event-IsCounted zh evt bytes h = h

  process_auth-IsCounted :
      (zh : Session H A) (hdr : ReplyHeader)
      → IsCounted H replies adaptor closing zh
      → IsCountedStep (process_auth H replies adaptor closing zh hdr)
  unfolding process_auth
  process_auth-IsCounted zh hdr h =
      let told = auth_completion_func H replies adaptor hdr.err zh in
      let counted = auth_completion_func-IsCounted H replies adaptor zh hdr.err h in
      either-IsCounted (is_neg told.client.state)
        (epilog H replies adaptor closing (handle_error H replies adaptor told zauthfailed)
          zauthfailed)
        (goes_on told)
        (api_epilog-IsCounted H replies adaptor closing
          (handle_error H replies adaptor told zauthfailed) zauthfailed
          (handle_error-IsCounted H replies adaptor told zauthfailed counted))
        counted

  process_packet-IsCounted :
      (zh : Session H A) (bptr : Incoming)
      → IsCounted H replies adaptor closing zh
      → IsCountedStep (process_packet H replies adaptor closing zh bptr)
  unfolding process_packet
  process_packet-IsCounted zh bptr h =
      let bytes = bytes_of bptr.buffer in
      let (hdr, ia) = Replies.deserialize_reply_header replies (archive bytes bptr.curr_offset) in
      let seen = note_zxid H replies adaptor closing zh hdr in
      elim (Bool-cases (hdr.xid ==ℤ watcher_event_xid)) [
        | inl e ↦
            rw (process_packet, e)
              (process_event-IsCounted seen (Replies.deserialize_watcher_event replies ia).0 bytes
                h)
        | inr e ↦ elim (Bool-cases (hdr.xid ==ℤ set_watches_xid)) [
          | inl f ↦ rw (process_packet, e, f) h
          | inr f ↦ elim (Bool-cases (hdr.xid ==ℤ auth_xid)) [
            | inl g ↦ rw (process_packet, e, f, g) (process_auth-IsCounted seen hdr h)
            | inr g ↦ rw (process_packet, e, f, g) (process_reply-IsCounted seen hdr ia bytes h)
          ]
        ]
      ]

  process_packets-IsCounted :
      (zh : Session H A) (list : List Incoming)
      → IsCounted H replies adaptor closing zh
      → IsCountedStep (process_packets H replies adaptor closing zh list)
  unfolding process_packets
  process_packets-IsCounted zh [] h = h
  process_packets-IsCounted zh (bptr ∷ list) h =
      let dequeued : Session H A = record zh { to_process = list } in
      elim (process_packet H replies adaptor closing dequeued bptr)
          as (λ step.
            process_packet H replies adaptor closing dequeued bptr ≡ step
            → IsCountedStep step
            → IsCountedStep (process_packets H replies adaptor closing zh (bptr ∷ list))) [
              | goes_on zh1 ↦ λ e k. rw (process_packets, e) (process_packets-IsCounted zh1 list k)
              | returns rc zh1 ↦ λ e k. rw (process_packets, e) k
              | aborts ↦ λ e k. rw (process_packets, e) k
            ]
        refl (process_packet-IsCounted dequeued bptr h)

  -- A reply out of order, that is, to another request than the one at the head of the queue: the
  -- function returns an error; every blocked caller whose request waits, that of the head included,
  -- is woken with it, each asynchronous request that waits but a ping gets a reply with it, in the
  -- order of the requests and behind the event of the lost connection, and no request is left; but
  -- the counter of calls, which was raised on entry, is not lowered.
  pub process_reply-out_of_order :
      (zh : Session H A) (hdr : ReplyHeader) (ia : IArchive) (bytes : List ℕ) (c : Completion)
      (later : List Completion)
      → zh.client.sent_requests ≡ c ∷ later
      → (c.xid ==ℤ hdr.xid) ≡ false
      → (after : Session H A) × (process_reply H replies adaptor closing zh hdr ia bytes
          ≡ returns zruntimeinconsistency after)
        × (after.client.sent_requests ≡ [])
        × (after.notified
            ≡ zh.notified ++ callers H replies adaptor zruntimeinconsistency (c ∷ later))
        × IsDelivered H replies adaptor zruntimeinconsistency
            (error_event H replies adaptor zh)
            (fakes H replies adaptor zruntimeinconsistency (c ∷ later))
            after
        × (after.ref_counter ≡ zh.ref_counter)
  unfolding process_reply dequeue_completion
  process_reply-out_of_order zh hdr ia bytes c later e other =
      let taken : dequeue_completion zh.client.sent_requests ≡ (some c, later) =
        rw (e, dequeue_completion) in
      let kept =
        with_requests H replies adaptor closing zh (queue_completion_nolock later c true) in
      let unchanged : kept ≡ zh =
        ap (with_requests H replies adaptor closing zh) (put_back later c ∙ sym e) in
      let (client, told, refs) = handle_error-client H replies adaptor zruntimeinconsistency kept in
      (
        handle_error H replies adaptor kept zruntimeinconsistency,
        rw (process_reply, taken, other) (rw taken refl),
        ap (λ (k : Handle). k.sent_requests) client,
        told
            ∙ ap (λ list. zh.notified ++ callers H replies adaptor zruntimeinconsistency list)
                (put_back later c),
        subst
            (λ (before : Session H A).
              IsDelivered H replies adaptor zruntimeinconsistency
                (error_event H replies adaptor before)
                (fakes H replies adaptor zruntimeinconsistency (c ∷ later))
                (handle_error H replies adaptor kept zruntimeinconsistency))
            unchanged
            (subst
              (λ list.
                IsDelivered H replies adaptor zruntimeinconsistency
                  (error_event H replies adaptor kept)
                  (fakes H replies adaptor zruntimeinconsistency list)
                  (handle_error H replies adaptor kept zruntimeinconsistency))
              (put_back later c)
              (handle_error-IsDelivered H replies adaptor zruntimeinconsistency kept)),
        refs,
      )

  after_loop-IsCounted :
      (step : Step (Session H A))
      → IsCountedStep step
      → IsCountedStep (after_loop H replies adaptor closing step)
  after_loop-IsCounted (goes_on done) h =
      api_epilog-IsCounted H replies adaptor closing (if_process_async H replies adaptor done) zok
        (rw ((if_process_async-client H replies adaptor zok done).0) h)
  after_loop-IsCounted (returns rc done) h = h
  after_loop-IsCounted aborts h = tt

  -- `zookeeper_process` keeps `outstanding_sync` the number of blocked callers whose requests wait,
  -- on every way out of it but the failed assertion: an expired handle, an error of the socket or
  -- of the handshake, a reply out of order, a refused authentication, and a handle that is closed.
  pub zookeeper_process-IsCounted :
      (writers : Writers) (big_endian : Bool) (ev : Events) (zh : Session H A)
      → IsCounted H replies adaptor closing zh
      → IsProcessed (zookeeper_process H replies adaptor closing writers big_endian ev (some zh))
  unfolding zookeeper_process
  zookeeper_process-IsCounted writers big_endian ev zh h =
      let begun = api_prolog H replies adaptor closing zh in
      let (rc, checked) = check_events H replies adaptor writers big_endian ev begun in
      let kept : IsCounted H replies adaptor closing checked =
        check_events-IsKept H replies adaptor writers big_endian ev begun h in
      let looped = process_packets H replies adaptor closing checked checked.to_process in
      let ends = after_loop H replies adaptor closing looped in
      let steps = if not (rc ==ℤ zok) then epilog H replies adaptor closing checked rc else ends in
      either-IsProcessed (is_neg zh.client.state) (returns (is_unrecoverable zh.client) (some zh))
        (map_step H replies adaptor closing steps) h
        (map_step-IsProcessed steps (
          either-IsCounted (not (rc ==ℤ zok)) (epilog H replies adaptor closing checked rc) ends
            (api_epilog-IsCounted H replies adaptor closing checked rc kept)
            (after_loop-IsCounted looped
              (process_packets-IsCounted checked checked.to_process kept))))
