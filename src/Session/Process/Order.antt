-- ===== src/Session/Process/Order.antt =====
-- Replies that come in the order of the requests: each completion gets its own.
use elephants.Base.{
  ℕ, ◌≡◌, refl, sym, ◌∙◌, true, false, none, some, List, [], ◌∷◌, ◌++◌, append-nil, append_assoc,
  pos, ◌==ℤ◌, Bool-cases, inl, inr, if◌then◌else◌,
}
use elephants.Wire.IArchive.{IArchive}
use elephants.Watch.{string_hash_djb2, string_equal, WatcherObject}
use elephants.Watch.Table.{HashTable}
use elephants.Frame.{Incoming}
use elephants.Client.{Completion, is_marker, Adaptor}
use elephants.Session.{
  Session, Ready, Replies, ReplyHeader, Notified, watcher_event_xid, ping_xid, auth_xid,
  set_watches_xid,
}
use elephants.Session.Close.{Closing}
use elephants.Session.Complete.{archive, sync_reply}
use elephants.Session.Process.{
  goes_on, bytes_of, dequeue_completion, note_zxid, with_requests, complete, process_reply,
  process_packet, process_packets,
}

module _ {A : Type 0} (H : HashTable string_hash_djb2 string_equal (List WatcherObject))
    (replies : Replies A) (adaptor : Adaptor) (closing : Closing) where
  abbrev pub read : Incoming → ReplyHeader × IArchive
  read bptr =
      Replies.deserialize_reply_header replies (archive (bytes_of bptr.buffer) bptr.curr_offset)

  -- The packet answers the request of the completion.
  abbrev pub IsAnswer : Completion → Incoming → Type 0
  IsAnswer c bptr =
      ((c.xid ==ℤ (read bptr).0.xid) ≡ true)
      × (((read bptr).0.xid ==ℤ watcher_event_xid) ≡ false)
      × (((read bptr).0.xid ==ℤ set_watches_xid) ≡ false)
      × (((read bptr).0.xid ==ℤ auth_xid) ≡ false)

  abbrev pub AreAnswers : List (Completion × Incoming) → Type 0
  AreAnswers [] = Unit
  AreAnswers ((c, bptr) ∷ pairs) = IsAnswer c bptr × AreAnswers pairs

  -- What an answered completion leaves: a caller that is woken with the code of its own reply, or an
  -- entry with the bytes of its own reply, to be called later.
  abbrev pub woken : Completion → Incoming → List (Notified A)
  woken c bptr =
      if is_marker c.dc
      then record {
        sc = c.data_of;
        rc = (read bptr).0.err;
        reply =
            if (read bptr).0.err ==ℤ pos 0
            then sync_reply H replies adaptor c.type (read bptr).1
            else none;
      }
        ∷ []
      else []

  abbrev pub queued : Completion → Incoming → List Ready
  queued c bptr =
      if is_marker c.dc
      then []
      else if (read bptr).0.xid ==ℤ ping_xid
      then []
      else record { completion = c; buffer = bytes_of bptr.buffer; watcher_result = [] } ∷ []

  abbrev pub all_woken : List (Completion × Incoming) → List (Notified A)
  all_woken [] = []
  all_woken ((c, bptr) ∷ pairs) = woken c bptr ++ all_woken pairs

  abbrev pub all_queued : List (Completion × Incoming) → List Ready
  all_queued [] = []
  all_queued ((c, bptr) ∷ pairs) = queued c bptr ++ all_queued pairs

  abbrev pub requests : List (Completion × Incoming) → List Completion
  requests [] = []
  requests ((c, bptr) ∷ pairs) = c ∷ requests pairs

  abbrev pub packets : List (Completion × Incoming) → List Incoming
  packets [] = []
  packets ((c, bptr) ∷ pairs) = bptr ∷ packets pairs

  -- A session after some answers: these requests wait, those callers are woken and those entries
  -- queued.
  pub record IsAfter (zh : Session H A) (waiting : List Completion) (callers : List (Notified A))
      (entries : List Ready) : Type 0 where
    pub sent : zh.client.sent_requests ≡ waiting
    pub told : zh.notified ≡ callers
    pub ready : zh.completions_to_process ≡ entries

  complete-IsAfter :
      (zh : Session H A) (c : Completion) (bptr : Incoming)
      → IsAfter
          (complete H replies adaptor closing zh c
            (read bptr).0
            (read bptr).1
            (bytes_of bptr.buffer))
          zh.client.sent_requests
          (zh.notified ++ woken c bptr)
          (zh.completions_to_process ++ queued c bptr)
  unfolding complete
  complete-IsAfter zh c bptr = elim (Bool-cases (is_marker c.dc)) [
    | inl e ↦ record {
      sent = rw (complete, e);
      told = rw (complete, e);
      ready = rw (complete, e, append-nil);
    }
    | inr e ↦ elim (Bool-cases ((read bptr).0.xid ==ℤ ping_xid)) [
      | inl p ↦ record {
        sent = rw (complete, e, p);
        told = rw (complete, e, p, append-nil);
        ready = rw (complete, e, p, append-nil);
      }
      | inr p ↦ record {
        sent = rw (complete, e, p);
        told = rw (complete, e, p, append-nil);
        ready = rw (complete, e, p);
      }
    ]
  ]

  process_packet-reply :
      (zh : Session H A) (c : Completion) (bptr : Incoming)
      → IsAnswer c bptr
      → process_packet H replies adaptor closing zh bptr
        ≡ process_reply H replies adaptor closing
            (note_zxid H replies adaptor closing zh (read bptr).0)
            (read bptr).0
            (read bptr).1
            (bytes_of bptr.buffer)
  unfolding process_packet
  process_packet-reply zh c bptr (same, event, watches, auth) =
      rw (process_packet, event, watches, auth)

  process_reply-complete :
      (zh : Session H A) (c : Completion) (later : List Completion) (hdr : ReplyHeader)
      (ia : IArchive) (bytes : List ℕ)
      → zh.client.sent_requests ≡ c ∷ later
      → (c.xid ==ℤ hdr.xid) ≡ true
      → process_reply H replies adaptor closing zh hdr ia bytes
        ≡ goes_on (
            complete H replies adaptor closing
              (with_requests H replies adaptor closing zh later)
              c
              hdr
              ia
              bytes)
  unfolding process_reply dequeue_completion
  process_reply-complete zh c later hdr ia bytes e same =
      let taken : dequeue_completion zh.client.sent_requests ≡ (some c, later) =
        rw (e, dequeue_completion) in
      rw (process_reply, taken, same) (rw taken)

  process_packet-IsAfter :
      (zh : Session H A) (c : Completion) (bptr : Incoming) (later : List Completion)
      → zh.client.sent_requests ≡ c ∷ later
      → IsAnswer c bptr
      → (zh' : Session H A) × (process_packet H replies adaptor closing zh bptr ≡ goes_on zh')
        × IsAfter zh' later
            (zh.notified ++ woken c bptr)
            (zh.completions_to_process ++ queued c bptr)
  process_packet-IsAfter zh c bptr later e answer =
      let noted = note_zxid H replies adaptor closing zh (read bptr).0 in
      let dequeued = with_requests H replies adaptor closing noted later in
      (
        complete H replies adaptor closing dequeued c (read bptr).0 (read bptr).1
            (bytes_of bptr.buffer),
        process_packet-reply zh c bptr answer
            ∙ process_reply-complete noted c later (read bptr).0 (read bptr).1
                (bytes_of bptr.buffer) e answer.0,
        complete-IsAfter dequeued c bptr,
      )

  -- When the packets that have been received answer the first requests of the queue in their
  -- order, and none of them is an event or an answer to authentication, all of them are processed:
  -- the other requests wait on, each blocked caller is woken with the code and the contents of its
  -- own reply, and each other completion but a ping is queued to be called with the bytes of its
  -- own reply, all in the order of the requests.
  pub process_packets-IsAfter :
      (zh : Session H A) (pairs : List (Completion × Incoming)) (later : List Completion)
      → zh.client.sent_requests ≡ requests pairs ++ later
      → AreAnswers pairs
      → (zh' : Session H A) × (process_packets H replies adaptor closing zh (packets pairs)
          ≡ goes_on zh')
        × IsAfter zh' later
            (zh.notified ++ all_woken pairs)
            (zh.completions_to_process ++ all_queued pairs)
  unfolding process_packets
  process_packets-IsAfter zh [] later e answers =
      (zh, refl, record { sent = e; told = sym (append-nil _); ready = sym (append-nil _) })
  process_packets-IsAfter zh ((c, bptr) ∷ pairs) later e (answer, answers) =
      let start : Session H A = record zh { to_process = packets pairs } in
      let (zh1, run, first) =
        process_packet-IsAfter start c bptr (requests pairs ++ later) e answer in
      let (zh2, runs, rest) = process_packets-IsAfter zh1 pairs later first.sent answers in
      (
        zh2,
        rw (process_packets, run) runs,
        record {
          sent = rest.sent;
          told = rw (rest.told, first.told, append_assoc);
          ready = rw (rest.ready, first.ready, append_assoc);
        },
      )
