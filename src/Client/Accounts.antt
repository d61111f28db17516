-- ===== src/Client/Accounts.antt =====
-- What the requests of the API do to the queues of a handle.
use elephants.Base.{
  ℕ, ◌+◌, ◌≡◌, ◌⊎◌, refl, Bool, true, false, Option, none, some, List, [], ◌∷◌, ◌++◌, ℤ, is_neg,
  ◌==◌, arith, Bool-cases, inl, inr, if◌then◌else◌,
}
use elephants.Watch.{Registration}
use elephants.Frame.{Packet, zok}
use elephants.Wire.OArchive.{get_buffer, get_buffer_len}
use elephants.Client.{
  Callback, is_marker, CompletionType, Completion, Handle, Memory, Jute, Outcome, Adaptor, threaded,
  single, Submission, submit, serialized, add_request, queue_packet, add_completion,
  create_completion_entry, queue_completion_nolock, adaptor_send_queue, flushed, unless_failed,
  bytes_of,
}

-- The completions that a blocked caller waits for.
abbrev pub count_markers : List Completion → ℕ
count_markers [] = 0
count_markers (c ∷ list) = if is_marker c.dc then 1 + count_markers list else count_markers list

-- `outstanding_sync` counts them.
abbrev pub IsAccounted : Handle → Type 0
IsAccounted zh = zh.outstanding_sync ≡ count_markers zh.sent_requests

count_markers-append :
    (list more : List Completion)
    → count_markers (list ++ more) ≡ count_markers list + count_markers more
count_markers-append [] more = omega arith
count_markers-append (c ∷ list) more = ground (arith, count_markers-append list more)

count_markers-queue :
    (list : List Completion) (c : Completion) (add_to_front : Bool)
    → count_markers (queue_completion_nolock list c add_to_front)
      ≡ count_markers list + (if is_marker c.dc then 1 else 0)
unfolding queue_completion_nolock
count_markers-queue [] c add_to_front = ground arith
count_markers-queue (head ∷ list) c true = ground arith
count_markers-queue (head ∷ list) c false =
    ground (arith, count_markers-append (head ∷ list) (c ∷ []))

pub add_completion-IsAccounted :
    (calloc : Bool) (zh : Handle) (xid : ℤ) (type : CompletionType) (dc : Callback) (data_of : ℕ)
    (add_to_front : Bool) (wo : Option Registration)
    → IsAccounted zh
    → IsAccounted (add_completion calloc zh xid type dc data_of add_to_front wo).1
unfolding add_completion create_completion_entry
add_completion-IsAccounted false zh xid type dc data_of add_to_front wo h = h
add_completion-IsAccounted true zh xid type dc data_of add_to_front wo h =
    elim (Bool-cases (zh.close_requested == 1)) [
      | inl closing ↦ rw (add_completion, create_completion_entry, closing) h
      | inr active ↦
          let c : Completion = record {
            xid = xid;
            type = type;
            dc = dc;
            data_of = data_of;
            watcher = wo;
          } in
          let counted = count_markers-queue zh.sent_requests c add_to_front in ground arith
    ]

-- A completion that is added to a handle that is not being closed stands at the end of the queue.
add_completion-appends :
    (zh : Handle) (xid : ℤ) (type : CompletionType) (dc : Callback) (data_of : ℕ)
    (wo : Option Registration)
    → (zh.close_requested == 1) ≡ false
    → add_completion true zh xid type dc data_of false wo ≡ (
      zok,
      record zh {
        sent_requests =
            zh.sent_requests
            ++ record { xid = xid; type = type; dc = dc; data_of = data_of; watcher = wo } ∷ [];
        outstanding_sync = if is_marker dc then zh.outstanding_sync + 1 else zh.outstanding_sync;
      },
    )
unfolding add_completion create_completion_entry queue_completion_nolock
add_completion-appends zh xid type dc data_of wo h = elim (Queue-cases zh.sent_requests) [
  | inl e ↦ rw (add_completion, create_completion_entry, h, e)
  | inr (head, list, e) ↦ rw (add_completion, create_completion_entry, h, e)
]
  where
    Queue-cases :
        (list : List Completion)
        → (list ≡ []) ⊎ ((c : Completion) × (more : List Completion) × (list ≡ c ∷ more))
    Queue-cases [] = inl refl
    Queue-cases (c ∷ more) = inr (c, more, refl)

flushed-IsAccounted :
    (zh : Handle) (r : Option (ℤ × List ℕ × List Packet))
    → IsAccounted zh
    → IsAccounted (flushed zh r)
flushed-IsAccounted zh none h = h
flushed-IsAccounted zh (some r) h = h

unless_failed-IsAccounted :
    (r : ℤ × Handle) (f : Handle → ℤ × Handle)
    → IsAccounted r.1
    → ((zh : Handle) → IsAccounted zh → IsAccounted (f zh).1)
    → IsAccounted (unless_failed r f).1
unless_failed-IsAccounted (rc, zh) f h keeps = elim (Bool-cases (is_neg rc)) [
  | inl e ↦ rw e h
  | inr e ↦ rw e (keeps zh h)
]

add_request-IsAccounted :
    (memory : Memory) (zh : Handle) (xid : ℤ) (type : CompletionType) (dc : Callback) (data_of : ℕ)
    (wo : Option Registration) (buffer : List ℕ) (len : ℕ)
    → IsAccounted zh
    → IsAccounted (add_request memory zh xid type dc data_of wo buffer len).1
unfolding add_request
add_request-IsAccounted memory zh xid type dc data_of wo buffer len h =
    unless_failed-IsAccounted (add_completion memory.completion zh xid type dc data_of false wo)
      (queue_packet memory.packet buffer len)
      (add_completion-IsAccounted memory.completion zh xid type dc data_of false wo h)
      (λ zh1 h1. unfold queue_packet in h1)

adaptor_send_queue-IsAccounted :
    (outcome : Outcome) (zh : Handle)
    → IsAccounted zh
    → IsAccounted (adaptor_send_queue outcome.adaptor outcome.rounds zh)
unfolding adaptor_send_queue
adaptor_send_queue-IsAccounted outcome zh h = elim (Adaptor-cases outcome.adaptor) [
  | inl e ↦
      rw (adaptor_send_queue, e)
        (elim (Bool-cases (zh.close_requested == 0)) [
          | inl f ↦ rw f h
          | inr f ↦ rw f (flushed-IsAccounted zh _ h)
        ])
  | inr e ↦ rw (adaptor_send_queue, e) (flushed-IsAccounted zh _ h)
]
  where
    Adaptor-cases : (a : Adaptor) → (a ≡ threaded) ⊎ (a ≡ single)
    Adaptor-cases threaded = inl refl
    Adaptor-cases single = inr refl

module _ {R : Type 0} (jute : Jute R) (outcome : Outcome) where
  pub submit-IsAccounted :
      (s : Submission R) (zh : Handle) → IsAccounted zh → IsAccounted (submit jute outcome s zh).1
  unfolding submit
  submit-IsAccounted s zh h = elim (Bool-cases (is_neg (serialized jute s).0)) [
    | inl e ↦ rw (submit, e) (adaptor_send_queue-IsAccounted outcome zh h)
    | inr e ↦
        let buffer = bytes_of (get_buffer (serialized jute s).1) in
        let len = get_buffer_len (serialized jute s).1 in
        let added =
          add_request outcome.memory zh s.xid s.type s.dc s.data_of s.watcher buffer len in
        rw (submit, e)
          (adaptor_send_queue-IsAccounted outcome added.1 (
            add_request-IsAccounted outcome.memory zh s.xid s.type s.dc s.data_of s.watcher buffer
              len h))
  ]
