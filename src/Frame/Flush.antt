-- ===== src/Frame/Flush.antt =====
-- `flush_send_queue` keeps the stream whole, and ends.
use elephants.Base.{
  ℕ, ◌≤◌, ◌≡◌, refl, sym, ap, ◌∙◌, Bool, true, false, not, ◌&&◌, ◌||◌, Option, none, some, List, [],
  ◌∷◌, ◌++◌, append_assoc, ℤ, pos, ◌==ℤ◌, ltb_ℤ, is_neg, length, arith, Bool-cases, inl, inr,
}
use elephants.Frame.{
  Packet, Attempt, send_buffer, Round, after, flush_send_queue, remove_buffer, zok, zconnectionloss,
  zoperationtimeout,
}
use elephants.Frame.Send.{
  pending, all_pending, IsPacket, ArePackets, Leaves, send_buffer-Leaves, send_buffer-codes,
}

-- What a run of `flush_send_queue` leaves behind: the bytes that went out and those still to go are
-- the bytes that were to go before.
pub IsFlushed : List Packet → Option (ℤ × List ℕ × List Packet) → Type 0
IsFlushed queue none = 0 ≤ 0
IsFlushed queue (some (rc, out, left)) =
    (out ++ all_pending left ≡ all_pending queue) × ArePackets left

unchanged :
    (queue : List Packet) (rc : ℤ) → ArePackets queue → IsFlushed queue (some (rc, [], queue))
unfolding IsFlushed
unchanged queue rc h = (refl, h)

kept :
    (queue : List Packet) (out : List ℕ) (left : List Packet) (rc : ℤ)
    → out ++ all_pending left ≡ all_pending queue
    → ArePackets left
    → IsFlushed queue (some (rc, out, left))
unfolding IsFlushed
kept queue out left rc e h = (e, h)

after-IsFlushed :
    (out : List ℕ) (queue queue1 : List Packet) (result : Option (ℤ × List ℕ × List Packet))
    → out ++ all_pending queue1 ≡ all_pending queue
    → IsFlushed queue1 result
    → IsFlushed queue (after out result)
unfolding IsFlushed
after-IsFlushed out queue queue1 none e h = h
after-IsFlushed out queue queue1 (some (rc, more, left)) e (moves, are) =
    (append_assoc out more (all_pending left) ∙ ap (λ x. out ++ x) moves ∙ e, are)

module _ (timeout : ℤ) where
  -- What went out of the head of the queue.
  stepped :
      (header body : Attempt) (buff : Packet) (queue : List Packet)
      → IsPacket buff
      → let (rc, out, buff1) = send_buffer header body buff in
        (out ++ all_pending (buff1 ∷ queue) ≡ all_pending (buff ∷ queue))
        × IsPacket buff1
        × (rc ≡ pos 1 → out ++ all_pending queue ≡ all_pending (buff ∷ queue))
  unfolding Leaves
  stepped header body buff queue h =
      let (moves, still, done) = send_buffer-Leaves header body buff h in
      let (rc, out, buff1) = send_buffer header body buff in
      let whole =
        sym (append_assoc out (pending buff1) (all_pending queue))
        ∙ ap (λ x. x ++ all_pending queue) moves in
      (whole, still, λ e. ap (λ x. out ++ (x ++ all_pending queue)) (sym (done e)) ∙ whole)

  late : Round → Bool
  late round = not (timeout ==ℤ pos 0) && ltb_ℤ timeout round.elapsed

  unready : Round → Bool
  unready round = not (timeout ==ℤ pos 0) && (is_neg round.polled || round.polled ==ℤ pos 0)

  -- For a queue of packets whose lengths are those of their bytes, each sent no further than its
  -- end: however the socket takes the bytes, in pieces or not at all, and whatever the clock and
  -- `poll` say, what `flush_send_queue` has put on the wire when it returns, followed by what its
  -- queue still has to send, is what the queue had to send before. So no byte is lost, sent twice
  -- or out of order.
  pub flush_send_queue-IsFlushed :
      (connected : Bool) (rounds : List Round) (queue : List Packet)
      → ArePackets queue
      → IsFlushed queue (flush_send_queue connected timeout rounds queue)
  unfolding flush_send_queue remove_buffer late unready
  flush_send_queue-IsFlushed connected rounds [] h = unchanged [] zok h
  flush_send_queue-IsFlushed false rounds (buff ∷ queue) h = unchanged (buff ∷ queue) zok h
  flush_send_queue-IsFlushed true [] (buff ∷ queue) h = unfold IsFlushed in omega arith
  flush_send_queue-IsFlushed true (round ∷ rounds) (buff ∷ queue) h =
      let (moves, still, done) = stepped round.header round.body buff queue h.0 in
      let codes = send_buffer-codes round.header round.body buff in
      let sent = send_buffer round.header round.body buff in
      let again = flush_send_queue-IsFlushed true rounds (sent.2 ∷ queue) (still, h.1) in
      let removed = flush_send_queue-IsFlushed true rounds queue h.1 in
      elim (Bool-cases (late round)) [
        | inl l ↦ rw (flush_send_queue, l) (unchanged (buff ∷ queue) zoperationtimeout h)
        | inr l ↦ elim (Bool-cases (unready round)) [
          | inl u ↦ rw (flush_send_queue, l, u) (unchanged (buff ∷ queue) _ h)
          | inr u ↦ elim (Bool-cases (sent.0 ==ℤ pos 0 && timeout ==ℤ pos 0)) [
            | inl held ↦
                rw (flush_send_queue, l, u, held)
                  (kept (buff ∷ queue) sent.1 (sent.2 ∷ queue) zok moves (still, h.1))
            | inr goes ↦ elim (Bool-cases (is_neg sent.0)) [
              | inl lost ↦
                  rw (flush_send_queue, l, u, goes, lost)
                    (kept (buff ∷ queue) sent.1 (sent.2 ∷ queue) zconnectionloss moves (still, h.1))
              | inr fine ↦ elim (Bool-cases (ltb_ℤ (pos 0) sent.0)) [
                | inl whole ↦
                    rw (flush_send_queue, l, u, goes, fine, whole)
                      (after-IsFlushed sent.1 (buff ∷ queue) queue _ (done (ground arith)) removed)
                | inr part ↦
                    rw (flush_send_queue, l, u, goes, fine, part)
                      (after-IsFlushed sent.1 (buff ∷ queue) (sent.2 ∷ queue) _ moves again)
              ]
            ]
          ]
        ]
      ]

abbrev pub returns : Option (ℤ × List ℕ × List Packet) → Bool
returns none = false
returns (some r) = true

returns-after :
    (out : List ℕ) (r : Option (ℤ × List ℕ × List Packet))
    → returns r ≡ true
    → returns (after out r) ≡ true
returns-after out none h = h
returns-after out (some r) h = refl

-- Without a timeout `flush_send_queue` does not wait: it returns after at most one round for each
-- packet of the queue, whatever the socket does.
pub flush_send_queue-returns :
    (connected : Bool) (rounds : List Round) (queue : List Packet)
    → length queue ≤ length rounds
    → returns (flush_send_queue connected (pos 0) rounds queue) ≡ true
unfolding flush_send_queue remove_buffer
flush_send_queue-returns connected rounds [] h = refl
flush_send_queue-returns false rounds (buff ∷ queue) h = refl
flush_send_queue-returns true [] (buff ∷ queue) h = absurd (omega arith)
flush_send_queue-returns true (round ∷ rounds) (buff ∷ queue) h =
    let codes = send_buffer-codes round.header round.body buff in
    let sent = send_buffer round.header round.body buff in
    let removed = flush_send_queue-returns true rounds queue (omega arith) in
    elim codes [
      | inl one ↦ rw (flush_send_queue, one) (returns-after sent.1 _ removed)
      | inr (inl held) ↦ rw (flush_send_queue, held)
      | inr (inr lost) ↦ rw (flush_send_queue, lost)
    ]
