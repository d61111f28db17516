-- ===== src/Frame/Send.antt =====
-- Whatever the socket does, the bytes that have gone out are the packets' frames in their order:
-- those on the wire, followed by those still to go, never change.
use elephants.Base.{
  ℕ, zero, suc, ◌+◌, ◌-◌, ◌≤◌, ◌≡◌, ◌≢◌, ◌⊎◌, refl, sym, ap, ◌∙◌, List, [], ◌∷◌, ◌++◌, append-nil,
  append_assoc, ℤ, pos, negsuc, ltb, leb, length, take, drop, take_all, length-append, length-drop,
  drop-drop, drop-append, arith, Bool-cases, inl, inr,
}
use elephants.Wire.Word.{be32}
use elephants.Frame.{Packet, Attempt, up_to, would_block, error, send_body, send_buffer, finish}

-- The frame of a packet, and what of it has not gone out.
abbrev pub frame : Packet → List ℕ
frame buff = be32 buff.len ++ buff.buffer

abbrev pub pending : Packet → List ℕ
pending buff = drop buff.curr_offset (frame buff)

abbrev pub all_pending : List Packet → List ℕ
all_pending [] = []
all_pending (buff ∷ queue) = pending buff ++ all_pending queue

-- A packet whose length is that of its bytes, and whose offset lies within its frame.
abbrev pub IsPacket : Packet → Type 0
IsPacket buff = (length buff.buffer ≡ buff.len) × (buff.curr_offset ≤ 4 + buff.len)

abbrev pub ArePackets : List Packet → Type 0
ArePackets [] = 0 ≤ 0
ArePackets (buff ∷ queue) = IsPacket buff × ArePackets queue

module _ {ℓ} {A : Type ℓ} where
  -- Of what is offered, the first bytes go out, and the rest is left.
  offered : (c : ℕ) (xs : List A) → take c xs ++ drop (length (take c xs)) xs ≡ xs
  offered zero xs = refl
  offered (suc c) [] = refl
  offered (suc c) (x ∷ xs) = rw (offered c xs)

  drop_within : (k : ℕ) (xs ys : List A) → k ≤ length xs → drop k (xs ++ ys) ≡ drop k xs ++ ys
  drop_within zero xs ys h = refl
  drop_within (suc k) [] ys h = absurd (omega arith)
  drop_within (suc k) (x ∷ xs) ys h = drop_within k xs ys (omega arith)

  drop_all : (k : ℕ) (xs : List A) → length xs ≤ k → drop k xs ≡ []
  drop_all zero [] h = refl
  drop_all zero (x ∷ xs) h = absurd (omega arith)
  drop_all (suc k) [] h = refl
  drop_all (suc k) (x ∷ xs) h = drop_all k xs (omega arith)

length-frame : (buff : Packet) → IsPacket buff → length (frame buff) ≡ 4 + buff.len
length-frame buff h = omega (arith, h.0)

pending-body :
    (buff : Packet) → 4 ≤ buff.curr_offset → pending buff ≡ drop (buff.curr_offset - 4) buff.buffer
pending-body buff h =
    let e : 4 + (buff.curr_offset - 4) ≡ buff.curr_offset = omega arith in
    rw e at (sym (drop-drop (buff.curr_offset - 4) 4 (frame buff)))

-- What a call of `send_buffer` that has sent `out` before leaves behind.
unfoldable pub Leaves : List ℕ → Packet → ℤ × List ℕ × Packet → Type 0
Leaves out buff (rc, out1, buff1) =
    (out1 ++ pending buff1 ≡ out ++ pending buff)
    × IsPacket buff1
    × (rc ≡ pos 1 → pending buff1 ≡ [])

-- After some bytes of what is pending have gone out, the rest is pending.
pending-moved :
    (buff : Packet) (bytes rest : List ℕ)
    → IsPacket buff
    → bytes ++ rest ≡ pending buff
    → (bytes ++ pending (record buff { curr_offset = buff.curr_offset + length bytes })
        ≡ pending buff)
      × IsPacket (record buff { curr_offset = buff.curr_offset + length bytes })
pending-moved buff bytes rest h e =
    let l = length-append bytes rest in
    let lp = length-drop buff.curr_offset (frame buff) in
    let lf = length-frame buff h in
    let le = ap (length {A = ℕ}) e in
    let left : drop (length bytes) (bytes ++ rest) ≡ rest =
      drop-append (length bytes) bytes rest refl in
    (
      rw (← drop-drop (length bytes) buff.curr_offset (frame buff), ← e, left) refl,
      (h.0, omega (arith, h.1)),
    )

finish-Leaves :
    (out : List ℕ) (buff : Packet) (bytes : List ℕ) (buff1 : Packet)
    → bytes ++ pending buff1 ≡ pending buff
    → IsPacket buff1
    → Leaves out buff (finish (out ++ bytes) buff1)
unfolding Leaves
finish-Leaves out buff bytes buff1 e h = (
  rw (append_assoc out bytes (pending buff1), e) refl,
  h,
  λ done. drop_all buff1.curr_offset (frame buff1) (ground (arith, length-frame buff1 h)),
)

finish-unchanged :
    (out : List ℕ) (buff : Packet) → IsPacket buff → Leaves out buff (finish out buff)
finish-unchanged out buff h = rw append-nil at (finish-Leaves out buff [] buff refl h)

failed-Leaves :
    (out : List ℕ) (buff : Packet) (rc : ℤ)
    → IsPacket buff
    → rc ≢ pos 1
    → Leaves out buff (rc, out, buff)
unfolding Leaves
failed-Leaves out buff rc h e = (refl, h, λ x. absurd (e x))

Leaves-trans :
    (out : List ℕ) (buff : Packet) (out1 : List ℕ) (buff1 : Packet) (result : ℤ × List ℕ × Packet)
    → out1 ++ pending buff1 ≡ out ++ pending buff
    → Leaves out1 buff1 result
    → Leaves out buff result
unfolding Leaves
Leaves-trans out buff out1 buff1 result e (moves, still, done) = (moves ∙ e, still, done)

send_body-Leaves :
    (attempt : Attempt) (out : List ℕ) (buff : Packet)
    → IsPacket buff
    → Leaves out buff (send_body attempt out buff)
unfolding send_body
send_body-Leaves would_block out buff h = elim (Bool-cases (leb 4 buff.curr_offset)) [
  | inr e ↦ rw (send_body, e) (finish-unchanged out buff h)
  | inl e ↦ rw (send_body, e) (finish-unchanged out buff h)
]
send_body-Leaves error out buff h = elim (Bool-cases (leb 4 buff.curr_offset)) [
  | inr e ↦ rw (send_body, e) (finish-unchanged out buff h)
  | inl e ↦ rw (send_body, e) (failed-Leaves out buff (negsuc 0) h (λ x. ground (arith, x)))
]
send_body-Leaves (up_to c) out buff h = elim (Bool-cases (leb 4 buff.curr_offset)) [
  | inr e ↦ rw (send_body, e) (finish-unchanged out buff h)
  | inl e ↦
      let off = buff.curr_offset - 4 in
      let all : take (buff.len - off) (drop off buff.buffer) ≡ drop off buff.buffer =
        take_all (buff.len - off) (drop off buff.buffer)
          (omega (arith, length-drop off buff.buffer, h.0)) in
      let (moves, still) =
        pending-moved buff (take c (drop off buff.buffer)) _ h
          (offered c (drop off buff.buffer) ∙ sym (pending-body buff (ground (arith, e)))) in
      rw (send_body, e, all) (finish-Leaves out buff _ _ moves still)
]

pub send_buffer-Leaves :
    (header body : Attempt) (buff : Packet)
    → IsPacket buff
    → Leaves [] buff (send_buffer header body buff)
unfolding send_buffer
send_buffer-Leaves would_block body buff h = elim (Bool-cases (ltb buff.curr_offset 4)) [
  | inr e ↦ rw (send_buffer, e) (send_body-Leaves body [] buff h)
  | inl e ↦ rw (send_buffer, e) (failed-Leaves [] buff (pos 0) h (λ x. ground (arith, x)))
]
send_buffer-Leaves error body buff h = elim (Bool-cases (ltb buff.curr_offset 4)) [
  | inr e ↦ rw (send_buffer, e) (send_body-Leaves body [] buff h)
  | inl e ↦ rw (send_buffer, e) (failed-Leaves [] buff (negsuc 0) h (λ x. ground (arith, x)))
]
send_buffer-Leaves (up_to c) body buff h = elim (Bool-cases (ltb buff.curr_offset 4)) [
  | inr e ↦ rw (send_buffer, e) (send_body-Leaves body [] buff h)
  | inl e ↦
      let off = buff.curr_offset in
      let within = drop_within off (be32 buff.len) buff.buffer (ground (arith, e)) in
      let bytes = take c (drop off (be32 buff.len)) in
      let (moves, still) =
        pending-moved buff bytes (drop (length bytes) (drop off (be32 buff.len)) ++ buff.buffer) h (
          sym (append_assoc bytes (drop (length bytes) (drop off (be32 buff.len))) buff.buffer)
          ∙ ap (λ x. x ++ buff.buffer) (offered c (drop off (be32 buff.len)))
          ∙ sym within) in
      rw (send_buffer, e)
        (Leaves-trans [] buff bytes _ _ moves
          (send_body-Leaves body bytes (record buff { curr_offset = off + length bytes }) still))
]

pub send_buffer-codes :
    (header body : Attempt) (buff : Packet)
    → let rc = (send_buffer header body buff).0 in (rc ≡ pos 1) ⊎ ((rc ≡ pos 0) ⊎ (rc ≡ negsuc 0))
unfolding send_buffer send_body
send_buffer-codes header body buff = ground arith
