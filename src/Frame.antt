-- ===== src/Frame.antt =====
-- zookeeper.c: the packets on the connection. A packet is four bytes of length, highest first, and
-- the bytes of a message; the queues `to_send` and `to_process` are lists of packets from the head
-- on. What a call of the socket does is decided by an `Attempt`; the C library's `send` takes, and
-- `recv` gives, no more bytes than asked for and in their order.
pub mod Send
pub mod Flush
pub mod Receive
pub mod Cells
use elephants.Base.{
  ℕ, zero, suc, ◌+◌, ◌-◌, ◌*◌, ◌/◌, ◌%◌, ◌^◌, Bool, true, false, not, ◌&&◌, ◌||◌, Option, none,
  some, List, [], ◌∷◌, ◌++◌, ℤ, pos, negsuc, ◌==ℤ◌, ltb_ℤ, is_neg, ltb, leb, ◌==◌, length, take,
  drop, min, if◌then◌else◌,
}
use elephants.Wire.Word.{be32, from_be, from_image, signed32}

abbrev pub zok : ℤ
zok = pos 0

abbrev pub zsystemerror : ℤ
zsystemerror = negsuc 0

abbrev pub zconnectionloss : ℤ
zconnectionloss = negsuc 3

abbrev pub zoperationtimeout : ℤ
zoperationtimeout = negsuc 6

-- `buffer_list_t`, a packet to send; `buffer` holds the bytes that may be read behind the pointer.
pub record Packet : Type 0 where
  pub buffer : List ℕ
  pub len : ℕ
  pub curr_offset : ℕ

-- `sizeof(*buffer)` where a pointer has eight bytes.
abbrev pub sizeof_buffer_list : ℕ
sizeof_buffer_list = 24

-- `calloc` fails where the first argument is false.
unfoldable pub allocate_buffer : Bool → List ℕ → ℕ → Option Packet
allocate_buffer false buff len = none
allocate_buffer true buff len =
    some (record {
      buffer = buff;
      len = if len == 0 then sizeof_buffer_list else len;
      curr_offset = 0;
    })

unfoldable pub dequeue_buffer : List Packet → Option Packet × List Packet
dequeue_buffer [] = (none, [])
dequeue_buffer (b ∷ list) = (some b, list)

unfoldable pub remove_buffer : List Packet → ℕ × List Packet
unfolding dequeue_buffer
remove_buffer list =
    let (b, rest) = dequeue_buffer list in elim b [ none ↦ (0, rest) | some p ↦ (1, rest) ]

unfoldable pub queue_buffer : List Packet → Packet → Bool → List Packet
queue_buffer [] b add_to_front = b ∷ []
queue_buffer (head ∷ list) b add_to_front =
    if add_to_front then b ∷ head ∷ list else (head ∷ list) ++ b ∷ []

unfoldable pub queue_buffer_bytes : Bool → List Packet → List ℕ → ℕ → ℤ × List Packet
unfolding allocate_buffer queue_buffer
queue_buffer_bytes calloc list buff len = elim (allocate_buffer calloc buff len) [
  | none ↦ (zsystemerror, list)
  | some b ↦ (zok, queue_buffer list b false)
]

unfoldable pub queue_front_buffer_bytes : Bool → List Packet → List ℕ → ℕ → ℤ × List Packet
unfolding allocate_buffer queue_buffer
queue_front_buffer_bytes calloc list buff len = elim (allocate_buffer calloc buff len) [
  | none ↦ (zsystemerror, list)
  | some b ↦ (zok, queue_buffer list b true)
]

unfoldable pub get_queue_len : List Packet → ℕ
get_queue_len [] = 0
get_queue_len (ptr ∷ next) = suc (get_queue_len next)

-- What the next call of `send` or `recv` does: it moves at most so many bytes, or it would block, or
-- it fails.
pub data Attempt : Type 0 where
  up_to : ℕ → Attempt
  would_block error : Attempt

pub data Sent : Type 0 where
  moved : List ℕ → Sent
  blocked broken : Sent

abbrev pub zookeeper_send : Attempt → List ℕ → Sent
zookeeper_send (up_to c) offered = moved (take c offered)
zookeeper_send would_block offered = blocked
zookeeper_send error offered = broken

-- The return code of `send_buffer`, the bytes that went out, and the packet.
abbrev pub finish : List ℕ → Packet → ℤ × List ℕ × Packet
finish out buff = (if buff.curr_offset == buff.len + 4 then pos 1 else pos 0, out, buff)

-- `if (off >= 4) ...` to the end of `send_buffer`.
unfoldable pub send_body : Attempt → List ℕ → Packet → ℤ × List ℕ × Packet
send_body attempt out buff =
    let off = buff.curr_offset - 4 in
    if leb 4 buff.curr_offset
    then elim (zookeeper_send attempt (take (buff.len - off) (drop off buff.buffer))) [
      | moved bytes ↦
          finish (out ++ bytes) (record buff { curr_offset = buff.curr_offset + length bytes })
      | blocked ↦ finish out buff
      | broken ↦ (negsuc 0, out, buff)
    ]
    else finish out buff

unfoldable pub send_buffer : Attempt → Attempt → Packet → ℤ × List ℕ × Packet
unfolding send_body
send_buffer header body buff =
    if ltb buff.curr_offset 4
    then elim (zookeeper_send header (drop buff.curr_offset (be32 buff.len))) [
      | moved bytes ↦
          send_body body bytes (record buff { curr_offset = buff.curr_offset + length bytes })
      | blocked ↦ (pos 0, [], buff)
      | broken ↦ (negsuc 0, [], buff)
    ]
    else send_body body [] buff

-- A round of the loop of `flush_send_queue`: the milliseconds since it began, what `poll` returns,
-- and the attempts of `send_buffer`.
pub record Round : Type 0 where
  pub elapsed : ℤ
  pub polled : ℤ
  pub header : Attempt
  pub body : Attempt

-- The return code of `flush_send_queue`, the bytes that went out, and the queue.
abbrev pub after : List ℕ → Option (ℤ × List ℕ × List Packet) → Option (ℤ × List ℕ × List Packet)
after out none = none
after out (some (rc, more, queue)) = some (rc, out ++ more, queue)

-- `none`: the rounds are used up and the loop still runs.
unfoldable pub flush_send_queue :
    Bool → ℤ → List Round → List Packet → Option (ℤ × List ℕ × List Packet)
unfolding send_buffer remove_buffer
flush_send_queue connected timeout rounds [] = some (zok, [], [])
flush_send_queue false timeout rounds (buff ∷ queue) = some (zok, [], buff ∷ queue)
flush_send_queue true timeout [] (buff ∷ queue) = none
flush_send_queue true timeout (round ∷ rounds) (buff ∷ queue) =
    let (rc, out, buff1) = send_buffer round.header round.body buff in
    let removed = flush_send_queue true timeout rounds (remove_buffer (buff1 ∷ queue)).1 in
    let again = flush_send_queue true timeout rounds (buff1 ∷ queue) in
    if not (timeout ==ℤ pos 0) && ltb_ℤ timeout round.elapsed
    then some (zoperationtimeout, [], buff ∷ queue)
    else if not (timeout ==ℤ pos 0) && (is_neg round.polled || round.polled ==ℤ pos 0)
    then some (if round.polled ==ℤ pos 0 then zoperationtimeout else zsystemerror, [], buff ∷ queue)
    else if rc ==ℤ pos 0 && timeout ==ℤ pos 0
    then some (zok, out, buff1 ∷ queue)
    else if is_neg rc
    then some (zconnectionloss, out, buff1 ∷ queue)
    else after out (if ltb_ℤ (pos 0) rc then removed else again)

-- A packet that is being received: `image` is the memory of its `len`, `buffer` is none for NULL.
pub record Incoming : Type 0 where
  pub image : List ℕ
  pub buffer : Option (List ℕ)
  pub curr_offset : ℕ

pub data Received : Type 0 where
  got : List ℕ → List ℕ → Received
  closed blocked broken : Received

abbrev pub chunk : List ℕ → List ℕ → Received
chunk [] rest = closed
chunk (x ∷ xs) rest = got (x ∷ xs) rest

-- `recv` of `n` bytes from the stream of the peer; 0 stands for the end of the stream.
abbrev pub recv : Attempt → List ℕ → ℕ → Received
recv (up_to c) stream n = chunk (take (min c n) stream) (drop (min c n) stream)
recv would_block stream n = blocked
recv error stream n = broken

-- A write of bytes at an offset.
abbrev pub overwrite : List ℕ → ℕ → List ℕ → List ℕ
overwrite memory off bytes = take off memory ++ bytes ++ drop (off + length bytes) memory

abbrev pub zeros : ℕ → List ℕ
zeros zero = []
zeros (suc n) = 0 ∷ zeros n

abbrev pub le32 : ℕ → List ℕ
le32 w = (w % 256) ∷ (w / 2 ^ 8 % 256) ∷ (w / 2 ^ 16 % 256) ∷ (w / 2 ^ 24 % 256) ∷ []

-- The image of a word in the memory of a host, and the `int` that it reads there.
abbrev pub image_of : Bool → ℕ → List ℕ
image_of big_endian w = if big_endian then be32 w else le32 w

abbrev pub int_of : Bool → List ℕ → ℤ
int_of big_endian image = signed32 (from_image big_endian image)

-- `calloc(1, len)`; a negative length is a size that is never given.
abbrev pub calloc_bytes : (ℕ → Bool) → ℤ → Option (List ℕ)
calloc_bytes calloc (pos n) = if calloc n then some (zeros n) else none
calloc_bytes calloc (negsuc n) = none

-- `curr_offset == len + sizeof(len)`, where both sides are converted to `size_t`.
abbrev pub is_complete : ℕ → ℤ → Bool
is_complete curr_offset (pos n) = curr_offset == n + 4
is_complete curr_offset (negsuc n) = leb n 3 && curr_offset == 3 - n

-- The parameters of `recv_buffer`: whether the host keeps the highest byte first, and which sizes
-- `calloc` gives.
module _ (big_endian : Bool) (calloc : ℕ → Bool) where
  abbrev pub answer : Incoming → List ℕ → ℤ × Incoming × List ℕ
  answer buff stream = (
    if is_complete buff.curr_offset (int_of big_endian buff.image) then pos 1 else pos 0,
    buff,
    stream,
  )

  -- The number of bytes asked for is an `int` that is converted to `size_t`.
  abbrev pub remaining : ℤ → ℕ → ℕ
  remaining (pos n) off = if leb off n then n - off else 2 ^ 64 + n - off
  remaining (negsuc n) off = 2 ^ 64 - 1 - n - off

  -- `if (buff->buffer) ...` to the end of `recv_buffer`.
  unfoldable pub recv_body : Attempt → Incoming → List ℕ → ℤ × Incoming × List ℕ
  recv_body attempt buff stream = elim buff.buffer [
    | none ↦ answer buff stream
    | some b ↦
        let off = buff.curr_offset - 4 in
        elim (recv attempt stream (remaining (int_of big_endian buff.image) off)) [
          | got bytes rest ↦
              answer
                (record buff {
                  buffer = some (overwrite b off bytes);
                  curr_offset = buff.curr_offset + length bytes;
                })
                rest
          | closed ↦ (negsuc 0, buff, stream)
          | blocked ↦ answer buff stream
          | broken ↦ (negsuc 0, buff, stream)
        ]
  ]

  -- What is done after a piece of the length has been read.
  abbrev pub after_header : Incoming → Incoming
  after_header buff =
      let image = image_of big_endian (from_be buff.image) in
      if buff.curr_offset == 4
      then record buff { image = image; buffer = calloc_bytes calloc (int_of big_endian image) }
      else buff

  unfoldable pub recv_buffer : Attempt → Attempt → Incoming → List ℕ → ℤ × Incoming × List ℕ
  unfolding recv_body
  recv_buffer header body buff stream =
      if ltb buff.curr_offset 4
      then elim (recv header stream (4 - buff.curr_offset)) [
        | got bytes rest ↦
            recv_body body
              (after_header (record buff {
                image = overwrite buff.image buff.curr_offset bytes;
                curr_offset = buff.curr_offset + length bytes;
              }))
              rest
        | closed ↦ (negsuc 0, buff, stream)
        | blocked ↦ (pos 0, buff, stream)
        | broken ↦ (negsuc 0, buff, stream)
      ]
      else recv_body body buff stream
