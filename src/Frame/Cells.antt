-- ===== src/Frame/Cells.antt =====
-- zookeeper.c: the queues of packets as the code keeps them, a pointer to the first and to the
-- last of linked cells, and that they are the lists which the other files use.
pub mod Chain
pub mod Refinement
use elephants.Base.{
  ℕ, Bool, true, false, not, Option, none, some, List, [], ◌∷◌, ◌==◌, if◌then◌else◌,
}
use elephants.Frame.{Packet, queue_buffer, dequeue_buffer}

-- `buffer_list_t`; 0 is NULL.
pub record Cell : Type 0 where
  pub packet : Packet
  pub next : ℕ

-- The memory of the cells, by their addresses.
abbrev pub Store : Type 0
Store = ℕ → Cell

-- `buffer_head_t`
pub record BufferHead : Type 0 where
  pub head : ℕ
  pub last : ℕ

abbrev pub set_next : Store → ℕ → ℕ → Store
set_next s x n y = if y == x then record (s y) { next = n } else s y

-- `dequeue_buffer`: 0 where the queue is empty; `none` where the assertion fails.
unfoldable pub dequeue_cell : Store → BufferHead → Option (ℕ × BufferHead)
dequeue_cell s list =
    let b = list.head in
    let next = (s b).next in
    if b == 0
    then some (b, list)
    else if next == 0
    then (if b == list.last then some (b, record { head = next; last = 0 }) else none)
    else some (b, record { head = next; last = list.last })

-- `queue_buffer`
unfoldable pub queue_cell : Store → BufferHead → ℕ → Bool → Option (Store × BufferHead)
queue_cell s list b add_to_front =
    let cleared = set_next s b 0 in
    if not (list.head == 0)
    then (if list.last == 0
        then none
        else if add_to_front
        then some (set_next cleared b list.head, record { head = b; last = list.last })
        else some (set_next cleared list.last b, record { head = list.head; last = b }))
    else some (cleared, record { head = b; last = b })

-- What is done to a queue.
pub data Operation : Type 0 where
  put : ℕ → Bool → Operation
  get : Operation

abbrev pub State : Type 0
State = Store × BufferHead

abbrev pub dequeued : Store → Option (ℕ × BufferHead) → Option (ℕ × State)
dequeued s none = none
dequeued s (some (b, list)) = some (b, (s, list))

abbrev pub added : Option State → Option (ℕ × State)
added none = none
added (some state) = some (0, state)

-- The cell that is taken, 0 for none, and the queue.
abbrev pub step : Operation → State → Option (ℕ × State)
step (put b add_to_front) (s, list) = added (queue_cell s list b add_to_front)
step get (s, list) = dequeued s (dequeue_cell s list)

-- The same on lists of packets, given the packets of the cells.
abbrev pub step_list : Operation → Store → List Packet → Option Packet × List Packet
step_list (put b add_to_front) s list = (none, queue_buffer list (s b).packet add_to_front)
step_list get s list = dequeue_buffer list
