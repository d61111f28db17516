-- ===== src/Frame/Cells/Refinement.antt =====
-- The queues of cells do what the queues of packets do.
use elephants.Base.{
  ℕ, ◌≡◌, refl, sym, ap, ◌∙◌, Bool, true, false, Option, none, some, List, [], ◌∷◌, ◌++◌, ◌==◌,
  if◌then◌else◌,
}
use elephants.Frame.{Packet, queue_buffer, dequeue_buffer}
use elephants.Frame.Cells.{
  Store, BufferHead, set_next, dequeue_cell, queue_cell, Operation, put, get, State, step,
  step_list,
}
use elephants.Frame.Cells.Chain.{
  same_self, is_among, IsChain, packets_at, Refines, packets_at-set_next, IsChain-set_next,
  IsChain-front, IsChain-back, start, last-is_among, next-here,
}

-- A cell that is put in a queue is none of the queue.
abbrev pub IsFresh : Operation → List ℕ → Type 0
IsFresh (put b add_to_front) addrs = ((b == 0) ≡ false) × (is_among b addrs ≡ false)
IsFresh get addrs = Unit

-- The packet of a cell that was taken.
abbrev pub taken : Store → ℕ → Option Packet
taken s r = if r == 0 then none else some (s r).packet

-- What an operation leaves: the queue of cells stands for the list, and the cell that was taken has
-- the packet.
abbrev pub IsStep : Operation → State → Option Packet × List Packet → Type 0
IsStep op state (packet, list) =
    (r : ℕ) × (after : State) × (addrs : List ℕ) × (step op state ≡ some (r, after))
    × (taken state.0 r ≡ packet)
    × Refines after addrs list

get-IsStep :
    (s : Store) (q : BufferHead) (addrs : List ℕ)
    → IsChain s q.head q.last addrs
    → IsStep get (s, q) (step_list get s (packets_at s addrs))
unfolding dequeue_cell dequeue_buffer
get-IsStep s q [] (e, l) =
    (q.head, (s, q), [], rw (dequeue_cell, e), rw e, record { chain = (e, l); contents = refl })
get-IsStep s q (a ∷ []) (e, null, l, end) = (
  a,
  (s, record { head = 0; last = 0 }),
  [],
  rw (dequeue_cell, e, null, end, l) (rw (same_self a)),
  rw null,
  record { chain = (refl, refl); contents = refl },
)
get-IsStep s q (a ∷ b ∷ addrs) (e, null, fresh, rest) =
    let (f, set) = start s (s a).next q.last b addrs rest in
    let more : ((s a).next == 0) ≡ false = rw f set in
    (
      a,
      (s, record { head = (s a).next; last = q.last }),
      b ∷ addrs,
      rw (dequeue_cell, e, null, more),
      rw null,
      record { chain = rest; contents = refl },
    )

packets_at-append :
    (s : Store) (addrs : List ℕ) (b : ℕ)
    → packets_at s (addrs ++ b ∷ []) ≡ packets_at s addrs ++ (s b).packet ∷ []
packets_at-append s [] b = refl
packets_at-append s (a ∷ addrs) b = ap (λ l. (s a).packet ∷ l) (packets_at-append s addrs b)

-- The head and the last of a queue that is not empty.
not_null :
    (s : Store) (q : BufferHead) (a : ℕ) (addrs : List ℕ)
    → IsChain s q.head q.last (a ∷ addrs)
    → ((q.head == 0) ≡ false) × ((q.last == 0) ≡ false)
not_null s q a addrs h =
    let (e, set) = start s q.head q.last a addrs h in
    (rw e set, (last-is_among s q.head q.last a addrs h).1)

put-IsStep :
    (s : Store) (q : BufferHead) (addrs : List ℕ) (b : ℕ) (add_to_front : Bool)
    → IsChain s q.head q.last addrs
    → (b == 0) ≡ false
    → is_among b addrs ≡ false
    → IsStep (put b add_to_front) (s, q) (step_list (put b add_to_front) s (packets_at s addrs))
unfolding queue_cell queue_buffer
put-IsStep s q [] b add_to_front (e, l) null fresh = (
  0,
  (set_next s b 0, record { head = b; last = b }),
  b ∷ [],
  rw (queue_cell, e),
  refl,
  record {
    chain = (refl, null, refl, next-here s b 0);
    contents = packets_at-set_next s b 0 (b ∷ []);
  },
)
put-IsStep s q (a ∷ addrs) b true h null fresh =
    let (head, last) = not_null s q a addrs h in
    let cleared = set_next s b 0 in
    (
      0,
      (set_next cleared b q.head, record { head = b; last = q.last }),
      b ∷ a ∷ addrs,
      rw (queue_cell, head, last),
      refl,
      record {
        chain =
            IsChain-front cleared q.head q.last a b addrs null fresh
              (IsChain-set_next s b 0 q.head q.last (a ∷ addrs) fresh h);
        contents =
            packets_at-set_next cleared b q.head (b ∷ a ∷ addrs)
            ∙ packets_at-set_next s b 0 (b ∷ a ∷ addrs);
      },
    )
put-IsStep s q (a ∷ addrs) b false h null fresh =
    let (head, last) = not_null s q a addrs h in
    let cleared = set_next s b 0 in
    (
      0,
      (set_next cleared q.last b, record { head = q.head; last = b }),
      (a ∷ addrs) ++ b ∷ [],
      rw (queue_cell, head, last),
      refl,
      record {
        chain =
            IsChain-back cleared q.head q.last a b addrs null fresh (next-here s b 0)
              (IsChain-set_next s b 0 q.head q.last (a ∷ addrs) fresh h);
        contents =
            packets_at-set_next cleared q.last b ((a ∷ addrs) ++ b ∷ [])
            ∙ packets_at-set_next s b 0 ((a ∷ addrs) ++ b ∷ [])
            ∙ packets_at-append s (a ∷ addrs) b;
      },
    )

-- For the queues of packets as the code keeps them, pointers to the first and the last of linked
-- cells: where such a queue stands for a list of packets, to put a cell that is not in it at the
-- front or the back, and to take the first cell, does what it does to the list; no assertion
-- fails, and the result is such a queue again.
pub queue_cell-Refines :
    (op : Operation) (state : State) (addrs : List ℕ) (list : List Packet)
    → Refines state addrs list
    → IsFresh op addrs
    → IsStep op state (step_list op state.0 list)
queue_cell-Refines (put b add_to_front) (s, q) addrs list h (null, fresh) =
    rw (sym h.contents) (put-IsStep s q addrs b add_to_front h.chain null fresh)
queue_cell-Refines get (s, q) addrs list h fresh =
    rw (sym h.contents) (get-IsStep s q addrs h.chain)
