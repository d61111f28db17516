-- ===== src/Session/Interest/Wait.antt =====
-- How long `zookeeper_interest` lets the caller wait.
use elephants.Base.{
  ℕ, suc, ◌-◌, ◌*◌, ◌/◌, ◌^◌, ◌≤◌, ◌<◌, ◌≡◌, refl, ap, ◌∙◌, sym, Bool, true, false, ◌&&◌, List, [],
  ◌∷◌, ◌++◌, ℤ, pos, negsuc, pos_part, ◌==ℤ◌, ◌-ℤ◌, ltb_ℤ, ◌==◌, length, arith, Bool-cases, inl,
  inr, if◌then◌else◌,
}
use elephants.Watch.{string_hash_djb2, string_equal, WatcherObject}
use elephants.Watch.Table.{HashTable}
use elephants.Frame.{zok, zoperationtimeout}
use elephants.Client.{Completion, Handle, Adaptor, zoo_connected_state}
use elephants.Session.{Session, Replies}
use elephants.Session.Time.{
  calculate_interval, get_timeval, deadline, quot, times, to_int, to_int-pos,
}
use elephants.Session.Close.{Closing}
use elephants.Session.Complete.{handle_error}
use elephants.Session.Complete.Failure.{callers, handle_error-client}
use elephants.Session.Send.{Writers}
use elephants.Session.Connect.{Events}
use elephants.Session.Interest.{
  Interest, Dial, third, recv_left, send_left, min_ℤ, interest_of, wait, ping_due, poll,
}

get_timeval-clamped : (z : ℤ) → get_timeval z ≡ get_timeval (pos (pos_part z))
unfolding get_timeval
get_timeval-clamped (pos n) = refl
get_timeval-clamped (negsuc n) = refl

left_pos : (r i : ℕ) → i < r * 2 / 3 → quot (pos (r * 2)) 3 -ℤ pos i ≡ pos (r * 2 / 3 - i)
left_pos r i h = ground arith

positive : (a : ℕ) → 0 < a → ltb_ℤ (pos 0) (pos a) ≡ true
positive a h = ground arith

doubled : (r : ℕ) → r < 2 ^ 30 → to_int (times (pos r) 2) ≡ pos (r * 2)
doubled r h = to_int-pos (r * 2) (omega arith)

wrapped :
    (r i : ℕ)
    → 2 ^ 30 ≤ r
    → r < 2 ^ 31
    → ltb_ℤ (pos 0) (quot (to_int (times (pos r) 2)) 3 -ℤ pos i) ≡ false
wrapped r i h k = ground arith

nothing_left : (r i : ℕ) → r * 2 / 3 ≤ i → ltb_ℤ (pos 0) (quot (pos (r * 2)) 3 -ℤ pos i) ≡ false
nothing_left r i h = ground arith

not_empty : (n : ℕ) → (suc n == 0) ≡ false
not_empty n = ground arith

and_false : (b : Bool) → (b && false) ≡ false
and_false true = refl
and_false false = refl

none_over : (w a b : ℕ) → w ≤ a - b → a ≤ b → w ≡ 0
none_over w a b h k = omega arith

part_sub : (a b : ℕ) → pos_part (pos a -ℤ pos b) ≡ a - b
part_sub a b = ground arith

module _ {A : Type 0} (H : HashTable string_hash_djb2 string_equal (List WatcherObject))
    (replies : Replies A) (adaptor : Adaptor) (closing : Closing) (writers : Writers)
    (big_endian : Bool) (ev : Events) (dial : Dial) where
  -- The times of a handle: its timeout, and the milliseconds since it received and sent.
  pub record IsIdle (zh : Session H A) (r i j : ℕ) : Type 0 where
    pub timeout : zh.link.recv_timeout ≡ pos r
    pub received : calculate_interval zh.link.last_recv dial.now ≡ pos i
    pub sent : calculate_interval zh.link.last_send dial.now ≡ pos j

  -- What the caller is told where it may wait for `w` milliseconds.
  abbrev pub waits_for : Session H A → ℕ → ℤ × Session H A × Interest
  waits_for zh w = (
    zok,
    record zh { link = record zh.link { next_deadline = deadline dial.now (get_timeval (pos w)) } },
    record {
      fd = zh.fd;
      interest = interest_of H replies adaptor closing writers big_endian ev dial zh;
      tv = get_timeval (pos w);
    },
  )

  wait-waits_for :
      (zh : Session H A) (a b : ℤ)
      → wait H replies adaptor closing writers big_endian ev dial zh a b
        ≡ waits_for zh (pos_part (min_ℤ H replies adaptor closing writers big_endian ev dial a b))
  unfolding wait
  wait-waits_for zh a b =
      ap
        (λ t. (
          zok,
          record zh { link = record zh.link { next_deadline = deadline dial.now t } },
          record {
            fd = zh.fd;
            interest = interest_of H replies adaptor closing writers big_endian ev dial zh;
            tv = t;
          },
        ))
        (get_timeval-clamped (min_ℤ H replies adaptor closing writers big_endian ev dial a b))

  recv_left-pos :
      (zh : Session H A) (r i j : ℕ)
      → IsIdle zh r i j
      → r < 2 ^ 30
      → i < r * 2 / 3
      → recv_left H replies adaptor closing writers big_endian ev dial zh ≡ pos (r * 2 / 3 - i)
  recv_left-pos zh r i j idle fits soon =
      rw (idle.timeout, idle.received, doubled r fits) (left_pos r i soon)

  abbrev send_to : Session H A → ℤ
  send_to zh =
      if zh.client.state ==ℤ zoo_connected_state
      then send_left H replies adaptor closing writers big_endian ev dial zh
      else third H replies adaptor closing writers big_endian ev dial zh

  -- The milliseconds until a third of the timeout is over, since the last write if the handle is
  -- connected.
  abbrev pub until_ping : Session H A → ℕ → ℕ → ℕ
  until_ping zh r j = if zh.client.state ==ℤ zoo_connected_state then r / 3 - j else r / 3

  send_to-until_ping :
      (zh : Session H A) (r i j : ℕ) → IsIdle zh r i j → pos_part (send_to zh) ≡ until_ping zh r j
  send_to-until_ping zh r i j idle = elim (Bool-cases (zh.client.state ==ℤ zoo_connected_state)) [
    | inl e ↦ rw (e, idle.timeout, idle.sent) (part_sub (r / 3) j)
    | inr e ↦ rw (e, idle.timeout)
  ]

  min_ℤ-≤ :
      (a : ℕ) (b : ℤ)
      → (pos_part (min_ℤ H replies adaptor closing writers big_endian ev dial (pos a) b) ≤ a)
        × (pos_part (min_ℤ H replies adaptor closing writers big_endian ev dial (pos a) b)
            ≤ pos_part b)
  min_ℤ-≤ a (pos b) = ground arith
  min_ℤ-≤ a (negsuc b) = ground arith

  poll-wait :
      (zh : Session H A) (out : Interest) (a : ℕ)
      → recv_left H replies adaptor closing writers big_endian ev dial zh ≡ pos a
      → 0 < a
      → ping_due H replies adaptor closing writers big_endian ev dial zh ≡ false
      → poll H replies adaptor closing writers big_endian ev dial zh out
        ≡ waits_for zh (
            pos_part
              (min_ℤ H replies adaptor closing writers big_endian ev dial (pos a) (send_to zh)))
  unfolding poll
  poll-wait zh out a e more no_ping =
      let left : ltb_ℤ (pos 0) (recv_left H replies adaptor closing writers big_endian ev dial zh)
          ≡ true =
        rw e (positive a more) in
      rw (poll, left, no_ping) (rw e (wait-waits_for zh (pos a) (send_to zh)))

  -- Where the timeout is below 2 ^ 30 milliseconds, so that its product fits, the connection is not
  -- given up and no ping is due, the function lets the caller wait no
  -- longer than until the connection is given up, which is two thirds of the timeout after the
  -- last read, and no longer than a third of the timeout, counted from the last write while the
  -- handle is connected.
  pub poll-waits_for :
      (zh : Session H A) (out : Interest) (r i j : ℕ)
      → IsIdle zh r i j
      → r < 2 ^ 30
      → i < r * 2 / 3
      → ping_due H replies adaptor closing writers big_endian ev dial zh ≡ false
      → (w : ℕ) × (poll H replies adaptor closing writers big_endian ev dial zh out
          ≡ waits_for zh w)
        × (w ≤ r * 2 / 3 - i)
        × (w ≤ until_ping zh r j)
  poll-waits_for zh out r i j idle fits soon no_ping =
      let a = r * 2 / 3 - i in
      let (le, le1) = min_ℤ-≤ a (send_to zh) in
      (
        pos_part (min_ℤ H replies adaptor closing writers big_endian ev dial (pos a) (send_to zh)),
        poll-wait zh out a (recv_left-pos zh r i j idle fits soon) (omega (arith, soon)) no_ping,
        le,
        rw (sym (send_to-until_ping zh r i j idle)) le1,
      )

  -- A connected handle with a timeout below 2 ^ 30 milliseconds, which is not given up, whose last
  -- write was a third of the timeout ago, or longer, and whose
  -- requests wait for answers: no ping is sent, and the function lets the caller wait for no time
  -- at all.
  pub poll-spins :
      (zh : Session H A) (out : Interest) (r i j : ℕ) (c : Completion) (list : List Completion)
      → IsIdle zh r i j
      → r < 2 ^ 30
      → i < r * 2 / 3
      → r / 3 ≤ j
      → zh.client.sent_requests ≡ c ∷ list
      → (zh.client.state ==ℤ zoo_connected_state) ≡ true
      → poll H replies adaptor closing writers big_endian ev dial zh out ≡ waits_for zh 0
  poll-spins zh out r i j c list idle fits soon late waiting connected =
      let no_ping : ping_due H replies adaptor closing writers big_endian ev dial zh ≡ false =
        rw (waiting, connected, not_empty (length list)) (and_false _) in
      let (w, e, le, le1) = poll-waits_for zh out r i j idle fits soon no_ping in
      let none_left : w ≡ 0 = none_over w (r / 3) j (rw connected at le1) late in
      e ∙ ap (waits_for zh) none_left

  -- A connection on which nothing was read for two thirds of a timeout below 2 ^ 30 milliseconds
  -- is given up: the code says so, nothing is to be waited for, every blocked caller is woken with
  -- it, and no request is left.
  pub poll-timed_out :
      (zh : Session H A) (out : Interest) (r i j : ℕ)
      → IsIdle zh r i j
      → r < 2 ^ 30
      → r * 2 / 3 ≤ i
      → (after : Session H A) × (told : Interest) × (poll H replies adaptor closing writers
            big_endian ev dial zh out
          ≡ (zoperationtimeout, after, told))
        × (told.interest ≡ 0)
        × (after.client.sent_requests ≡ [])
        × (after.notified
            ≡ zh.notified ++ callers H replies adaptor zoperationtimeout zh.client.sent_requests)
  unfolding poll
  poll-timed_out zh out r i j idle fits late =
      let over : ltb_ℤ (pos 0) (recv_left H replies adaptor closing writers big_endian ev dial zh)
          ≡ false =
        rw (idle.timeout, idle.received, doubled r fits) (nothing_left r i late) in
      let (client, told, refs) = handle_error-client H replies adaptor zoperationtimeout zh in
      (
        handle_error H replies adaptor zh zoperationtimeout,
        record { fd = zh.fd; interest = 0; tv = get_timeval (pos 0) },
        rw (poll, over),
        refl,
        ap (λ (k : Handle). k.sent_requests) client,
        told,
      )

  -- A timeout from 2 ^ 30 milliseconds on, as a server may grant it, makes the product negative: a
  -- connection that has just been read from is given up.
  pub recv_left-overflow :
      (zh : Session H A) (r i j : ℕ)
      → IsIdle zh r i j
      → 2 ^ 30 ≤ r
      → r < 2 ^ 31
      → ltb_ℤ (pos 0) (recv_left H replies adaptor closing writers big_endian ev dial zh) ≡ false
  recv_left-overflow zh r i j idle more fits =
      rw (idle.timeout, idle.received) (wrapped r i more fits)
