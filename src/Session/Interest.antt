-- ===== src/Session/Interest.antt =====
-- zookeeper.c: `zookeeper_interest`, which connects to the next server, sends pings, and says what
-- to wait for and how long.
pub mod Wait
use elephants.Base.{
  ℕ, ◌+◌, ◌-◌, ◌*◌, ◌/◌, ◌%◌, Bool, true, false, not, ◌&&◌, ◌||◌, Option, none, some, List, [], ◌∷◌,
  ◌++◌, ℤ, pos, negsuc, ◌==ℤ◌, ◌-ℤ◌, is_neg, ltb_ℤ, ◌==◌, length, if◌then◌else◌,
}
use elephants.Watch.{string_hash_djb2, string_equal, WatcherObject}
use elephants.Watch.Table.{HashTable}
use elephants.Frame.{flush_send_queue, zok, zconnectionloss, zsystemerror, zoperationtimeout}
use elephants.Client.{
  Adaptor, threaded, single, Memory, Completion, function, completion_void, add_request,
  is_unrecoverable, zoo_connected_state, zinvalidstate, zbadarguments,
}
use elephants.Session.{Session, Replies, Timeval, Link, set_state, zoo_connecting_state, ping_xid}
use elephants.Session.Time.{calculate_interval, get_timeval, deadline, quot, times, to_int}
use elephants.Session.Close.{Closing, api_prolog, api_epilog}
use elephants.Session.Complete.{handle_error, handle_socket_error_msg}
use elephants.Session.Send.{Writers}
use elephants.Session.Connect.{Events, prime_connection, after_send}

-- What is written through the pointers of the caller: the interest has a bit for each of
-- ZOOKEEPER_WRITE, which is 1, and ZOOKEEPER_READ, which is 2.
pub record Interest : Type 0 where
  pub fd : ℤ
  pub interest : ℕ
  pub tv : Timeval

pub data Connected : Type 0 where
  connects in_progress refused : Connected

-- The answers of the system: the time, the descriptor that `socket` gives or a number below 0,
-- what `connect` says, and the memory there is for a ping.
pub record Dial : Type 0 where
  pub now : Timeval
  pub socket : ℤ
  pub connect : Connected
  pub memory : Memory

module _ {A : Type 0} (H : HashTable string_hash_djb2 string_equal (List WatcherObject))
    (replies : Replies A) (adaptor : Adaptor) (closing : Closing) (writers : Writers)
    (big_endian : Bool) (ev : Events) (dial : Dial) where
  abbrev pub wakes_thread : Adaptor → ℕ → Bool
  wakes_thread threaded close_requested = close_requested == 0
  wakes_thread single close_requested = false

  -- `adaptor_send_queue(zh, 0)`
  unfoldable pub send_queue : Session H A → ℤ × Session H A
  send_queue zh =
      if wakes_thread adaptor zh.client.close_requested
      then (zok, zh)
      else after_send H replies adaptor writers big_endian ev.sent_at zh (
          flush_send_queue (zh.client.state ==ℤ zoo_connected_state) (pos 0) ev.rounds
            zh.client.to_send)

  unfoldable pub send_ping : Session H A → ℤ × Session H A
  unfolding add_request send_queue
  send_ping zh =
      let (rc, buffer, len) = Writers.ping writers in
      let timed : Session H A = record zh { link = record zh.link { last_ping = dial.now } } in
      let (rc1, client) =
        add_request dial.memory zh.client ping_xid completion_void (function 0) 0 none buffer len in
      let added : Session H A = record timed { client = client } in
      if is_neg rc then (rc, timed) else if is_neg rc1 then (rc1, added) else send_queue added

  -- A connection to the next address, or none when all have been tried. `some` is a code with which
  -- the function returns.
  unfoldable pub connect_next : Session H A → Option ℤ × Session H A
  unfolding prime_connection handle_error
  connect_next zh =
      let opened : Session H A = record zh { fd = dial.socket } in
      let (rc, primed) = prime_connection H replies adaptor writers big_endian ev opened in
      if zh.connect_index == zh.link.addrs_count
      then (none, record zh { connect_index = 0 })
      else if is_neg dial.socket
      then (some zsystemerror, handle_error H replies adaptor opened zsystemerror)
      else elim dial.connect [
        | in_progress ↦ (none, set_state H A opened zoo_connecting_state)
        | refused ↦ (some zconnectionloss, handle_error H replies adaptor opened zconnectionloss)
        | connects ↦ (if rc ==ℤ zok then none else some rc, primed)
      ]

  abbrev pub just_now : Session H A → Session H A
  just_now zh = record zh {
    link = record zh.link { last_recv = dial.now; last_send = dial.now; last_ping = dial.now };
  }

  abbrev pub third : Session H A → ℤ
  third zh = quot zh.link.recv_timeout 3

  -- The milliseconds until the connection is given up, and until a ping is due. The product of the
  -- timeout is an `int`, which wraps from 2 ^ 30 milliseconds on; the difference of two numbers that
  -- are not negative fits.
  abbrev pub recv_left : Session H A → ℤ
  recv_left zh =
      quot (to_int (times zh.link.recv_timeout 2)) 3
      -ℤ calculate_interval zh.link.last_recv dial.now

  abbrev pub send_left : Session H A → ℤ
  send_left zh = third zh -ℤ calculate_interval zh.link.last_send dial.now

  abbrev pub min_ℤ : ℤ → ℤ → ℤ
  min_ℤ a b = if ltb_ℤ a b then a else b

  -- `*interest`
  abbrev pub interest_of : Session H A → ℕ
  interest_of zh =
      if not (length zh.client.to_send == 0) && zh.client.state ==ℤ zoo_connected_state
        || zh.client.state ==ℤ zoo_connecting_state
      then 3
      else 2

  -- From the choice of the timeout on.
  unfoldable pub wait : Session H A → ℤ → ℤ → ℤ × Session H A × Interest
  unfolding get_timeval deadline
  wait zh recv_to send_to =
      let tv = get_timeval (min_ℤ recv_to send_to) in
      (
        zok,
        record zh { link = record zh.link { next_deadline = deadline dial.now tv } },
        record { fd = zh.fd; interest = interest_of zh; tv = tv },
      )

  abbrev pub ping_due : Session H A → Bool
  ping_due zh =
      zh.client.state ==ℤ zoo_connected_state
      && not (ltb_ℤ (pos 0) (send_left zh))
      && length zh.client.sent_requests == 0

  -- A ping, and the wait for what follows it.
  unfoldable pub ping_and_wait : Session H A → Interest → ℤ → ℤ × Session H A × Interest
  unfolding send_ping wait
  ping_and_wait zh out recv_to =
      let (rc, pinged) = send_ping zh in
      if is_neg rc then (rc, pinged, out) else wait pinged recv_to (third zh)

  -- What is done with a descriptor.
  unfoldable pub poll : Session H A → Interest → ℤ × Session H A × Interest
  unfolding calculate_interval ping_and_wait wait handle_error
  poll zh out =
      if not (ltb_ℤ (pos 0) (recv_left zh))
      then (
        zoperationtimeout,
        handle_error H replies adaptor zh zoperationtimeout,
        record { fd = zh.fd; interest = 0; tv = get_timeval (pos 0) },
      )
      else if ping_due zh
      then ping_and_wait zh out (recv_left zh)
      else wait zh (recv_left zh)
          (if zh.client.state ==ℤ zoo_connected_state then send_left zh else third zh)

  abbrev pub poll_if_open : Session H A → Interest → ℤ × Session H A × Interest
  poll_if_open zh out = if zh.fd ==ℤ negsuc 0 then (zok, zh, out) else poll zh out

  -- After a connection was tried: `some` is the code of a failure.
  abbrev pub dialled : Interest → Option ℤ × Session H A → ℤ × Session H A × Interest
  dialled out (some rc, zh) = (rc, zh, out)
  dialled out (none, zh) =
      poll_if_open (just_now zh) (record out { fd = zh.fd; tv = get_timeval (third zh) })

  abbrev pub with_epilog : ℤ × Session H A × Interest → ℤ × Option (Session H A) × Option Interest
  with_epilog (rc, zh, out) =
      let (rc1, zh1) = api_epilog H replies adaptor closing zh rc in (rc1, some zh1, some out)

  -- `zookeeper_interest`, whose other pointers are not NULL; `none` stands for a NULL handle, and
  -- for nothing written.
  unfoldable pub zookeeper_interest :
      Option (Session H A) → ℤ × Option (Session H A) × Option Interest
  unfolding connect_next poll api_epilog is_unrecoverable
  zookeeper_interest none = (zbadarguments, none, none)
  zookeeper_interest (some zh) =
      let begun = api_prolog H replies adaptor closing zh in
      let out : Interest = record {
        fd = zh.fd;
        interest = 0;
        tv = record { tv_sec = pos 0; tv_usec = pos 0 };
      } in
      if is_neg zh.client.state
      then (zinvalidstate, some zh, none)
      else with_epilog
          (if zh.fd ==ℤ negsuc 0 then dialled out (connect_next begun) else poll begun out)
