-- ===== src/Session/Connect/Accounts.antt =====
-- `check_events` keeps `outstanding_sync` the number of blocked callers whose requests wait.
use elephants.Base.{
  ℕ, Bool, true, false, not, ◌&&◌, Option, none, some, List, ◌==◌, length, ◌==ℤ◌, ℤ, pos, negsuc,
  is_neg, if◌then◌else◌,
}
use elephants.Watch.{string_hash_djb2, string_equal, WatcherObject}
use elephants.Watch.Table.{HashTable}
use elephants.Frame.{
  Packet, Incoming, Sent, moved, blocked, broken, recv_buffer, zok, zconnectionloss,
}
use elephants.Client.{Adaptor, zoo_connected_state, zinvalidstate}
use elephants.Client.Accounts.{IsAccounted}
use elephants.Session.{
  Session, Replies, Timeval, Input, packet_input, primer_input, zoo_connecting_state,
  zoo_expired_session_state, set_state,
}
use elephants.Session.Handshake.{PrimeStruct, deserialize_prime_response}
use elephants.Session.Complete.{handle_socket_error_msg}
use elephants.Session.Complete.Counted.{handle_error-IsCounted, queue_session_event-IsCounted}
use elephants.Session.Send.{Writers}
use elephants.Session.Connect.{
  Events, with_wire, req_sent, hlen_sent, prime_connection, establish, znothing, bytes_in,
  finish_handshake, received, read_socket, after_send, write_socket, connected_or_refused,
  read_if_readable, check_events, input_or_new, incoming, refilled, zsessionexpired,
}

module _ {A : Type 0} (H : HashTable string_hash_djb2 string_equal (List WatcherObject))
    (replies : Replies A) (adaptor : Adaptor) (writers : Writers) (big_endian : Bool) where
  abbrev IsKept : ℤ × Session H A → Type 0
  IsKept (rc, zh) = IsAccounted zh.client

  either-IsKept :
      (m : Bool) (a b : ℤ × Session H A) → IsKept a → IsKept b → IsKept (if m then a else b)
  either-IsKept true a b h k = h
  either-IsKept false a b h k = k

  failed-IsKept :
      (zh : Session H A) (rc : ℤ)
      → IsAccounted zh.client
      → IsKept (handle_socket_error_msg H replies adaptor zh rc)
  failed-IsKept zh rc h = handle_error-IsCounted H replies adaptor zh rc h

  req_sent-IsKept :
      (zh : Session H A) (sent : Sent)
      → IsAccounted zh.client
      → IsKept (req_sent H replies adaptor writers big_endian zh sent)
  unfolding req_sent
  req_sent-IsKept zh blocked h = failed-IsKept zh zconnectionloss h
  req_sent-IsKept zh broken h = failed-IsKept zh zconnectionloss h
  req_sent-IsKept zh (moved out) h = h

  hlen_sent-IsKept :
      (ev : Events) (zh : Session H A) (sent : Sent)
      → IsAccounted zh.client
      → IsKept (hlen_sent H replies adaptor writers big_endian ev zh sent)
  unfolding hlen_sent
  hlen_sent-IsKept ev zh blocked h = failed-IsKept zh zconnectionloss h
  hlen_sent-IsKept ev zh broken h = failed-IsKept zh zconnectionloss h
  hlen_sent-IsKept ev zh (moved out) h =
      req_sent-IsKept (with_wire H replies adaptor writers big_endian zh out) _ h

  pub prime_connection-IsKept :
      (ev : Events) (zh : Session H A)
      → IsAccounted zh.client
      → IsKept (prime_connection H replies adaptor writers big_endian ev zh)
  unfolding prime_connection
  prime_connection-IsKept ev zh h = hlen_sent-IsKept ev zh _ h

  connected_or_refused-IsKept :
      (ev : Events) (zh : Session H A)
      → IsAccounted zh.client
      → IsKept (connected_or_refused H replies adaptor writers big_endian ev zh)
  unfolding connected_or_refused
  connected_or_refused-IsKept ev zh h =
      either-IsKept ev.so_error (handle_socket_error_msg H replies adaptor zh zconnectionloss)
        (prime_connection H replies adaptor writers big_endian ev zh)
        (failed-IsKept zh zconnectionloss h) (prime_connection-IsKept ev zh h)

  establish-IsKept :
      (ev : Events) (res : PrimeStruct) (zh : Session H A)
      → IsAccounted zh.client
      → IsAccounted (establish H replies adaptor writers big_endian ev res zh).client
  unfolding establish
  establish-IsKept ev res zh h =
      queue_session_event-IsCounted H replies adaptor _ zoo_connected_state h

  finish_handshake-IsKept :
      (ev : Events) (buff : Incoming) (zh : Session H A)
      → IsAccounted zh.client
      → IsKept (finish_handshake H replies adaptor writers big_endian ev buff zh)
  unfolding finish_handshake
  finish_handshake-IsKept ev buff zh h =
      let res =
        deserialize_prime_response big_endian
          (bytes_in H replies adaptor writers big_endian buff.buffer) in
      let expired = set_state H A zh zoo_expired_session_state in
      either-IsKept
        (not (zh.link.client_id ==ℤ pos 0) && not (zh.link.client_id ==ℤ res.session_id))
        (handle_socket_error_msg H replies adaptor expired zsessionexpired)
        (zok, establish H replies adaptor writers big_endian ev res zh)
        (failed-IsKept expired zsessionexpired h) (establish-IsKept ev res zh h)

  received-IsKept :
      (ev : Events) (input : Input) (zh : Session H A)
      → IsAccounted zh.client
      → IsKept (received H replies adaptor writers big_endian ev input zh)
  unfolding received
  received-IsKept ev (packet_input buff) zh h = h
  received-IsKept ev (primer_input buff) zh h = finish_handshake-IsKept ev buff zh h

  after_send-IsKept :
      (sent_at : Timeval) (zh : Session H A) (result : Option (ℤ × List ℕ × List Packet))
      → IsAccounted zh.client
      → IsKept (after_send H replies adaptor writers big_endian sent_at zh result)
  after_send-IsKept sent_at zh none h = h
  after_send-IsKept sent_at zh (some (rc, out, left)) h = h

  read_socket-IsKept :
      (ev : Events) (zh : Session H A)
      → IsAccounted zh.client
      → IsKept (read_socket H replies adaptor writers big_endian ev zh)
  unfolding read_socket
  read_socket-IsKept ev zh h =
      let input = input_or_new H replies adaptor writers big_endian zh.input_buffer in
      let (rc, buff, rest) =
        recv_buffer big_endian ev.recv_calloc ev.header ev.body
          (incoming H replies adaptor writers big_endian input) ev.stream in
      let input1 = refilled H replies adaptor writers big_endian input buff in
      let read : Session H A = record zh { input_buffer = some input1 } in
      let later : Session H A = record read { link = record zh.link { last_recv = ev.recv_at } } in
      let step = received H replies adaptor writers big_endian ev input1 later in
      either-IsKept (is_neg rc) (handle_socket_error_msg H replies adaptor read zconnectionloss)
        (if rc ==ℤ pos 0 then (znothing, read) else step) (failed-IsKept read zconnectionloss h)
        (either-IsKept (rc ==ℤ pos 0) (znothing, read) step h (received-IsKept ev input1 later h))

  read_if_readable-IsKept :
      (ev : Events) (zh : Session H A)
      → IsAccounted zh.client
      → IsKept (read_if_readable H replies adaptor writers big_endian ev zh)
  unfolding read_if_readable
  read_if_readable-IsKept ev zh h =
      either-IsKept ev.readable (read_socket H replies adaptor writers big_endian ev zh) (zok, zh)
        (read_socket-IsKept ev zh h) h

  -- Whatever happens at the socket, `check_events` keeps `outstanding_sync` the number of blocked
  -- callers whose requests wait.
  pub check_events-IsKept :
      (ev : Events) (zh : Session H A)
      → IsAccounted zh.client
      → IsKept (check_events H replies adaptor writers big_endian ev zh)
  unfolding check_events write_socket
  check_events-IsKept ev zh h =
      let sent = write_socket H replies adaptor writers big_endian ev zh in
      let (rc, written) = sent in
      let kept : IsAccounted written.client = after_send-IsKept ev.sent_at zh _ h in
      let reads = read_if_readable H replies adaptor writers big_endian ev in
      let flushed =
        if is_neg rc
        then handle_socket_error_msg H replies adaptor written zconnectionloss
        else reads written in
      let busy = if not (length zh.client.to_send == 0) && ev.writable then flushed else reads zh in
      let connects = connected_or_refused H replies adaptor writers big_endian ev zh in
      let writing = ev.writable && zh.client.state ==ℤ zoo_connecting_state in
      either-IsKept (zh.fd ==ℤ negsuc 0) (zinvalidstate, zh) (if writing then connects else busy) h
        (either-IsKept writing connects busy (connected_or_refused-IsKept ev zh h) (
          either-IsKept (not (length zh.client.to_send == 0) && ev.writable) flushed (reads zh)
            (either-IsKept (is_neg rc)
              (handle_socket_error_msg H replies adaptor written zconnectionloss) (reads written)
              (failed-IsKept written zconnectionloss kept)
              (read_if_readable-IsKept ev written kept))
            (read_if_readable-IsKept ev zh h)))
