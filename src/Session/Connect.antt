-- ===== src/Session/Connect.antt =====
-- zookeeper.c: what is sent at the start of a session, and `check_events`, which moves bytes between
-- the socket and the queues and finishes the handshake.
pub mod Established
pub mod Accounts
use elephants.Base.{
  ℕ, zero, suc, ◌+◌, ◌-◌, Bool, true, false, not, ◌&&◌, ◌||◌, Option, none, some, List, [], ◌∷◌,
  ◌++◌, ℤ, pos, negsuc, ◌==ℤ◌, is_neg, ltb_ℤ, ltb, ◌==◌, length, if◌then◌else◌,
}
use elephants.Wire.Word.{be32}
use elephants.Watch.{string_hash_djb2, string_equal, WatcherObject}
use elephants.Watch.Table.{HashTable}
use elephants.Frame.{
  Packet, Incoming, Attempt, Sent, moved, blocked, broken, Round, zookeeper_send,
  queue_front_buffer_bytes, flush_send_queue, recv_buffer, image_of, zeros, sizeof_buffer_list, zok,
  zconnectionloss, zsystemerror,
}
use elephants.Client.{
  Adaptor, zoo_connected_state, zmarshallingerror, zinvalidstate, zbadarguments, flushed,
}
use elephants.Session.{
  Session, Replies, AuthInfo, Input, packet_input, primer_input, Timeval, Link, set_state,
  zoo_connecting_state, zoo_associating_state, zoo_expired_session_state,
}
use elephants.Session.Send.{
  Marshalled, Writers, put_front, marshalling_code, send_info_packet, send_infos, send_auth_info,
  send_last_auth_info, send_set_watches,
}
use elephants.Session.Auth.{get_last_auth, add_last_auth}
use elephants.Session.Handshake.{
  handshake_req_size, primer_size, serialize_prime_connect, deserialize_prime_response, PrimeStruct,
}
use elephants.Session.Complete.{handle_error, handle_socket_error_msg, queue_session_event}

abbrev pub znothing : ℤ
znothing = negsuc 116

abbrev pub zsessionexpired : ℤ
zsessionexpired = negsuc 111

-- What happens at the socket: whether it can be written to and read from, the error that it
-- reports, the sends of the handshake, the rounds in which the queue is flushed and the time of
-- the last of them, the reads, the bytes that the peer has sent and the time when they are read,
-- and which calls of `calloc` succeed, for the packets in their order and for the sizes of what is
-- received.
pub record Events : Type 0 where
  pub writable : Bool
  pub readable : Bool
  pub so_error : Bool
  pub hlen_send : Attempt
  pub req_send : Attempt
  pub rounds : List Round
  pub sent_at : Timeval
  pub header : Attempt
  pub body : Attempt
  pub stream : List ℕ
  pub recv_at : Timeval
  pub packet_calloc : ℕ → Bool
  pub recv_calloc : ℕ → Bool

module _ {A : Type 0} (H : HashTable string_hash_djb2 string_equal (List WatcherObject))
    (replies : Replies A) (adaptor : Adaptor) (writers : Writers) (big_endian : Bool) where
  abbrev pub with_queue : Session H A → List Packet → Session H A
  with_queue zh to_send = record zh { client = record zh.client { to_send = to_send } }

  abbrev pub with_wire : Session H A → List ℕ → Session H A
  with_wire zh out = record zh { client = record zh.client { wire = zh.client.wire ++ out } }

  abbrev pub at_end : Session H A → AuthInfo → Session H A
  at_end zh info = record zh { auth_h = add_last_auth zh.auth_h info }

  -- `zoo_add_auth`; `calloc` says whether there is memory for the certificate and for the packet. An
  -- empty certificate needs none. `state` is not set by the code; the 0 stands for any number.
  unfoldable pub zoo_add_auth :
      Bool × Bool
      → Option (Session H A)
      → Option (List ℕ)
      → List ℕ
      → ℕ
      → ℕ
      → ℤ × Option (Session H A)
  unfolding add_last_auth send_last_auth_info
  zoo_add_auth calloc zh none cert completion data_of = (zbadarguments, zh)
  zoo_add_auth calloc none (some scheme) cert completion data_of = (zbadarguments, none)
  zoo_add_auth calloc (some zh) (some scheme) cert completion data_of =
      if is_neg zh.client.state || zh.client.state ==ℤ pos 0
      then (zinvalidstate, some zh)
      else if not (length cert == 0) && not calloc.0
      then (zsystemerror, some zh)
      else (let added = at_end zh (record {
        state = 0;
        scheme = scheme;
        auth = cert;
        completion = completion;
        data_of = data_of;
      }) in
          let (rc, to_send) = send_last_auth_info writers calloc.1 added.auth_h zh.client.to_send in
          if zh.client.state ==ℤ zoo_connected_state || zh.client.state ==ℤ zoo_associating_state
          then (rc, some (with_queue added to_send))
          else (zok, some added))

  abbrev pub connect_req : Session H A → List ℕ
  connect_req zh = serialize_prime_connect big_endian (record {
    protocol_version = pos 0;
    last_zxid_seen = zh.last_zxid;
    time_out = zh.link.recv_timeout;
    session_id = zh.link.client_id;
    passwd_len = pos 16;
    passwd = zh.link.passwd;
  })

  -- The buffer of the answer; what it holds before is written over.
  abbrev pub primer : Input
  primer = primer_input (record {
    image = image_of big_endian primer_size;
    buffer = some (zeros primer_size);
    curr_offset = 4;
  })

  -- After the second send, and after the first.
  unfoldable pub req_sent : Session H A → Sent → ℤ × Session H A
  unfolding handle_error
  req_sent zh blocked = handle_socket_error_msg H replies adaptor zh zconnectionloss
  req_sent zh broken = handle_socket_error_msg H replies adaptor zh zconnectionloss
  req_sent zh (moved out) = (
    zok,
    record (set_state H A (with_wire zh out) zoo_associating_state) { input_buffer = some primer },
  )

  unfoldable pub hlen_sent : Events → Session H A → Sent → ℤ × Session H A
  unfolding req_sent serialize_prime_connect handle_error
  hlen_sent ev zh blocked = handle_socket_error_msg H replies adaptor zh zconnectionloss
  hlen_sent ev zh broken = handle_socket_error_msg H replies adaptor zh zconnectionloss
  hlen_sent ev zh (moved out) =
      req_sent (with_wire zh out) (zookeeper_send ev.req_send (connect_req zh))

  -- The handshake begins: the length and the request are sent, each with one call whose code alone
  -- is tested.
  unfoldable pub prime_connection : Events → Session H A → ℤ × Session H A
  unfolding hlen_sent
  prime_connection ev zh = hlen_sent ev zh (zookeeper_send ev.hlen_send (be32 handshake_req_size))

  abbrev pub accepted : PrimeStruct → List Packet → Session H A → Session H A
  accepted res to_send zh = record zh {
    client = record zh.client { state = zoo_connected_state; to_send = to_send };
    link = record zh.link {
      recv_timeout = res.time_out;
      client_id = res.session_id;
      passwd = res.passwd;
    };
    input_buffer = none;
  }

  -- The server has accepted the session: what `check_events` does with its answer.
  unfoldable pub establish : Events → PrimeStruct → Session H A → Session H A
  unfolding send_set_watches send_auth_info queue_session_event
  establish ev res zh =
      let (rc, watches) =
        send_set_watches writers (ev.packet_calloc zero) zh.last_zxid
          (HashTable.keys H zh.active_node_watchers) (HashTable.keys H zh.active_exist_watchers)
          (HashTable.keys H zh.active_child_watchers) zh.client.to_send in
      let (rc1, auths) = send_auth_info writers (λ n. ev.packet_calloc (suc n)) zh.auth_h watches in
      queue_session_event H replies adaptor (accepted res auths zh) zoo_connected_state

  abbrev pub bytes_in : Option (List ℕ) → List ℕ
  bytes_in none = []
  bytes_in (some b) = b

  -- The answer to the handshake is there.
  unfoldable pub finish_handshake : Events → Incoming → Session H A → ℤ × Session H A
  unfolding deserialize_prime_response establish handle_error
  finish_handshake ev buff zh =
      let res = deserialize_prime_response big_endian (bytes_in buff.buffer) in
      let oldid = zh.link.client_id in
      if not (oldid ==ℤ pos 0) && not (oldid ==ℤ res.session_id)
      then handle_socket_error_msg H replies adaptor (set_state H A zh zoo_expired_session_state)
          zsessionexpired
      else (zok, establish ev res zh)

  -- A new buffer, of `allocate_buffer(0, 0)`.
  abbrev pub new_input : Input
  new_input =
      packet_input
        (record { image = image_of big_endian sizeof_buffer_list; buffer = none; curr_offset = 0 })

  abbrev pub input_or_new : Option Input → Input
  input_or_new none = new_input
  input_or_new (some input) = input

  abbrev pub incoming : Input → Incoming
  incoming (packet_input buff) = buff
  incoming (primer_input buff) = buff

  abbrev pub refilled : Input → Incoming → Input
  refilled (packet_input old) buff = packet_input buff
  refilled (primer_input old) buff = primer_input buff

  -- What follows when a buffer is complete.
  unfoldable pub received : Events → Input → Session H A → ℤ × Session H A
  unfolding finish_handshake
  received ev (packet_input buff) zh =
      (zok, record zh { to_process = zh.to_process ++ buff ∷ []; input_buffer = none })
  received ev (primer_input buff) zh = finish_handshake ev buff zh

  unfoldable pub read_socket : Events → Session H A → ℤ × Session H A
  unfolding received handle_error
  read_socket ev zh =
      let input = input_or_new zh.input_buffer in
      let (rc, buff, rest) =
        recv_buffer big_endian ev.recv_calloc ev.header ev.body (incoming input) ev.stream in
      let input1 = refilled input buff in
      let read : Session H A = record zh { input_buffer = some input1 } in
      if is_neg rc
      then handle_socket_error_msg H replies adaptor read zconnectionloss
      else if rc ==ℤ pos 0
      then (znothing, read)
      else received ev input1 (record read { link = record zh.link { last_recv = ev.recv_at } })

  -- What a flush leaves. A packet that was sent is removed and sets `last_send`; where the rounds
  -- are used up nothing is changed.
  abbrev pub after_send :
      Timeval → Session H A → Option (ℤ × List ℕ × List Packet) → ℤ × Session H A
  after_send sent_at zh none = (zok, zh)
  after_send sent_at zh (some (rc, out, left)) = (
    rc,
    record zh {
      client = flushed zh.client (some (rc, out, left));
      link = record zh.link {
        last_send =
            if ltb (length left) (length zh.client.to_send) then sent_at else zh.link.last_send;
      };
    },
  )

  unfoldable pub write_socket : Events → Session H A → ℤ × Session H A
  write_socket ev zh = after_send ev.sent_at zh (
      flush_send_queue (zh.client.state ==ℤ zoo_connected_state) (pos 0) ev.rounds
        zh.client.to_send)

  -- The socket after a connection that was begun without waiting.
  unfoldable pub connected_or_refused : Events → Session H A → ℤ × Session H A
  unfolding prime_connection handle_error
  connected_or_refused ev zh =
      if ev.so_error
      then handle_socket_error_msg H replies adaptor zh zconnectionloss
      else prime_connection ev zh

  unfoldable pub read_if_readable : Events → Session H A → ℤ × Session H A
  unfolding read_socket
  read_if_readable ev zh = if ev.readable then read_socket ev zh else (zok, zh)

  unfoldable pub check_events : Events → Session H A → ℤ × Session H A
  unfolding connected_or_refused write_socket read_if_readable handle_error
  check_events ev zh =
      let (rc, written) = write_socket ev zh in
      if zh.fd ==ℤ negsuc 0
      then (zinvalidstate, zh)
      else if ev.writable && zh.client.state ==ℤ zoo_connecting_state
      then connected_or_refused ev zh
      else if not (length zh.client.to_send == 0) && ev.writable
      then (if is_neg rc
          then handle_socket_error_msg H replies adaptor written zconnectionloss
          else read_if_readable ev written)
      else read_if_readable ev zh
