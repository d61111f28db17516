-- ===== src/Tests/Connect.antt =====
-- Concrete inputs at which the theorems on connecting and waiting apply.
use elephants.Base.{
  length, ◌+◌, ◌*◌, ◌/◌, ◌≤◌, arith, ℕ, ◌-◌, ◌≡◌, refl, true, false, some, [], ◌∷◌, ◌++◌, pos,
}
use elephants.Tests.Table.{assoc_table}
use elephants.Frame.{Incoming}
use elephants.Client.{zoo_connected_state, threaded}
use elephants.Session.{Session, zoo_expired_session_state, set_state}
use elephants.Watch.Table.{HashTable}
use elephants.Session.Time.{calculate_interval}
use elephants.Session.Handshake.{
  primer_size, ConnectReq, PrimeStruct, prime_bytes, deserialize_prime_response,
  deserialize_prime_response-prime_bytes,
}
use elephants.Session.Connect.{establish, finish_handshake, zsessionexpired}
use elephants.Session.Connect.Established.{
  auth_packets, watch_packets, establish-to_send, finish_handshake-expired,
}
use elephants.Session.Interest.{Interest, Dial, connects, poll}
use elephants.Session.Interest.Wait.{waits_for, until_ping, poll-waits_for, poll-spins}
use elephants.Session.Complete.{error_event}
use elephants.Session.Complete.Delivered.{IsDelivered}
use elephants.Session.Complete.Failure.{callers, fakes}
use elephants.Tests.Session.{
  byte_replies, no_closing, blocked_request, queued_request, last_request, connected, sixteen, noon,
  session, no_writers, arrival,
}

abbrev answer : PrimeStruct
answer = record {
  len = pos 36;
  protocol_version = pos 0;
  time_out = pos 10000;
  session_id = pos 77;
  passwd_len = pos 16;
  passwd = sixteen;
}

deserialize_prime_response-prime_bytes_example :
    (deserialize_prime_response false (prime_bytes answer) ≡ answer)
    × (length (prime_bytes answer) ≡ primer_size)
deserialize_prime_response-prime_bytes_example =
    deserialize_prime_response-prime_bytes false answer (record {
      len = omega arith;
      version = omega arith;
      time = omega arith;
      id = omega arith;
      size = omega arith;
      passwd = refl;
    })

abbrev request : ConnectReq
request = record {
  protocol_version = pos 0;
  last_zxid_seen = pos 5;
  time_out = pos 10000;
  session_id = pos 0;
  passwd_len = pos 16;
  passwd = sixteen;
}

establish-to_send_example :
    (establish assoc_table byte_replies threaded no_writers false arrival answer session).client
    ≡ record connected {
      state = zoo_connected_state;
      to_send =
          auth_packets no_writers session.auth_h
          ++ (watch_packets no_writers session.last_zxid
                (HashTable.keys assoc_table session.active_node_watchers)
                (HashTable.keys assoc_table session.active_exist_watchers)
                (HashTable.keys assoc_table session.active_child_watchers)
              ++ connected.to_send);
    }
establish-to_send_example =
    establish-to_send assoc_table byte_replies threaded no_writers false arrival answer session
      (record { auths = λ scheme auth. refl; watches = λ zxid nodes exists children. refl })
      (λ n. refl)

-- The answer to a handle whose session is 99.
abbrev stale : Incoming
stale = record { image = []; buffer = some (prime_bytes answer); curr_offset = 44 }

finish_handshake-expired_example :
    (after : Session assoc_table ℕ) × (finish_handshake assoc_table byte_replies threaded no_writers
        true arrival stale session
      ≡ (zsessionexpired, after))
    × (after.client.state ≡ zoo_expired_session_state)
    × (after.client.sent_requests ≡ [])
    × (after.notified
        ≡ session.notified
          ++ callers assoc_table byte_replies threaded zsessionexpired connected.sent_requests)
    × IsDelivered assoc_table byte_replies threaded zsessionexpired
        (error_event assoc_table byte_replies threaded
          (set_state assoc_table ℕ session zoo_expired_session_state))
        (fakes assoc_table byte_replies threaded zsessionexpired connected.sent_requests)
        after
unfolding deserialize_prime_response
finish_handshake-expired_example =
    finish_handshake-expired assoc_table byte_replies threaded no_writers true arrival stale session
      refl refl

-- Some seconds after noon.
abbrev later : ℕ → Dial
later s = record {
  now = record { tv_sec = pos (43200 + s); tv_usec = pos 250000 };
  socket = pos 4;
  connect = connects;
  memory = record { completion = true; packet = true };
}

abbrev told : Interest
told = record { fd = pos 10; interest = 0; tv = noon }

poll-waits_for_example :
    (w : ℕ) × (poll assoc_table byte_replies threaded no_closing no_writers true arrival
        (later 2)
        session
        told
      ≡ waits_for assoc_table byte_replies threaded no_closing no_writers true arrival
          (later 2)
          session
          w)
    × (w ≤ 30000 * 2 / 3 - 2000)
    × (w
        ≤ until_ping assoc_table byte_replies threaded no_closing no_writers true arrival
            (later 2)
            session
            30000
            2000)
unfolding calculate_interval
poll-waits_for_example =
    poll-waits_for assoc_table byte_replies threaded no_closing no_writers true arrival (later 2)
      session told 30000 2000 2000 (record { timeout = refl; received = refl; sent = refl })
      (omega arith) (omega arith) refl

poll-spins_example :
    poll assoc_table byte_replies threaded no_closing no_writers true arrival
      (later 12)
      session
      told
    ≡ waits_for assoc_table byte_replies threaded no_closing no_writers true arrival
        (later 12)
        session
        0
unfolding calculate_interval
poll-spins_example =
    poll-spins assoc_table byte_replies threaded no_closing no_writers true arrival (later 12)
      session told 30000 12000 12000 blocked_request (queued_request ∷ last_request ∷ [])
      (record { timeout = refl; received = refl; sent = refl }) (omega arith) (omega arith)
      (omega arith) refl refl
