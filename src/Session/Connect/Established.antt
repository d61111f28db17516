-- ===== src/Session/Connect/Established.antt =====
-- The end of the handshake: what is sent first in a session, and a session that has expired.
use elephants.Base.{
  ◌≡◌, refl, ap, ◌∙◌, ℕ, zero, suc, Bool, true, false, List, [], ◌∷◌, ◌++◌, append_assoc, ◌==◌,
  ◌==ℤ◌, ℤ, pos, is_neg, if◌then◌else◌,
}
use elephants.Watch.{string_hash_djb2, string_equal, WatcherObject}
use elephants.Watch.Table.{HashTable}
use elephants.Frame.{
  Packet, Incoming, sizeof_buffer_list, queue_front_buffer_bytes, allocate_buffer, queue_buffer,
  zok,
}
use elephants.Client.{Handle, Adaptor, zoo_connected_state}
use elephants.Session.{Session, Replies, AuthInfo, zoo_expired_session_state, set_state}
use elephants.Session.Handshake.{PrimeStruct, deserialize_prime_response}
use elephants.Session.Complete.{handle_error, error_event}
use elephants.Session.Complete.Delivered.{IsDelivered, handle_error-IsDelivered}
use elephants.Session.Complete.Failure.{
  callers, fakes, handle_error-client, queue_session_event-client,
}
use elephants.Session.Send.{
  Writers, Marshalled, put_front, send_info_packet, send_infos, send_auth_info, send_set_watches,
}
use elephants.Session.Connect.{
  Events, accepted, establish, bytes_in, finish_handshake, zsessionexpired,
}

-- The packet of what was marshalled.
abbrev pub packet_of : Marshalled → Packet
packet_of (rc, buff, len) = record {
  buffer = buff;
  len = if len == 0 then sizeof_buffer_list else len;
  curr_offset = 0;
}

-- The authentication data of a handle, the last first.
abbrev pub auth_packets : Writers → List AuthInfo → List Packet
auth_packets writers [] = []
auth_packets writers (auth ∷ next) =
    auth_packets writers next ++ packet_of (Writers.auth_packet writers auth.scheme auth.auth) ∷ []

-- The watches that are set again, if there are any.
abbrev pub watch_packets : Writers → ℤ → List (List ℕ) → List (List ℕ) → List (List ℕ) → List Packet
watch_packets writers zxid [] [] [] = []
watch_packets writers zxid nodes exists children =
    packet_of (Writers.set_watches writers zxid nodes exists children) ∷ []

-- Marshalling succeeds.
pub record IsMarshalling (writers : Writers) : Type 0 where
  pub auths : (scheme auth : List ℕ) → is_neg (Writers.auth_packet writers scheme auth).0 ≡ false
  pub watches :
      (zxid : ℤ) (nodes exists children : List (List ℕ))
      → is_neg (Writers.set_watches writers zxid nodes exists children).0 ≡ false

queue_front :
    (to_send : List Packet) (buff : List ℕ) (len : ℕ) (rc : ℤ)
    → queue_front_buffer_bytes true to_send buff len ≡ (zok, packet_of (rc, buff, len) ∷ to_send)
unfolding queue_front_buffer_bytes allocate_buffer queue_buffer
queue_front [] buff len rc = refl
queue_front (head ∷ list) buff len rc = refl

put_front-first :
    (calloc : Bool) (m : Marshalled) (to_send : List Packet)
    → calloc ≡ true
    → is_neg m.0 ≡ false
    → put_front calloc m to_send ≡ (zok, packet_of m ∷ to_send)
unfolding put_front
put_front-first calloc (rc, buff, len) to_send c e =
    rw (put_front, c, e) (queue_front to_send buff len rc)

send_infos-auth_packets :
    (writers : Writers) (calloc : ℕ → Bool) (rc : ℤ) (auth_h : List AuthInfo)
    (to_send : List Packet)
    → IsMarshalling writers
    → ((n : ℕ) → calloc n ≡ true)
    → (send_infos writers calloc rc auth_h to_send).1 ≡ auth_packets writers auth_h ++ to_send
unfolding send_infos send_info_packet
send_infos-auth_packets writers calloc rc [] to_send w c = refl
send_infos-auth_packets writers calloc rc (auth ∷ next) to_send w c =
    let m = Writers.auth_packet writers auth.scheme auth.auth in
    let first = put_front-first (calloc zero) m to_send (c zero) (w.auths auth.scheme auth.auth) in
    rw (
      send_infos,
      first,
      send_infos-auth_packets writers (λ n. calloc (suc n)) zok next (packet_of m ∷ to_send) w
          (λ n. c (suc n)),
      append_assoc,
    )

send_set_watches-watch_packets :
    (writers : Writers) (calloc : Bool) (zxid : ℤ) (nodes exists children : List (List ℕ))
    (to_send : List Packet)
    → IsMarshalling writers
    → calloc ≡ true
    → (send_set_watches writers calloc zxid nodes exists children to_send).1
      ≡ watch_packets writers zxid nodes exists children ++ to_send
unfolding send_set_watches
send_set_watches-watch_packets writers calloc zxid [] [] [] to_send w c = refl
send_set_watches-watch_packets writers calloc zxid (k ∷ nodes) exists children to_send w c =
    ap (λ r. r.1) (put_front-first calloc _ to_send c (w.watches zxid (k ∷ nodes) exists children))
send_set_watches-watch_packets writers calloc zxid [] (k ∷ exists) children to_send w c =
    ap (λ r. r.1) (put_front-first calloc _ to_send c (w.watches zxid [] (k ∷ exists) children))
send_set_watches-watch_packets writers calloc zxid [] [] (k ∷ children) to_send w c =
    ap (λ r. r.1) (put_front-first calloc _ to_send c (w.watches zxid [] [] (k ∷ children)))

module _ {A : Type 0} (H : HashTable string_hash_djb2 string_equal (List WatcherObject))
    (replies : Replies A) (adaptor : Adaptor) (writers : Writers) (big_endian : Bool) where
  -- When the server has accepted a session, and there is memory and marshalling succeeds, the
  -- authentication data is sent before all else, the last added first, then the watches that are
  -- registered, if any, and then what waited; the handle is connected and its other requests are
  -- untouched.
  pub establish-to_send :
      (ev : Events) (res : PrimeStruct) (zh : Session H A)
      → IsMarshalling writers
      → ((n : ℕ) → ev.packet_calloc n ≡ true)
      → (establish H replies adaptor writers big_endian ev res zh).client ≡ record zh.client {
        state = zoo_connected_state;
        to_send =
            auth_packets writers zh.auth_h
            ++ (watch_packets writers zh.last_zxid
                  (HashTable.keys H zh.active_node_watchers)
                  (HashTable.keys H zh.active_exist_watchers)
                  (HashTable.keys H zh.active_child_watchers)
                ++ zh.client.to_send);
      }
  unfolding establish send_auth_info
  establish-to_send ev res zh w c =
      let watches =
        (send_set_watches writers (ev.packet_calloc zero) zh.last_zxid
          (HashTable.keys H zh.active_node_watchers) (HashTable.keys H zh.active_exist_watchers)
          (HashTable.keys H zh.active_child_watchers) zh.client.to_send).1 in
      let auths = (send_auth_info writers (λ n. ev.packet_calloc (suc n)) zh.auth_h watches).1 in
      (queue_session_event-client H replies adaptor (pos 0)
        (accepted H replies adaptor writers big_endian res auths zh) zoo_connected_state).0
      ∙ ap (λ q. record zh.client { state = zoo_connected_state; to_send = q })
          (send_infos-auth_packets writers (λ n. ev.packet_calloc (suc n)) (pos 0) zh.auth_h _ w
              (λ n. c (suc n))
            ∙ ap (λ q. auth_packets writers zh.auth_h ++ q)
                (send_set_watches-watch_packets writers (ev.packet_calloc zero) zh.last_zxid _ _ _
                  zh.client.to_send w (c zero)))

  -- When the server answers with another session than the one that was asked for, the session has
  -- expired: the code says so, every blocked caller is woken with it, each asynchronous request that
  -- waited but a ping gets a reply with it, in the order of the requests and behind the event of the
  -- expired session, no request is left, and the handle is in the state of an expired session.
  pub finish_handshake-expired :
      (ev : Events) (buff : Incoming) (zh : Session H A)
      → (zh.link.client_id ==ℤ pos 0) ≡ false
      → (zh.link.client_id
          ==ℤ (deserialize_prime_response big_endian
              (bytes_in H replies adaptor writers big_endian buff.buffer)).session_id)
        ≡ false
      → (after : Session H A) × (finish_handshake H replies adaptor writers big_endian ev buff zh
          ≡ (zsessionexpired, after))
        × (after.client.state ≡ zoo_expired_session_state)
        × (after.client.sent_requests ≡ [])
        × (after.notified
            ≡ zh.notified ++ callers H replies adaptor zsessionexpired zh.client.sent_requests)
        × IsDelivered H replies adaptor zsessionexpired
            (error_event H replies adaptor (set_state H A zh zoo_expired_session_state))
            (fakes H replies adaptor zsessionexpired zh.client.sent_requests)
            after
  unfolding finish_handshake
  finish_handshake-expired ev buff zh known other =
      let expired = set_state H A zh zoo_expired_session_state in
      let (client, told, refs) = handle_error-client H replies adaptor zsessionexpired expired in
      (
        handle_error H replies adaptor expired zsessionexpired,
        rw (finish_handshake, known, other),
        ap (λ (k : Handle). k.state) client,
        ap (λ (k : Handle). k.sent_requests) client,
        told,
        handle_error-IsDelivered H replies adaptor zsessionexpired expired,
      )
