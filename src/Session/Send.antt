-- ===== src/Session/Send.antt =====
-- zookeeper.c: the requests that the library makes on its own, put at the front of what is to be
-- sent.
use elephants.Base.{ℕ, zero, suc, Bool, none, some, List, [], ◌∷◌, ℤ, pos, is_neg, if◌then◌else◌}
use elephants.Frame.{Packet, queue_front_buffer_bytes, zok}
use elephants.Client.{zmarshallingerror}
use elephants.Session.{AuthInfo}
use elephants.Session.Auth.{get_last_auth}

-- The code, the bytes and the length that a request is marshalled to.
abbrev pub Marshalled : Type 0
Marshalled = ℤ × List ℕ × ℕ

-- The generated functions for the requests that the library makes on its own, each with its header.
pub record Writers : Type 0 where
  pub set_watches : ℤ → List (List ℕ) → List (List ℕ) → List (List ℕ) → Marshalled
  pub auth_packet : List ℕ → List ℕ → Marshalled
  pub ping : Marshalled

-- A packet at the front of the queue, where marshalling succeeds.
unfoldable pub put_front : Bool → Marshalled → List Packet → ℤ × List Packet
unfolding queue_front_buffer_bytes
put_front calloc (rc, buff, len) to_send =
    if is_neg rc then (rc, to_send) else queue_front_buffer_bytes calloc to_send buff len

abbrev pub marshalling_code : ℤ → ℤ
marshalling_code rc = if is_neg rc then zmarshallingerror else zok

-- `send_info_packet`, and the loop of `send_auth_info`: the code is that of the last packet.
unfoldable pub send_info_packet : Writers → Bool → AuthInfo → List Packet → ℤ × List Packet
unfolding put_front
send_info_packet writers calloc auth to_send =
    put_front calloc (Writers.auth_packet writers auth.scheme auth.auth) to_send

unfoldable pub send_infos : Writers → (ℕ → Bool) → ℤ → List AuthInfo → List Packet → ℤ × List Packet
unfolding send_info_packet
send_infos writers calloc rc [] to_send = (rc, to_send)
send_infos writers calloc rc (auth ∷ next) to_send =
    let (rc1, to_send1) = send_info_packet writers (calloc zero) auth to_send in
    send_infos writers (λ n. calloc (suc n)) rc1 next to_send1

unfoldable pub send_auth_info : Writers → (ℕ → Bool) → List AuthInfo → List Packet → ℤ × List Packet
unfolding send_infos
send_auth_info writers calloc auth_h to_send =
    let (rc, to_send1) = send_infos writers calloc (pos 0) auth_h to_send in
    (marshalling_code rc, to_send1)

unfoldable pub send_last_auth_info : Writers → Bool → List AuthInfo → List Packet → ℤ × List Packet
unfolding get_last_auth send_info_packet
send_last_auth_info writers calloc auth_h to_send = elim (get_last_auth auth_h) [
  | none ↦ (zok, to_send)
  | some auth ↦
      let (rc, to_send1) = send_info_packet writers calloc auth to_send in
      (marshalling_code rc, to_send1)
]

-- `send_set_watches`, of the keys of the three tables.
unfoldable pub send_set_watches :
    Writers
    → Bool
    → ℤ
    → List (List ℕ)
    → List (List ℕ)
    → List (List ℕ)
    → List Packet
    → ℤ × List Packet
unfolding put_front
send_set_watches writers calloc zxid [] [] [] to_send = (zok, to_send)
send_set_watches writers calloc zxid data_watches exist_watches child_watches to_send =
    let (rc, to_send1) =
      put_front calloc (Writers.set_watches writers zxid data_watches exist_watches child_watches)
        to_send in
    (marshalling_code rc, to_send1)
