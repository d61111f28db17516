-- ===== src/Session/Handshake.antt =====
-- zookeeper.c: the two messages of the handshake, which are written and read without an archive.
use elephants.Base.{
  ℕ, zero, suc, ◌≡◌, refl, ap, ◌∙◌, Bool, List, [], ◌∷◌, ◌++◌, ℤ, IsInt32, IsInt64, take, drop,
  length, arith,
}
use elephants.Wire.Word.{
  be32, be64, word32, word64, signed32, signed64, from_be, memory_image, from_image, htonll,
  from_image-htonll, from_be-be32, signed32-word32, signed64-word64, word32-lt, word64-lt,
  htonll-memory_image,
}

-- `HANDSHAKE_REQ_SIZE`
abbrev pub handshake_req_size : ℕ
handshake_req_size = 44

-- `sizeof(zh->primer_storage_buffer)`
abbrev pub primer_size : ℕ
primer_size = 40

pub record ConnectReq : Type 0 where
  pub protocol_version : ℤ
  pub last_zxid_seen : ℤ
  pub time_out : ℤ
  pub session_id : ℤ
  pub passwd_len : ℤ
  pub passwd : List ℕ

pub record PrimeStruct : Type 0 where
  pub len : ℤ
  pub protocol_version : ℤ
  pub time_out : ℤ
  pub session_id : ℤ
  pub passwd_len : ℤ
  pub passwd : List ℕ

-- `htonl` and `memcpy`, and `htonll` and `memcpy`.
abbrev pub put_int : ℤ → List ℕ
put_int i = be32 (word32 i)

abbrev pub put_long : Bool → ℤ → List ℕ
put_long big_endian d = htonll big_endian (memory_image big_endian (word64 d))

unfoldable pub serialize_prime_connect : Bool → ConnectReq → List ℕ
unfolding htonll
serialize_prime_connect big_endian req =
    put_int req.protocol_version
    ++ put_long big_endian req.last_zxid_seen
    ++ put_int req.time_out
    ++ put_long big_endian req.session_id
    ++ put_int req.passwd_len
    ++ req.passwd

-- The bytes at an offset.
abbrev pub bytes_at : List ℕ → ℕ → ℕ → List ℕ
bytes_at buffer offset n = take n (drop offset buffer)

abbrev pub get_int : List ℕ → ℕ → ℤ
get_int buffer offset = signed32 (from_be (bytes_at buffer offset 4))

unfoldable pub deserialize_prime_response : Bool → List ℕ → PrimeStruct
unfolding htonll
deserialize_prime_response big_endian buffer = record {
  len = get_int buffer 0;
  protocol_version = get_int buffer 4;
  time_out = get_int buffer 8;
  session_id = signed64 (from_image big_endian (htonll big_endian (bytes_at buffer 12 8)));
  passwd_len = get_int buffer 20;
  passwd = bytes_at buffer 24 16;
}

-- A password of sixteen bytes.
abbrev pub IsPasswd : List ℕ → Type 0
IsPasswd passwd = length passwd ≡ 16

-- The fields of a response are numbers of their widths.
pub record IsPrime (res : PrimeStruct) : Type 0 where
  pub len : IsInt32 res.len
  pub version : IsInt32 res.protocol_version
  pub time : IsInt32 res.time_out
  pub id : IsInt64 res.session_id
  pub size : IsInt32 res.passwd_len
  pub passwd : IsPasswd res.passwd

-- The bytes of a response: its fields in their order, each with its highest byte first.
abbrev pub prime_bytes : PrimeStruct → List ℕ
prime_bytes res =
    be32 (word32 res.len)
    ++ be32 (word32 res.protocol_version)
    ++ be32 (word32 res.time_out)
    ++ be64 (word64 res.session_id)
    ++ be32 (word32 res.passwd_len)
    ++ res.passwd

take-all : (n : ℕ) (xs : List ℕ) → length xs ≡ n → take n xs ≡ xs
take-all zero xs h =
    elim xs as (λ l. length l ≡ zero → [] ≡ l) [
      | [] ↦ λ e. refl
      | x ∷ rest ↦ λ e. absurd (omega (arith, e))
    ]
      h
take-all (suc n) [] h = absurd (omega (arith, h))
take-all (suc n) (x ∷ xs) h = ap (λ l. x ∷ l) (take-all n xs (omega (arith, h)))

get_int-be32 : (z : ℤ) → IsInt32 z → signed32 (from_be (be32 (word32 z))) ≡ z
get_int-be32 z h = ap signed32 (from_be-be32 (word32 z) (word32-lt z)) ∙ signed32-word32 z h

-- Whether the host keeps the highest byte first or last, a response of the server, its fields with
-- their highest bytes first, is read as what it stands for, and fills the memory that it is received
-- in.
pub deserialize_prime_response-prime_bytes :
    (big_endian : Bool) (res : PrimeStruct)
    → IsPrime res
    → (deserialize_prime_response big_endian (prime_bytes res) ≡ res)
      × (length (prime_bytes res) ≡ primer_size)
unfolding deserialize_prime_response
deserialize_prime_response-prime_bytes big_endian res h =
    let long : from_image big_endian (htonll big_endian (be64 (word64 res.session_id)))
        ≡ word64 res.session_id =
      from_image-htonll big_endian (word64 res.session_id) (word64-lt res.session_id) in
    (
      rw (
        deserialize_prime_response,
        get_int-be32 res.len h.len,
        get_int-be32 res.protocol_version h.version,
        get_int-be32 res.time_out h.time,
        get_int-be32 res.passwd_len h.size,
        long,
        signed64-word64 res.session_id h.id,
        take-all 16 res.passwd h.passwd,
      ),
      omega (arith, h.passwd),
    )

-- A request has the length that is sent before it, and its fields stand in it in their order, with
-- their highest bytes first.
pub serialize_prime_connect-fields :
    (big_endian : Bool) (req : ConnectReq)
    → IsPasswd req.passwd
    → (serialize_prime_connect big_endian req
        ≡ be32 (word32 req.protocol_version)
          ++ be64 (word64 req.last_zxid_seen)
          ++ be32 (word32 req.time_out)
          ++ be64 (word64 req.session_id)
          ++ be32 (word32 req.passwd_len)
          ++ req.passwd)
      × (length (serialize_prime_connect big_endian req) ≡ handshake_req_size)
unfolding serialize_prime_connect
serialize_prime_connect-fields big_endian req h =
    let zxid = (htonll-memory_image big_endian (word64 req.last_zxid_seen)).0 in
    let id = (htonll-memory_image big_endian (word64 req.session_id)).0 in
    (
      rw (serialize_prime_connect, zxid, id),
      rw (serialize_prime_connect, zxid, id) (omega (arith, h)),
    )
