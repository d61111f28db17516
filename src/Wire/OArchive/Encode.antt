-- ===== src/Wire/OArchive/Encode.antt =====
-- What each function of an output archive appends: the generated marshalling code of a packet is a
-- sequence of such calls, one for each field.
use elephants.Base.{
  ℕ, ◌+◌, ◌*◌, ◌%◌, ◌^◌, ◌≤◌, ◌<◌, ◌≡◌, ◌⊎◌, refl, Bool, true, Option, none, some, List, [], ◌∷◌,
  ◌++◌, append_assoc, append-nil, ℤ, pos, negsuc, ◌==ℤ◌, IsInt32, IsInt64, arith, length,
  length-append, take_all, le→leb, inl, inr, if◌then◌else◌,
}
use elephants.Wire.Word.{word32, signed32, be32, word64, be64, htonll-memory_image}
use elephants.Wire.OArchive.{
  OArchive, Buffer, Run, int_max, ret, ok, ◌>>=◌, oa_serialize_int, oa_serialize_long,
  oa_serialize_bool, copy_in, oa_serialize_buffer, oa_serialize_string, ignore_rc,
}
use elephants.Wire.OArchive.Bounds.{IsOpen, Appended, done, failed, reserve-write}

-- A field of a record, with its value.
pub data Field : Type 0 where
  int : ℤ → Field
  long : ℤ → Field
  bool : ℤ → Field
  buffer : Option Buffer → Field
  string : Option (List ℕ) → Field

-- The bytes that a field has in a packet.
abbrev pub encode_buffer : Option Buffer → List ℕ
encode_buffer none = be32 (word32 (negsuc 0))
encode_buffer (some b) = be32 (word32 b.len) ++ (if b.len ==ℤ negsuc 0 then [] else b.buff)

abbrev pub encode : Field → List ℕ
encode (int z) = be32 (word32 z)
encode (long z) = be64 (word64 z)
encode (bool z) = if z ==ℤ pos 0 then 0 ∷ [] else 1 ∷ []
encode (buffer b) = encode_buffer b
encode (string none) = be32 (word32 (negsuc 0))
encode (string (some s)) = be32 (word32 (pos (length s))) ++ s

-- What a caller of the C functions can pass: numbers in their ranges, a length that is -1 or fits
-- the bytes behind the pointer, and a string that `int32_t` can measure.
abbrev pub IsBuffer : Buffer → Type 0
IsBuffer b = IsInt32 b.len × ((b.len ≡ negsuc 0) ⊎ (b.len ≡ pos (length b.buff)))

abbrev pub IsField : Field → Type 0
IsField (int z) = IsInt32 z
IsField (long z) = IsInt64 z
IsField (bool z) = IsInt32 z
IsField (buffer none) = Unit
IsField (buffer (some b)) = IsBuffer b
IsField (string none) = Unit
IsField (string (some s)) = length s < 2 ^ 31

-- Every field but a null string; for that one the code of a failed `realloc` is dropped.
abbrev pub Reports : (ℕ → Bool) → Field → Type 0
Reports realloc (string none) = (n : ℕ) → n ≤ int_max → realloc n ≡ true
Reports realloc _ = Unit

-- The largest packet for which no length overflows an `int`.
abbrev pub Fits : List ℕ → List ℕ → Type 0
Fits b bytes = 128 + 5 * (length b + length bytes) ≤ 2 ^ 30

module _ (realloc : ℕ → Bool) where
  bind-Appended :
      (r : Run OArchive) (f : OArchive → Run OArchive) (b x y : List ℕ)
      → Appended realloc b x r
      → ((oa : OArchive) → IsOpen oa (b ++ x) → Appended realloc (b ++ x) y (f oa))
      → Appended realloc b (x ++ y) (r >>= f)
  bind-Appended _ f b x y (done oa v) k = lift (f oa) (k oa v)
    where
      lift : (r : Run OArchive) → Appended realloc (b ++ x) y r → Appended realloc b (x ++ y) r
      lift _ (done oa v) = done oa (rw append_assoc at v)
      lift _ (failed n oa m e h) = failed n oa m e h
  bind-Appended _ f b x y (failed n oa m e h) k = failed n oa m e h

  module _ (oa : OArchive) (b : List ℕ) (v : IsOpen oa b) where
    pub oa_serialize_int-Appended :
        (z : ℤ)
        → Fits b (be32 (word32 z))
        → Appended realloc b (be32 (word32 z)) (oa_serialize_int realloc oa z)
    unfolding oa_serialize_int
    oa_serialize_int-Appended z s =
        reserve-write realloc _ 4 oa b (be32 (word32 z)) v refl s (λ e. ground (arith, v.within))
          (λ e. ground (arith, v.within))

    oa_serialize_long-Appended :
        (big_endian : Bool) (z : ℤ)
        → Fits b (be64 (word64 z))
        → Appended realloc b (be64 (word64 z)) (oa_serialize_long realloc big_endian oa z)
    unfolding oa_serialize_long
    oa_serialize_long-Appended big_endian z s = rw (htonll-memory_image big_endian (word64 z)).0 (
        reserve-write realloc _ 8 oa b (be64 (word64 z)) v refl s (λ e. ground (arith, v.within))
          (λ e. ground (arith, v.within)))

    oa_serialize_bool-Appended :
        (z : ℤ)
        → Fits b (encode (bool z))
        → Appended realloc b (encode (bool z)) (oa_serialize_bool realloc oa z)
    unfolding oa_serialize_bool
    oa_serialize_bool-Appended z s =
        reserve-write realloc _ 1 oa b (encode (bool z)) v (ground arith) (ground arith)
          (λ e. ground arith) (λ e. ground arith)

    copy_in-Appended :
        (from : List ℕ)
        → Fits b from
        → Appended realloc b from (copy_in realloc (pos (length from)) from oa)
    unfolding copy_in
    copy_in-Appended from s =
        rw
          (
            le→leb (length from) (length from) (omega arith),
            take_all (length from) from (omega arith),
          )
          (reserve-write realloc _ (length from) oa b from v refl s (λ e. ground arith)
            (λ e. ground arith))

  module _ (oa : OArchive) (b : List ℕ) (v : IsOpen oa b) where
    buffer-Appended :
        (l : ℤ) (f : List ℕ)
        → (l ≡ negsuc 0) ⊎ (l ≡ pos (length f))
        → Fits b (encode_buffer (some (record { len = l; buff = f })))
        → Appended realloc b
            (encode_buffer (some (record { len = l; buff = f })))
            (oa_serialize_buffer realloc oa (some (record { len = l; buff = f })))
    unfolding oa_serialize_buffer
    buffer-Appended l f (inl e) s = rw e (
        bind-Appended _ _ b _ [] (oa_serialize_int-Appended oa b v (negsuc 0) (rw e at s))
          λ oa' v'. done oa' (rw append-nil v'))
    buffer-Appended l f (inr e) s = rw e (
        bind-Appended _ _ b _ f
          (oa_serialize_int-Appended oa b v (pos (length f)) (omega (arith, rw e at s)))
          λ oa' v'.
            copy_in-Appended oa' _ v' f
              (omega (arith, rw e at s, length-append b (be32 (word32 (pos (length f)))))))

    oa_serialize_buffer-Appended :
        (d : Option Buffer)
        → IsField (buffer d)
        → Fits b (encode_buffer d)
        → Appended realloc b (encode_buffer d) (oa_serialize_buffer realloc oa d)
    unfolding oa_serialize_buffer
    oa_serialize_buffer-Appended none w s = oa_serialize_int-Appended oa b v (negsuc 0) s
    oa_serialize_buffer-Appended (some d) w s = buffer-Appended d.len d.buff w.1 s

    oa_serialize_string-Appended :
        (d : Option (List ℕ))
        → IsField (string d)
        → Reports realloc (string d)
        → Fits b (encode (string d))
        → Appended realloc b (encode (string d)) (oa_serialize_string realloc oa d)
    unfolding oa_serialize_string
    oa_serialize_string-Appended none w reports s =
        ignored _ (oa_serialize_int-Appended oa b v (negsuc 0) s)
      where
        ignored :
            (r : Run OArchive)
            → Appended realloc b (be32 (word32 (negsuc 0))) r
            → Appended realloc b (be32 (word32 (negsuc 0))) (ignore_rc r)
        ignored _ (done oa v) = done oa v
        ignored _ (failed n oa m e h) = cc (e, reports n m)
    oa_serialize_string-Appended (some cs) w reports s =
        let e : signed32 (length cs % 2 ^ 32) ≡ pos (length cs) = ground arith in
        rw e (
          bind-Appended _ _ b _ cs
            (oa_serialize_int-Appended oa b v (pos (length cs)) (omega arith))
            λ oa' v'.
              copy_in-Appended oa' _ v' cs
                (omega (arith, length-append b (be32 (word32 (pos (length cs)))))))

-- The call that the generated code makes for a field.
unfoldable pub serialize : (ℕ → Bool) → Bool → Field → OArchive → Run OArchive
unfolding oa_serialize_int oa_serialize_long oa_serialize_bool oa_serialize_buffer
    oa_serialize_string
serialize realloc big_endian (int z) oa = oa_serialize_int realloc oa z
serialize realloc big_endian (long z) oa = oa_serialize_long realloc big_endian oa z
serialize realloc big_endian (bool z) oa = oa_serialize_bool realloc oa z
serialize realloc big_endian (buffer d) oa = oa_serialize_buffer realloc oa d
serialize realloc big_endian (string s) oa = oa_serialize_string realloc oa s

-- `rc = serialize_a(...); rc = rc < 0 ? rc : serialize_b(...); ...`
unfoldable pub serialize_all : (ℕ → Bool) → Bool → List Field → OArchive → Run OArchive
unfolding serialize
serialize_all realloc big_endian [] oa = ret ok oa
serialize_all realloc big_endian (f ∷ fs) oa =
    serialize realloc big_endian f oa >>= serialize_all realloc big_endian fs

abbrev pub encode_all : List Field → List ℕ
encode_all [] = []
encode_all (f ∷ fs) = encode f ++ encode_all fs

abbrev pub All {ℓ κ} : {A : Type ℓ} → (A → Type κ) → List A → Type κ
All P [] = Unit
All P (x ∷ xs) = P x × All P xs

module _ (realloc : ℕ → Bool) (big_endian : Bool) where
  pub serialize-Appended :
      (f : Field) (oa : OArchive) (b : List ℕ)
      → IsOpen oa b
      → IsField f
      → Reports realloc f
      → Fits b (encode f)
      → Appended realloc b (encode f) (serialize realloc big_endian f oa)
  unfolding serialize
  serialize-Appended (int z) oa b v w r s = oa_serialize_int-Appended realloc oa b v z s
  serialize-Appended (long z) oa b v w r s =
      oa_serialize_long-Appended realloc oa b v big_endian z s
  serialize-Appended (bool z) oa b v w r s = oa_serialize_bool-Appended realloc oa b v z s
  serialize-Appended (buffer d) oa b v w r s = oa_serialize_buffer-Appended realloc oa b v d w s
  serialize-Appended (string d) oa b v w r s = oa_serialize_string-Appended realloc oa b v d w r s

  -- Any sequence of fields that C can hold and whose bytes fit, written to an open archive, where
  -- `realloc` does not fail if there are null strings among them: the calls append exactly the
  -- bytes of the fields, in order, or stop with -ENOMEM because `realloc` failed; none has
  -- undefined behaviour.
  pub serialize_all-Appended :
      (fs : List Field) (oa : OArchive) (b : List ℕ)
      → IsOpen oa b
      → All IsField fs
      → All (Reports realloc) fs
      → Fits b (encode_all fs)
      → Appended realloc b (encode_all fs) (serialize_all realloc big_endian fs oa)
  unfolding serialize_all
  serialize_all-Appended [] oa b v w r s = done oa (rw append-nil v)
  serialize_all-Appended (f ∷ fs) oa b v w r s =
      let n = length-append (encode f) (encode_all fs) in
      bind-Appended realloc _ _ b (encode f) (encode_all fs)
        (serialize-Appended f oa b v w.0 r.0 (omega (arith, n)))
        λ oa' v'.
          serialize_all-Appended fs oa' _ v' w.1 r.1 (omega (arith, n, length-append b (encode f)))
