-- ===== src/Wire/IArchive.antt =====
-- recordio.c: `struct buff_struct` as the state of an input archive, and the functions that read
-- from it. A copy from past the end of the memory behind `buffer` is an `overread`.
pub mod Decode
pub mod Safety
use elephants.Base.{
  ℕ, ◌+◌, ◌-◌, ◌^◌, Bool, Option, none, some, List, ℤ, pos, negsuc, ◌==ℤ◌, is_neg, ltb, leb, length,
  take, drop, if◌then◌else◌,
}
use elephants.Wire.Word.{signed32, from_be, signed64, from_image, htonll}
use elephants.Wire.OArchive.{Status, enomem, e2big, einval, Buffer, lacks_unsigned, lacks_signed}

-- `buffer` is the memory that may be read, and `len` what the archive was told of it.
pub record IArchive : Type 0 where
  pub len : ℕ
  pub off : ℕ
  pub buffer : List ℕ

-- A value that was read, an error code, or a read out of bounds.
pub data Read {ℓ} (A : Type ℓ) : Type ℓ where
  got : A → IArchive → Read A
  failed : Status → IArchive → Read A
  overread : Read A

infixl 5 ◌>>=◌
abbrev pub ◌>>=◌ {ℓ κ} : {A : Type ℓ} {B : Type κ} → Read A → (A → IArchive → Read B) → Read B
got a ia >>= f = f a ia
failed s ia >>= f = failed s ia
overread >>= f = overread

unfoldable pub create_buffer_iarchive : Bool → Bool → List ℕ → ℕ → Option IArchive
create_buffer_iarchive ia_allocated priv_allocated buffer len =
    if ia_allocated
    then (if priv_allocated then some (record { len = len; off = 0; buffer = buffer }) else none)
    else none

-- `memcpy(to, priv->buffer + priv->off, n); priv->off += n;`
unfoldable pub copy_out : ℕ → IArchive → Read (List ℕ)
copy_out n ia =
    if leb (ia.off + n) (length ia.buffer)
    then got (take n (drop ia.off ia.buffer)) (record ia { off = ia.off + n })
    else overread

unfoldable pub ia_deserialize_int : IArchive → Read ℤ
unfolding copy_out
ia_deserialize_int ia =
    if lacks_unsigned ia.len ia.off 4
    then failed e2big ia
    else copy_out 4 ia >>= (λ bytes ia'. got (signed32 (from_be bytes)) ia')

unfoldable pub ia_deserialize_long : Bool → IArchive → Read ℤ
unfolding copy_out htonll
ia_deserialize_long big_endian ia =
    if lacks_unsigned ia.len ia.off 8
    then failed e2big ia
    else copy_out 8 ia
      >>= (λ bytes ia'. got (signed64 (from_image big_endian (htonll big_endian bytes))) ia')

unfoldable pub ia_start_vector : IArchive → Read ℤ
unfolding ia_deserialize_int
ia_start_vector ia = ia_deserialize_int ia

-- `*v = priv->buffer[priv->off]`, a `char`, which is signed.
abbrev pub signed8 : List ℕ → ℤ
signed8 bytes = let w = from_be bytes in if ltb w 128 then pos w else negsuc (255 - w)

unfoldable pub ia_deserialize_bool : IArchive → Read ℤ
unfolding copy_out
ia_deserialize_bool ia =
    if lacks_signed ia.len ia.off 1
    then failed e2big ia
    else copy_out 1 ia >>= (λ bytes ia'. got (signed8 bytes) ia')

-- `malloc` takes a `size_t`: a negative length is a number near 2 ^ 64.
abbrev pub size_of : ℤ → ℕ
size_of (pos n) = n
size_of (negsuc n) = 2 ^ 64 - 1 - n

-- `(priv->len - priv->off) < len`, between signed numbers.
abbrev pub exceeds : ℕ → ℕ → ℤ → Bool
exceeds len off (pos n) = lacks_signed len off n
exceeds len off (negsuc n) = ltb (len + n + 1) off

module _ (malloc : ℕ → Bool) where
  unfoldable pub ia_deserialize_buffer : IArchive → Read (Option Buffer)
  unfolding ia_deserialize_int copy_out
  ia_deserialize_buffer ia = ia_deserialize_int ia >>= (λ len ia'.
      if exceeds ia'.len ia'.off len
      then failed e2big ia'
      else if len ==ℤ negsuc 0
      then got none ia'
      else if malloc (size_of len)
      then copy_out (size_of len) ia'
        >>= (λ bytes ia''. got (some (record { len = len; buff = bytes })) ia'')
      else failed enomem ia')

  -- The result is the string without its final NUL.
  unfoldable pub ia_deserialize_string : IArchive → Read (List ℕ)
  unfolding ia_deserialize_int copy_out
  ia_deserialize_string ia = ia_deserialize_int ia >>= (λ len ia'.
      if exceeds ia'.len ia'.off len
      then failed e2big ia'
      else if is_neg len
      then failed einval ia'
      else if malloc (size_of len + 1)
      then copy_out (size_of len) ia'
      else failed enomem ia')
