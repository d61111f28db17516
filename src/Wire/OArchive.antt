-- ===== src/Wire/OArchive.antt =====
-- recordio.c: `struct buff_struct` as the state of an output archive, and the functions that append
-- to it. What the C code leaves undefined (a copy past the allocated length or into a null buffer,
-- an `int` that overflows, a negative length taken as a size) is a `fault`.
pub mod Bounds
pub mod Encode
use elephants.Base.{
  ℕ, zero, suc, ◌+◌, ◌-◌, ◌*◌, ◌%◌, ◌^◌, Bool, true, false, Option, none, some, List, [], ◌∷◌, ◌++◌,
  ℤ, pos, negsuc, ◌==ℤ◌, ltb, leb, length, take, if◌then◌else◌,
}
use elephants.Wire.Word.{word32, signed32, be32, word64, memory_image, htonll}

-- The return codes of the archive functions: 0, -ENOMEM, -E2BIG and -EINVAL.
pub data Status : Type 0 where
  ok enomem e2big einval : Status

-- A call returns its code and leaves the archive in a state, or has undefined behaviour.
pub data Run {ℓ} (A : Type ℓ) : Type ℓ where
  ret : Status → A → Run A
  fault : Run A

-- `rc = ...; if (rc < 0) return rc;`
infixl 5 ◌>>=◌
abbrev pub ◌>>=◌ {ℓ} : {A : Type ℓ} → Run A → (A → Run A) → Run A
ret ok a >>= f = f a
ret enomem a >>= f = ret enomem a
ret e2big a >>= f = ret e2big a
ret einval a >>= f = ret einval a
fault >>= f = fault

-- `buffer` is what has been written, the first `off` of the `len` bytes allocated; `none` is NULL.
pub record OArchive : Type 0 where
  pub len : ℕ
  pub off : ℕ
  pub buffer : Option (List ℕ)

-- `struct buffer`; `buff` holds the bytes that may be read behind the pointer.
pub record Buffer : Type 0 where
  pub len : ℤ
  pub buff : List ℕ

abbrev pub int_max : ℕ
int_max = 2 ^ 31 - 1

-- `while (s->len < newlen) s->len *= 2;` on fuel. `none`: the product overflows, or no fuel is left.
unfoldable pub grow : ℕ → ℕ → ℕ → Option ℕ
grow zero len newlen = none
grow (suc fuel) len newlen =
    let rest = if ltb int_max (len * 2) then none else grow fuel (len * 2) newlen in
    if ltb len newlen then rest else some len

-- `(priv->len - priv->off) < sizeof(i)`: the difference is converted to an unsigned type.
abbrev pub lacks_unsigned : ℕ → ℕ → ℕ → Bool
lacks_unsigned len off n = if leb off len then ltb (len - off) n else false

-- `(priv->len - priv->off) < n`, between signed numbers.
abbrev pub lacks_signed : ℕ → ℕ → ℕ → Bool
lacks_signed len off n = ltb len (off + n)

-- `memcpy(priv->buffer + priv->off, from, n); priv->off += n;`, `from` being a run of `n` bytes.
unfoldable pub write : List ℕ → OArchive → Run OArchive
write bytes oa = elim oa.buffer [
  | none ↦ fault
  | some b ↦
      if leb (oa.off + length bytes) oa.len
      then ret ok
          (record oa { off = oa.off + length bytes; buffer = some (take oa.off b ++ bytes) })
      else fault
]

-- The code that `oa_serialize_int` returns for a null string is dropped, and 0 is returned.
abbrev pub ignore_rc : Run OArchive → Run OArchive
ignore_rc (ret rc oa) = ret ok oa
ignore_rc fault = fault

-- The arguments that all functions share: whether `realloc` succeeds at a size, and whether the
-- host keeps the highest byte of a number first.
module _ (realloc : ℕ → Bool) where
  unfoldable pub resize_buffer : OArchive → ℕ → Run OArchive
  unfolding grow
  resize_buffer s newlen = if ltb int_max newlen then fault else elim (grow 32 s.len newlen) [
    | none ↦ fault
    | some l ↦
        if realloc l
        then ret ok (record s { len = l })
        else ret enomem (record s { len = l; buffer = none })
  ]

  -- `if (lacks) { rc = resize_buffer(priv, priv->len + n); ... }`
  unfoldable pub reserve : Bool → ℕ → OArchive → Run OArchive
  unfolding resize_buffer
  reserve lacks n oa = if lacks then resize_buffer oa (oa.len + n) else ret ok oa

  unfoldable pub oa_serialize_int : OArchive → ℤ → Run OArchive
  unfolding reserve write
  oa_serialize_int oa d = reserve (lacks_unsigned oa.len oa.off 4) 4 oa >>= write (be32 (word32 d))

  unfoldable pub oa_serialize_long : Bool → OArchive → ℤ → Run OArchive
  unfolding reserve write htonll
  oa_serialize_long big_endian oa d =
      let i = htonll big_endian (memory_image big_endian (word64 d)) in
      reserve (lacks_unsigned oa.len oa.off 8) 8 oa >>= write i

  unfoldable pub oa_start_vector : OArchive → ℤ → Run OArchive
  unfolding oa_serialize_int
  oa_start_vector oa count = oa_serialize_int oa count

  unfoldable pub oa_serialize_bool : OArchive → ℤ → Run OArchive
  unfolding reserve write
  oa_serialize_bool oa i =
      reserve (lacks_signed oa.len oa.off 1) 1 oa >>= write (if i ==ℤ pos 0 then 0 ∷ [] else 1 ∷ [])

  -- The copy that ends `oa_serialize_buffer` and `oa_serialize_string`.
  unfoldable pub copy_in : ℤ → List ℕ → OArchive → Run OArchive
  unfolding reserve write
  copy_in (pos n) from oa =
      reserve (lacks_signed oa.len oa.off n) n oa
      >>= (λ s. if leb n (length from) then write (take n from) s else fault)
  copy_in (negsuc n) from oa = fault

  unfoldable pub oa_serialize_buffer : OArchive → Option Buffer → Run OArchive
  unfolding oa_serialize_int copy_in
  oa_serialize_buffer oa none = oa_serialize_int oa (negsuc 0)
  oa_serialize_buffer oa (some b) =
      oa_serialize_int oa b.len
      >>= (λ s. if b.len ==ℤ negsuc 0 then ret ok s else copy_in b.len b.buff s)

  unfoldable pub oa_serialize_string : OArchive → Option (List ℕ) → Run OArchive
  unfolding oa_serialize_int copy_in
  oa_serialize_string oa none = ignore_rc (oa_serialize_int oa (negsuc 0))
  oa_serialize_string oa (some s) =
      let len = signed32 (length s % 2 ^ 32) in oa_serialize_int oa len >>= copy_in len s

-- The three calls of `malloc` in `create_buffer_oarchive`, by whether they succeed: the archive,
-- its `buff_struct`, and the first 128 bytes. The last is not tested.
unfoldable pub create_buffer_oarchive : Bool → Bool → Bool → Option OArchive
create_buffer_oarchive false priv first = none
create_buffer_oarchive true false first = none
create_buffer_oarchive true true first =
    some (record { len = 128; off = 0; buffer = if first then some [] else none })

unfoldable pub get_buffer : OArchive → Option (List ℕ)
get_buffer oa = oa.buffer

unfoldable pub get_buffer_len : OArchive → ℕ
get_buffer_len oa = oa.off
