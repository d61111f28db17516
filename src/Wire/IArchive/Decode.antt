-- ===== src/Wire/IArchive/Decode.antt =====
-- What the functions of an input archive read, from the bytes that an output archive has written
-- and from any bytes at all.
use elephants.Base.{
  ℕ, ◌+◌, ◌^◌, ◌≤◌, ◌<◌, ◌≡◌, ◌⊎◌, refl, Bool, true, false, Option, none, some, List, [], ◌∷◌, ◌++◌,
  append_assoc, ℤ, pos, negsuc, ◌==ℤ◌, IsInt32, IsInt64, arith, ltb-eq_false, map, length, drop,
  length-append, drop-drop, take-append, drop-append, le→leb, Bool-cases, inl, inr, if◌then◌else◌,
}
use elephants.Wire.Word.{
  word32, word64, be32, be64, signed32-word32, signed64-word64, word32-lt, word64-lt, from_be-be32,
  from_image-htonll,
}
use elephants.Wire.OArchive.{Buffer, lacks_unsigned, lacks_signed}
use elephants.Wire.OArchive.Encode.{
  Field, int, long, bool, buffer, string, encode, encode_all, IsField, All,
}
use elephants.Wire.IArchive.{
  IArchive, Read, got, ◌>>=◌, copy_out, ia_deserialize_int, ia_deserialize_long,
  ia_deserialize_bool, ia_deserialize_buffer, ia_deserialize_string, signed8,
}

pub data Kind : Type 0 where
  int_kind long_kind bool_kind buffer_kind string_kind : Kind

abbrev pub kind : Field → Kind
kind (int z) = int_kind
kind (long z) = long_kind
kind (bool z) = bool_kind
kind (buffer d) = buffer_kind
kind (string s) = string_kind

-- What is read back for a field: a truth value is 0 or 1, and a length of -1 is a null buffer.
abbrev pub normal_buffer : Option Buffer → Option Buffer
normal_buffer none = none
normal_buffer (some b) = if b.len ==ℤ negsuc 0 then none else some b

abbrev pub normal : Field → Field
normal (bool z) = bool (if z ==ℤ pos 0 then pos 0 else pos 1)
normal (buffer d) = buffer (normal_buffer d)
normal f = f

-- Every field but a null string.
abbrev pub IsReadable : Field → Type 0
IsReadable (string none) = ⊥
IsReadable _ = Unit

-- The call that the generated code makes for a field.
unfoldable pub deserialize : (ℕ → Bool) → Bool → Kind → IArchive → Read Field
unfolding ia_deserialize_int ia_deserialize_long ia_deserialize_bool ia_deserialize_buffer
    ia_deserialize_string
deserialize malloc big_endian int_kind ia = ia_deserialize_int ia >>= (λ z. got (int z))
deserialize malloc big_endian long_kind ia =
    ia_deserialize_long big_endian ia >>= (λ z. got (long z))
deserialize malloc big_endian bool_kind ia = ia_deserialize_bool ia >>= (λ z. got (bool z))
deserialize malloc big_endian buffer_kind ia =
    ia_deserialize_buffer malloc ia >>= (λ d. got (buffer d))
deserialize malloc big_endian string_kind ia =
    ia_deserialize_string malloc ia >>= (λ s. got (string (some s)))

unfoldable pub deserialize_all : (ℕ → Bool) → Bool → List Kind → IArchive → Read (List Field)
unfolding deserialize
deserialize_all malloc big_endian [] ia = got [] ia
deserialize_all malloc big_endian (k ∷ ks) ia =
    deserialize malloc big_endian k ia
    >>= (λ f ia'. deserialize_all malloc big_endian ks ia' >>= (λ fs. got (f ∷ fs)))

-- The bytes of the memory that are still to be read are `rest`.
pub record IsAt (ia : IArchive) (rest : List ℕ) : Type 0 where
  pub ahead : drop ia.off ia.buffer ≡ rest
  pub inside : ia.off + length rest ≡ length ia.buffer
  pub told : length ia.buffer ≤ ia.len

copy_out-IsAt :
    (n : ℕ) (ia : IArchive) (bytes rest : List ℕ)
    → IsAt ia (bytes ++ rest)
    → length bytes ≡ n
    → (copy_out n ia ≡ got bytes (record ia { off = ia.off + n }))
      × IsAt (record ia { off = ia.off + n }) rest
unfolding copy_out
copy_out-IsAt n ia bytes rest v e =
    let l = length-append bytes rest in
    (
      rw (
        le→leb (ia.off + n) (length ia.buffer) (omega (arith, v.inside)),
        v.ahead,
        take-append n bytes rest e,
      ),
      record {
        ahead = rw (← drop-drop n ia.off ia.buffer, v.ahead) (drop-append n bytes rest e);
        inside = omega (arith, v.inside);
        told = v.told;
      },
    )

-- A read by one of the functions, and what it leaves to be read.
abbrev pub Gets {ℓ} : {A : Type ℓ} → Read A → A → List ℕ → Type ℓ
Gets r a rest = (ia : IArchive) × (r ≡ got a ia) × IsAt ia rest

enough_unsigned : (len off n : ℕ) → off + n ≤ len → lacks_unsigned len off n ≡ false
enough_unsigned len off n h = ground arith

enough_signed : (len off n : ℕ) → off + n ≤ len → lacks_signed len off n ≡ false
enough_signed len off n h = ground arith

pub int-Gets :
    (z : ℤ) (ia : IArchive) (rest : List ℕ)
    → IsInt32 z
    → IsAt ia (be32 (word32 z) ++ rest)
    → Gets (ia_deserialize_int ia) z rest
unfolding ia_deserialize_int
int-Gets z ia rest w v =
    let (c, v') = copy_out-IsAt 4 ia (be32 (word32 z)) rest v refl in
    (
      _,
      rw (
        enough_unsigned ia.len ia.off 4 (omega (arith, v.inside, v.told)),
        c,
        from_be-be32 (word32 z) (word32-lt z),
        signed32-word32 z w,
      ),
      v',
    )

long-Gets :
    (big_endian : Bool) (z : ℤ) (ia : IArchive) (rest : List ℕ)
    → IsInt64 z
    → IsAt ia (be64 (word64 z) ++ rest)
    → Gets (ia_deserialize_long big_endian ia) z rest
unfolding ia_deserialize_long
long-Gets big_endian z ia rest w v =
    let (c, v') = copy_out-IsAt 8 ia (be64 (word64 z)) rest v refl in
    (
      _,
      rw (
        enough_unsigned ia.len ia.off 8 (omega (arith, v.inside, v.told)),
        c,
        from_image-htonll big_endian (word64 z) (word64-lt z),
        signed64-word64 z w,
      ),
      v',
    )

signed8_lem : (k : ℕ) → k < 128 → signed8 (k ∷ []) ≡ pos k
signed8_lem k h = ground arith

bool-Gets :
    (z : ℤ) (ia : IArchive) (rest : List ℕ)
    → IsAt ia (encode (bool z) ++ rest)
    → Gets (ia_deserialize_bool ia) (if z ==ℤ pos 0 then pos 0 else pos 1) rest
unfolding ia_deserialize_bool
bool-Gets z ia rest v = elim (Bool-cases (z ==ℤ pos 0)) [
  | inl e ↦ rw e (bit 0 (rw e at v) (omega arith))
  | inr e ↦ rw e (bit 1 (rw e at v) (omega arith))
]
  where
    bit : (k : ℕ) → IsAt ia (k ∷ rest) → k < 128 → Gets (ia_deserialize_bool ia) (pos k) rest
    bit k v small =
        let (c, v') = copy_out-IsAt 1 ia (k ∷ []) rest v refl in
        (
          _,
          rw (
            enough_signed ia.len ia.off 1 (omega (arith, v.inside, v.told)),
            c,
            signed8_lem k small,
          ),
          v',
        )

-- The two fields that are a length and that many bytes.
module _ (malloc : ℕ → Bool) (all : (n : ℕ) → n ≤ 2 ^ 31 → malloc n ≡ true) where
  null_buffer-Gets :
      (ia : IArchive) (rest : List ℕ)
      → IsAt ia (be32 (word32 (negsuc 0)) ++ rest)
      → Gets (ia_deserialize_buffer malloc ia) none rest
  unfolding ia_deserialize_buffer
  null_buffer-Gets ia rest v =
      let (ia', c, v') = int-Gets (negsuc 0) ia rest (omega arith) v in
      (ia', rw (c, ltb-eq_false (ia'.len + 0 + 1) ia'.off (omega (arith, v'.inside, v'.told))), v')

  full_buffer-Gets :
      (f : List ℕ) (ia : IArchive) (rest : List ℕ)
      → length f < 2 ^ 31
      → IsAt ia (be32 (word32 (pos (length f))) ++ f ++ rest)
      → Gets
          (ia_deserialize_buffer malloc ia)
          (some (record { len = pos (length f); buff = f }))
          rest
  unfolding ia_deserialize_buffer
  full_buffer-Gets f ia rest w v =
      let (ia', c, v') = int-Gets (pos (length f)) ia (f ++ rest) w v in
      let (c', v'') = copy_out-IsAt (length f) ia' f rest v' refl in
      let fits : ia'.off + length f ≤ ia'.len =
        omega (arith, v'.inside, v'.told, length-append f rest) in
      (
        _,
        rw (c, enough_signed ia'.len ia'.off (length f) fits, all (length f) (omega arith), c'),
        v'',
      )

  buffer-Gets :
      (l : ℤ) (f : List ℕ) (ia : IArchive) (rest : List ℕ)
      → IsInt32 l
      → (l ≡ negsuc 0) ⊎ (l ≡ pos (length f))
      → IsAt ia (encode (buffer (some (record { len = l; buff = f }))) ++ rest)
      → Gets
          (ia_deserialize_buffer malloc ia)
          (normal_buffer (some (record { len = l; buff = f })))
          rest
  buffer-Gets l f ia rest w (inl e) v = rw e (null_buffer-Gets ia rest (rw e at v))
  buffer-Gets l f ia rest w (inr e) v = rw e (full_buffer-Gets f ia rest (rw e at w) (rw e at v))

  string-Gets :
      (s : List ℕ) (ia : IArchive) (rest : List ℕ)
      → length s < 2 ^ 31
      → IsAt ia (encode (string (some s)) ++ rest)
      → Gets (ia_deserialize_string malloc ia) s rest
  unfolding ia_deserialize_string
  string-Gets s ia rest w v =
      let (ia', c, v') = int-Gets (pos (length s)) ia (s ++ rest) w v in
      let (c', v'') = copy_out-IsAt (length s) ia' s rest v' refl in
      let fits : ia'.off + length s ≤ ia'.len =
        omega (arith, v'.inside, v'.told, length-append s rest) in
      (
        _,
        rw (c, enough_signed ia'.len ia'.off (length s) fits, all (length s + 1) (omega arith), c'),
        v'',
      )

  module _ (big_endian : Bool) where
    field-Gets :
        (f : Field) (ia : IArchive) (rest : List ℕ)
        → IsField f
        → IsReadable f
        → IsAt ia (encode f ++ rest)
        → Gets (deserialize malloc big_endian (kind f) ia) (normal f) rest
    unfolding deserialize
    field-Gets (int z) ia rest w r v = let (ia', c, v') = int-Gets z ia rest w v in (ia', rw c, v')
    field-Gets (long z) ia rest w r v =
        let (ia', c, v') = long-Gets big_endian z ia rest w v in (ia', rw c, v')
    field-Gets (bool z) ia rest w r v = let (ia', c, v') = bool-Gets z ia rest v in (ia', rw c, v')
    field-Gets (buffer none) ia rest w r v =
        let (ia', c, v') = null_buffer-Gets ia rest v in (ia', rw c, v')
    field-Gets (buffer (some d)) ia rest w r v =
        let (ia', c, v') = buffer-Gets d.len d.buff ia rest w.0 w.1 v in (ia', rw c, v')
    field-Gets (string none) ia rest w r v = absurd r
    field-Gets (string (some s)) ia rest w r v =
        let (ia', c, v') = string-Gets s ia rest w v in (ia', rw c, v')

    -- With memory to be had, the functions read back, in order, the fields whose bytes are ahead,
    -- whatever follows them; null strings are not among them.
    pub deserialize_all-Gets :
        (fs : List Field) (ia : IArchive) (rest : List ℕ)
        → All IsField fs
        → All IsReadable fs
        → IsAt ia (encode_all fs ++ rest)
        → Gets (deserialize_all malloc big_endian (map kind fs) ia) (map normal fs) rest
    unfolding deserialize_all
    deserialize_all-Gets [] ia rest w r v = (ia, refl, v)
    deserialize_all-Gets (f ∷ fs) ia rest w r v =
        let (ia', c, v') = field-Gets f ia (encode_all fs ++ rest) w.0 r.0 (rw append_assoc at v) in
        let (ia'', c', v'') = deserialize_all-Gets fs ia' rest w.1 r.1 v' in (ia'', rw (c, c'), v'')
