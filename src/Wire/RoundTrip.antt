-- ===== src/Wire/RoundTrip.antt =====
-- recordio.c, both directions: a packet that an output archive has written, read by an input
-- archive; and what becomes of a null string.
use elephants.Base.{
  ℕ, ◌+◌, ◌^◌, ◌≤◌, ◌<◌, ◌≡◌, refl, sym, ◌∙◌, Bool, true, false, none, some, List, [], ◌∷◌, ◌++◌,
  map, append-nil, negsuc, arith, length, ltb-eq_false,
}
use mathlib.Core.Bool.{false≢true}
use elephants.Wire.OArchive.{
  OArchive, Run, ret, ok, einval, int_max, create_buffer_oarchive, get_buffer, get_buffer_len,
  enomem, lacks_unsigned, oa_serialize_string,
}
use elephants.Wire.OArchive.Bounds.{reserve-fails, IsOpen, Appended, done, failed}
use elephants.Wire.OArchive.Encode.{
  Field, IsField, All, Reports, Fits, encode_all, serialize_all, serialize_all-Appended, string,
}
use elephants.Wire.IArchive.{
  IArchive, got, failed as refused, create_buffer_iarchive, ia_deserialize_string,
}
use elephants.Wire.IArchive.Decode.{
  IsReadable, IsAt, kind, normal, deserialize_all, deserialize_all-Gets, int-Gets,
}

-- A new archive is open, and empty.
pub create_buffer_oarchive-IsOpen :
    (oa : OArchive) → create_buffer_oarchive true true true ≡ some oa → IsOpen oa []
unfolding create_buffer_oarchive
create_buffer_oarchive-IsOpen oa e = ground arith

-- A new archive takes the fields `fs`, null strings excepted, if their bytes fit and memory can be
-- had; an input archive over the buffer and the length that it then gives reads the same fields
-- back, up to `normal`, and ends at the end of that memory. The two hosts may differ in the order
-- of their bytes.
pub deserialize_all-serialize_all :
    (malloc realloc : ℕ → Bool) (writer reader : Bool) (fs : List Field) (oa : OArchive)
    → ((n : ℕ) → n ≤ 2 ^ 31 → malloc n ≡ true)
    → ((n : ℕ) → n ≤ int_max → realloc n ≡ true)
    → All IsField fs
    → All IsReadable fs
    → Fits [] (encode_all fs)
    → create_buffer_oarchive true true true ≡ some oa
    → (oa' : OArchive) × (bytes : List ℕ) × (ia : IArchive) × (ia' : IArchive) × (serialize_all
          realloc writer fs oa
        ≡ ret ok oa')
      × (get_buffer oa' ≡ some bytes)
      × (create_buffer_iarchive true true bytes (get_buffer_len oa') ≡ some ia)
      × (deserialize_all malloc reader (map kind fs) ia ≡ got (map normal fs) ia')
      × (ia'.off ≡ length ia'.buffer)
unfolding get_buffer get_buffer_len create_buffer_iarchive
deserialize_all-serialize_all malloc realloc writer reader fs oa hm hr w r s e = finish _ refl (
    serialize_all-Appended realloc writer fs oa [] (create_buffer_oarchive-IsOpen oa e) w
      (reports fs) s)
  where
    reports : (gs : List Field) → All (Reports realloc) gs
    reports [] = tt
    reports (string none ∷ gs) = (hr, reports gs)
    reports (string (some c) ∷ gs) = (tt, reports gs)
    reports (Field.int z ∷ gs) = (tt, reports gs)
    reports (Field.long z ∷ gs) = (tt, reports gs)
    reports (Field.bool z ∷ gs) = (tt, reports gs)
    reports (Field.buffer d ∷ gs) = (tt, reports gs)

    finish :
        (run : Run OArchive)
        → serialize_all realloc writer fs oa ≡ run
        → Appended realloc [] (encode_all fs) run
        → (oa' : OArchive) × (bytes : List ℕ) × (ia : IArchive) × (ia' : IArchive) × (serialize_all
              realloc writer fs oa
            ≡ ret ok oa')
          × (oa'.buffer ≡ some bytes)
          × (some (record { len = oa'.off; off = 0; buffer = bytes }) ≡ some ia)
          × (deserialize_all malloc reader (map kind fs) ia ≡ got (map normal fs) ia')
          × (ia'.off ≡ length ia'.buffer)
    finish _ p (failed n oa' m bad h) = absurd (false≢true (sym bad ∙ hr n m))
    finish _ p (done oa' v) =
        let ia : IArchive = record { len = oa'.off; off = 0; buffer = encode_all fs } in
        let (ia', run, v') = deserialize_all-Gets malloc hm reader fs ia [] w r (record {
          ahead = sym (append-nil _);
          inside = rw append-nil (omega arith);
          told = omega (arith, v.at);
        }) in
        (oa', encode_all fs, ia, ia', p, v.holds, refl, run, omega (arith, v'.inside))

-- A null string is written as the length -1, and no reader takes that back: it is -EINVAL.
pub ia_deserialize_string-null :
    (malloc : ℕ → Bool) (ia : IArchive) (rest : List ℕ)
    → IsAt ia (encode_all (string none ∷ []) ++ rest)
    → (ia' : IArchive) × (ia_deserialize_string malloc ia ≡ refused einval ia') × IsAt ia' rest
unfolding ia_deserialize_string
ia_deserialize_string-null malloc ia rest v =
    let (ia', run, v') = int-Gets (negsuc 0) ia rest (omega arith) v in
    (ia', rw (run, ltb-eq_false (ia'.len + 0 + 1) ia'.off (omega (arith, v'.inside, v'.told))), v')

-- Where there is no room for its length and `realloc` fails, `oa_serialize_string` returns 0 for a
-- null string all the same, and leaves an archive without a buffer; for an empty string in the same
-- place it returns -ENOMEM.
pub oa_serialize_string-hides_failure :
    (realloc : ℕ → Bool) (oa : OArchive) (b : List ℕ)
    → IsOpen oa b
    → Fits b (encode_all (string none ∷ []))
    → oa.len < oa.off + 4
    → ((n : ℕ) → realloc n ≡ false)
    → (oa' : OArchive) × (oa_serialize_string realloc oa none ≡ ret ok oa')
      × (oa_serialize_string realloc oa (some []) ≡ ret enomem oa')
      × (get_buffer oa' ≡ none)
unfolding oa_serialize_string get_buffer
oa_serialize_string-hides_failure realloc oa b v s full bad =
    let (oa', run, lost) = reserve-fails realloc 4 oa b v s bad in
    let short : lacks_unsigned oa.len oa.off 4 ≡ true = ground (arith, v.within) in
    (oa', rw (short, run), rw (short, run), lost)
