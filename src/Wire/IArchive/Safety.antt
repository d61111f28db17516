-- ===== src/Wire/IArchive/Safety.antt =====
-- The functions of an input archive on bytes that anyone may have sent.
use elephants.Base.{
  sym, ◌∙◌, ap, ℕ, ◌+◌, ◌^◌, ◌≤◌, ◌≡◌, ap, Bool, true, false, List, [], ◌∷◌, ℤ, negsuc, ◌==ℤ◌,
  is_neg, ltb, arith, length, le→leb, Bool-cases, inl, inr,
}
use mathlib.Core.Bool.{false≢true}
use native.Mathlib.Nat.{le_refl}
use elephants.Wire.Word.{signed32, from_be}
use elephants.Wire.OArchive.{lacks_unsigned, lacks_signed}
use elephants.Wire.IArchive.{
  IArchive, Read, got, failed, overread, ◌>>=◌, copy_out, ia_deserialize_int, ia_deserialize_long,
  ia_deserialize_bool, ia_deserialize_buffer, ia_deserialize_string, exceeds, size_of,
}
use elephants.Wire.IArchive.Decode.{
  Kind, int_kind, long_kind, bool_kind, buffer_kind, string_kind, deserialize, deserialize_all,
}

-- The position is inside the memory behind the archive.
pub record InBounds (len : ℕ) (memory : List ℕ) (ia : IArchive) : Type 0 where
  pub same_len : ia.len ≡ len
  pub same_buffer : ia.buffer ≡ memory
  pub before_end : ia.off ≤ len

-- A call has read only inside that memory, and leaves the position inside it.
abbrev pub IsSafe {ℓ} : {A : Type ℓ} → ℕ → List ℕ → Read A → Type 0
IsSafe len memory (got a ia) = InBounds len memory ia
IsSafe len memory (failed s ia) = InBounds len memory ia
IsSafe len memory overread = ⊥

module _ (len : ℕ) (memory : List ℕ) (fits : len ≤ length memory) where
  >>=-IsSafe {ℓ κ} :
      {A : Type ℓ} {B : Type κ} (r : Read A) (f : A → IArchive → Read B)
      → IsSafe len memory r
      → ((a : A) (ia : IArchive) → InBounds len memory ia → IsSafe len memory (f a ia))
      → IsSafe len memory (r >>= f)
  >>=-IsSafe (got a ia) f s k = k a ia s
  >>=-IsSafe (failed e ia) f s k = s
  >>=-IsSafe overread f s k = s

  copy_out-IsSafe :
      (n : ℕ) (ia : IArchive)
      → InBounds len memory ia
      → ia.off + n ≤ len
      → IsSafe len memory (copy_out n ia)
  unfolding copy_out
  copy_out-IsSafe n ia v h =
      rw (le→leb (ia.off + n) (length ia.buffer) (omega (arith, ap (length {A = ℕ}) v.same_buffer)))
        (record { same_len = v.same_len; same_buffer = v.same_buffer; before_end = h })

  ia_deserialize_int-IsSafe :
      (ia : IArchive) → InBounds len memory ia → IsSafe len memory (ia_deserialize_int ia)
  unfolding ia_deserialize_int
  ia_deserialize_int-IsSafe ia v = elim (Bool-cases (lacks_unsigned ia.len ia.off 4)) [
    | inl short ↦ rw short v
    | inr enough ↦ rw enough (
        >>=-IsSafe (copy_out 4 ia) _
          (copy_out-IsSafe 4 ia v (ground (arith, v.same_len, v.before_end))) λ a ia' v'. v')
  ]

  ia_deserialize_long-IsSafe :
      (big_endian : Bool) (ia : IArchive)
      → InBounds len memory ia
      → IsSafe len memory (ia_deserialize_long big_endian ia)
  unfolding ia_deserialize_long
  ia_deserialize_long-IsSafe big_endian ia v = elim (Bool-cases (lacks_unsigned ia.len ia.off 8)) [
    | inl short ↦ rw short v
    | inr enough ↦ rw enough (
        >>=-IsSafe (copy_out 8 ia) _
          (copy_out-IsSafe 8 ia v (ground (arith, v.same_len, v.before_end))) λ a ia' v'. v')
  ]

  ia_deserialize_bool-IsSafe :
      (ia : IArchive) → InBounds len memory ia → IsSafe len memory (ia_deserialize_bool ia)
  unfolding ia_deserialize_bool
  ia_deserialize_bool-IsSafe ia v = elim (Bool-cases (lacks_signed ia.len ia.off 1)) [
    | inl short ↦ rw short v
    | inr enough ↦ rw enough (
        >>=-IsSafe (copy_out 1 ia) _
          (copy_out-IsSafe 1 ia v (ground (arith, v.same_len, v.before_end))) λ a ia' v'. v')
  ]

  -- A length is read first, then what depends on it.
  length_then-IsSafe {ℓ} :
      {B : Type ℓ} (body : ℤ → IArchive → Read B) (ia : IArchive)
      → InBounds len memory ia
      → ((w : ℕ) (ia' : IArchive)
          → InBounds len memory ia'
          → IsSafe len memory (body (signed32 w) ia'))
      → IsSafe len memory (ia_deserialize_int ia >>= body)
  unfolding ia_deserialize_int
  length_then-IsSafe body ia v k = elim (Bool-cases (lacks_unsigned ia.len ia.off 4)) [
    | inl short ↦ rw short v
    | inr enough ↦
        rw enough (
          after (copy_out 4 ia) (copy_out-IsSafe 4 ia v (ground (arith, v.same_len, v.before_end))))
  ]
    where
      after :
          (r : Read (List ℕ))
          → IsSafe len memory r
          → IsSafe len memory (r >>= (λ bytes ia'. got (signed32 (from_be bytes)) ia') >>= body)
      after (got bytes ia') s = k (from_be bytes) ia' s
      after (failed e ia') s = s
      after overread s = s

  module _ (malloc : ℕ → Bool) (refuses : (n : ℕ) → 2 ^ 63 ≤ n → malloc n ≡ false) where
    -- A length that passes the tests fits what is left: a negative one is refused by `malloc`.
    length-fits :
        (w l o k : ℕ)
        → exceeds l o (signed32 w) ≡ false
        → size_of (signed32 w) ≤ k
        → malloc k ≡ true
        → o + size_of (signed32 w) ≤ l
    length-fits w l o k e h m = elim (Bool-cases (ltb w (2 ^ 31))) [
      | inl small ↦ rw small (let e' = rw small at e in ground arith)
      | inr big ↦
          let h' = rw big at h in absurd (false≢true (sym (refuses k (omega (arith, h'))) ∙ m))
    ]

    ia_deserialize_buffer-IsSafe :
        (ia : IArchive)
        → InBounds len memory ia
        → IsSafe len memory (ia_deserialize_buffer malloc ia)
    unfolding ia_deserialize_buffer
    ia_deserialize_buffer-IsSafe ia v = length_then-IsSafe _ ia v λ w ia' v'.
        elim (Bool-cases (exceeds ia'.len ia'.off (signed32 w))) [
          | inl long ↦ rw long v'
          | inr fit ↦ rw fit (elim (Bool-cases (signed32 w ==ℤ negsuc 0)) [
            | inl null ↦ rw null v'
            | inr data' ↦ rw data' (elim (Bool-cases (malloc (size_of (signed32 w)))) [
              | inl good ↦ rw good (
                  >>=-IsSafe (copy_out (size_of (signed32 w)) ia') _
                    (copy_out-IsSafe (size_of (signed32 w)) ia' v'
                      (rw v'.same_len at (length-fits w ia'.len ia'.off _ fit (le_refl _) good)))
                    λ bytes ia'' v''. v'')
              | inr bad ↦ rw bad v'
            ])
          ])
        ]

    ia_deserialize_string-IsSafe :
        (ia : IArchive)
        → InBounds len memory ia
        → IsSafe len memory (ia_deserialize_string malloc ia)
    unfolding ia_deserialize_string
    ia_deserialize_string-IsSafe ia v = length_then-IsSafe _ ia v λ w ia' v'.
        elim (Bool-cases (exceeds ia'.len ia'.off (signed32 w))) [
          | inl long ↦ rw long v'
          | inr fit ↦ rw fit (elim (Bool-cases (is_neg (signed32 w))) [
            | inl negative ↦ rw negative v'
            | inr data' ↦ rw data' (elim (Bool-cases (malloc (size_of (signed32 w) + 1))) [
              | inl good ↦ rw good (
                  copy_out-IsSafe (size_of (signed32 w)) ia' v'
                    (rw v'.same_len at (length-fits w ia'.len ia'.off _ fit (omega arith) good)))
              | inr bad ↦ rw bad v'
            ])
          ])
        ]

    deserialize-IsSafe :
        (big_endian : Bool) (k : Kind) (ia : IArchive)
        → InBounds len memory ia
        → IsSafe len memory (deserialize malloc big_endian k ia)
    unfolding deserialize
    deserialize-IsSafe big_endian int_kind ia v =
        >>=-IsSafe _ _ (ia_deserialize_int-IsSafe ia v) λ a ia' v'. v'
    deserialize-IsSafe big_endian long_kind ia v =
        >>=-IsSafe _ _ (ia_deserialize_long-IsSafe big_endian ia v) λ a ia' v'. v'
    deserialize-IsSafe big_endian bool_kind ia v =
        >>=-IsSafe _ _ (ia_deserialize_bool-IsSafe ia v) λ a ia' v'. v'
    deserialize-IsSafe big_endian buffer_kind ia v =
        >>=-IsSafe _ _ (ia_deserialize_buffer-IsSafe ia v) λ a ia' v'. v'
    deserialize-IsSafe big_endian string_kind ia v =
        >>=-IsSafe _ _ (ia_deserialize_string-IsSafe ia v) λ a ia' v'. v'

    -- Whatever bytes are in the memory behind an archive whose length does not exceed it, and
    -- whatever fields are read from them: no call reads out of bounds, and after a value or an
    -- error code alike the position is inside the length and the memory is the same. `malloc` is
    -- taken to refuse every size from 2 ^ 63 on.
    pub deserialize_all-IsSafe :
        (big_endian : Bool) (ks : List Kind) (ia : IArchive)
        → InBounds len memory ia
        → IsSafe len memory (deserialize_all malloc big_endian ks ia)
    unfolding deserialize_all
    deserialize_all-IsSafe big_endian [] ia v = v
    deserialize_all-IsSafe big_endian (k ∷ ks) ia v =
        >>=-IsSafe (deserialize malloc big_endian k ia) _ (deserialize-IsSafe big_endian k ia v)
          λ f ia' v'.
            >>=-IsSafe (deserialize_all malloc big_endian ks ia') _
              (deserialize_all-IsSafe big_endian ks ia' v') λ fs ia'' v''. v''
