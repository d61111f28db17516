-- ===== src/Wire/OArchive/Bounds.antt =====
-- The doubling loop of `resize_buffer`, and the invariant of an output archive.
use elephants.Base.{
  ℕ, zero, suc, ◌+◌, ◌*◌, ◌^◌, ◌≤◌, ◌<◌, ◌≡◌, ◌⊎◌, refl, ap, Bool, true, false, none, some, List,
  ◌++◌, arith, ltb, length, take, length-append, take_all, Bool-cases, ltb→lt, ltb-eq_false, le→leb,
  inl, inr,
}
use native.Mathlib.Nat.{pow-suc}
use elephants.Wire.OArchive.{OArchive, Run, ret, ok, enomem, ◌>>=◌, int_max, grow, write, reserve}

-- From a positive length, for a new length of at most 2 ^ 30 that so many doublings reach, the
-- loop ends with a length that reaches the one asked for, and that is the old one or less than
-- twice what was asked for; nothing overflows.
pub grow_lem :
    (fuel len newlen : ℕ)
    → 0 < len
    → len ≤ int_max
    → newlen ≤ 2 ^ 30
    → newlen ≤ len * 2 ^ fuel
    → (l : ℕ) × (grow (suc fuel) len newlen ≡ some l)
      × (newlen ≤ l)
      × (len ≤ l)
      × ((l ≡ len) ⊎ (l < 2 * newlen))
      × (l ≤ int_max)
unfolding grow
grow_lem zero len newlen p m s h =
    (len, rw (ltb-eq_false len newlen (omega arith)), omega arith, omega arith, inl refl, m)
grow_lem (suc fuel) len newlen p m s h = elim (Bool-cases (ltb len newlen)) [
  | inl more ↦
      let lt = ltb→lt len newlen more in
      let (l, e, a, b, c, g) =
        grow_lem fuel (len * 2) newlen (omega arith) (omega arith) s
          (omega (arith, ap (λ (t : ℕ). len * t) (pow-suc 2 fuel))) in
      (
        l,
        rw (more, ltb-eq_false int_max (len * 2) (omega arith)) e,
        a,
        omega arith,
        inr (omega arith),
        g,
      )
  | inr done ↦ let le : newlen ≤ len = ground arith in (len, rw done, le, omega arith, inl refl, m)
]

-- An archive that holds the bytes `b`. Its length in memory is bounded by what it holds.
pub record IsOpen (oa : OArchive) (b : List ℕ) : Type 0 where
  pub holds : oa.buffer ≡ some b
  pub at : oa.off ≡ length b
  pub within : oa.off ≤ oa.len
  pub least : 128 ≤ oa.len
  pub bounded : oa.len ≤ 128 + 4 * oa.off

-- How a call that appends `bytes` may end: it has appended exactly those, or `realloc` has failed.
pub data Appended (realloc : ℕ → Bool) (b bytes : List ℕ) : Run OArchive → Type 0 where
  done : (oa : OArchive) → IsOpen oa (b ++ bytes) → Appended realloc b bytes (ret ok oa)
  failed :
      (n : ℕ) (oa : OArchive)
      → n ≤ int_max
      → realloc n ≡ false
      → oa.buffer ≡ none
      → Appended realloc b bytes (ret enomem oa)

write-IsOpen :
    (oa : OArchive) (b bytes : List ℕ)
    → oa.buffer ≡ some b
    → oa.off ≡ length b
    → 128 ≤ oa.len
    → oa.off + length bytes ≤ oa.len
    → oa.len ≤ 128 + 4 * (oa.off + length bytes)
    → (oa' : OArchive) × (write bytes oa ≡ ret ok oa') × IsOpen oa' (b ++ bytes)
unfolding write
write-IsOpen oa b bytes holds at least fits bounded = (
  record oa { off = oa.off + length bytes; buffer = some (take oa.off b ++ bytes) },
  rw (holds, le→leb (oa.off + length bytes) oa.len fits),
  record {
    holds = rw (take_all oa.off b (omega arith));
    at = omega (arith, length-append b bytes);
    within = fits;
    least = least;
    bounded = bounded;
  },
)

-- `reserve` and `write` together, with either of the two tests that the functions make.
pub reserve-write :
    (realloc : ℕ → Bool) (lacks : Bool) (n : ℕ) (oa : OArchive) (b bytes : List ℕ)
    → IsOpen oa b
    → length bytes ≡ n
    → 128 + 5 * (length b + n) ≤ 2 ^ 30
    → (lacks ≡ true → oa.len < oa.off + n)
    → (lacks ≡ false → oa.off + n ≤ oa.len)
    → Appended realloc b bytes (reserve realloc lacks n oa >>= write bytes)
unfolding reserve
reserve-write realloc false n oa b bytes v e s t f =
    let (oa', run, v') =
      write-IsOpen oa b bytes v.holds v.at v.least (rw e (f refl)) (omega (arith, v.bounded)) in
    rw run (done oa' v')
reserve-write realloc true n oa b bytes v e s t f =
    let lt = t refl in
    let (l, run, a, c, d, g) =
      grow_lem 31 oa.len (oa.len + n) (omega (arith, v.least)) (omega (arith, v.at, v.bounded))
        (omega (arith, v.at, v.bounded)) (omega (arith, v.at, v.bounded, v.least)) in
    rw (ltb-eq_false int_max (oa.len + n) (omega (arith, v.at, v.bounded)), run)
      (elim (Bool-cases (realloc l)) [
        | inl good ↦
            let (oa', r, v') =
              write-IsOpen (record oa { len = l }) b bytes v.holds v.at (omega (arith, v.least))
                (omega arith) (omega (arith, v.bounded)) in
            rw (good, r) (done oa' v')
        | inr bad ↦ rw bad (failed l _ g bad refl)
      ])

-- When there is no room and `realloc` fails, the buffer is lost.
pub reserve-fails :
    (realloc : ℕ → Bool) (n : ℕ) (oa : OArchive) (b : List ℕ)
    → IsOpen oa b
    → 128 + 5 * (length b + n) ≤ 2 ^ 30
    → ((k : ℕ) → realloc k ≡ false)
    → (oa' : OArchive) × (reserve realloc true n oa ≡ ret enomem oa') × (oa'.buffer ≡ none)
unfolding reserve
reserve-fails realloc n oa b v s bad =
    let (l, run, a, c, d, g) =
      grow_lem 31 oa.len (oa.len + n) (omega (arith, v.least)) (omega (arith, v.at, v.bounded))
        (omega (arith, v.at, v.bounded)) (omega (arith, v.at, v.bounded, v.least)) in
    (
      record oa { len = l; buffer = none },
      rw (ltb-eq_false int_max (oa.len + n) (omega (arith, v.at, v.bounded)), run, bad l),
      refl,
    )
