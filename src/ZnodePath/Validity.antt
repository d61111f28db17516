-- ===== src/ZnodePath/Validity.antt =====
-- `isValidPath` against a description of a valid path by its components.
use elephants.Base.{
  ℕ, suc, ◌-◌, ◌≡◌, refl, Bool, true, false, not, ◌&&◌, ◌||◌, some, List, [], ◌∷◌, arith, ◌==◌,
  ==_iff, length, Bool-cases, inl, inr, if◌then◌else◌,
}
use elephants.ZnodePath.{slash, dot, is_sequence, at, is_valid_path}
use elephants.ZnodePath.Components.{
  is_name_byte, all_name_bytes, is_dots, is_nil, is_name, components, all_names,
}
use elephants.ZnodePath.Scan.{ends, step, scan, check_from-scan}

-- The part of the current component that is behind, last byte first, gives the two bytes before.
abbrev lastc_of : List ℕ → ℕ
lastc_of [] = slash
lastc_of (c ∷ cur) = c

abbrev before_of : ℕ → List ℕ → ℕ
before_of other [] = other
before_of other (c ∷ []) = slash
before_of other (c ∷ d ∷ cur) = d

-- What the test before the loop adds: a trailing slash is for sequence nodes only.
abbrev no_trailing : ℕ → ℕ → List ℕ → Bool
no_trailing flags lastc [] = not (lastc == slash && not (is_sequence flags))
no_trailing flags lastc (c ∷ rest) = no_trailing flags c rest

before_of-cons : (other c : ℕ) (cur : List ℕ) → before_of other (c ∷ cur) ≡ lastc_of cur
before_of-cons other c [] = refl
before_of-cons other c (d ∷ cur) = refl

all_names-cons :
    (flags : ℕ) (s cur rest : List ℕ)
    → all_names flags (s ∷ components cur rest)
      ≡ (is_name s && all_names flags (components cur rest))
unfolding components
all_names-cons flags s cur [] = refl
all_names-cons flags s cur (c ∷ rest) = elim (Bool-cases (c == slash)) [
  | inl e ↦ rw (e, components) refl
  | inr e ↦ rw (e, components) (all_names-cons flags s (c ∷ cur) rest)
]

components-slash : (cur rest : List ℕ) → components cur (slash ∷ rest) ≡ cur ∷ components [] rest
unfolding components
components-slash cur rest = refl

components-byte :
    (c : ℕ) (cur rest : List ℕ)
    → (c == slash) ≡ false
    → components cur (c ∷ rest) ≡ components (c ∷ cur) rest
unfolding components
components-byte c cur rest e = rw (e, components)

-- A component with a bad byte, and one that is "." or ".." and ends here, make the path invalid.
bad_bytes :
    (flags : ℕ) (cur rest : List ℕ)
    → all_name_bytes cur ≡ false
    → all_names flags (components cur rest) ≡ false
bad_bytes flags cur [] h = unfold components in ground arith
bad_bytes flags cur (c ∷ rest) h = elim (Bool-cases (c == slash)) [
  | inl e ↦
      rw ((==_iff c slash).0 e, components-slash cur rest, all_names-cons flags cur [] rest)
        (ground arith)
  | inr e ↦ rw (components-byte c cur rest e) (bad_bytes flags (c ∷ cur) rest (ground arith))
]

dots_end :
    (flags : ℕ) (cur rest : List ℕ)
    → is_dots cur ≡ true
    → ends flags rest ≡ true
    → all_names flags (components cur rest) ≡ false
unfolding ends
dots_end flags cur [] h e = unfold components in ground arith
dots_end flags cur (c ∷ rest) h e =
    rw ((==_iff c slash).0 e, components-slash cur rest, all_names-cons flags cur [] rest)
      (ground arith)

module _ (flags : ℕ) (rest : List ℕ) where
  step-slash : (before lastc : ℕ) → step flags before lastc slash rest ≡ not (lastc == slash)
  unfolding step
  step-slash before lastc = ground arith

  step-dot :
      (other : ℕ) (cur : List ℕ)
      → all_name_bytes cur ≡ true
      → step flags (before_of other cur) (lastc_of cur) dot rest
        ≡ not (is_dots (dot ∷ cur) && ends flags rest)
  unfolding step
  step-dot other [] h = ground arith
  step-dot other (c ∷ []) h = ground arith
  step-dot other (c ∷ d ∷ []) h = ground arith
  step-dot other (c ∷ d ∷ e ∷ cur) h = ground arith

  step-byte :
      (before lastc c : ℕ)
      → (c == slash) ≡ false
      → (c == dot) ≡ false
      → step flags before lastc c rest ≡ is_name_byte c
  unfolding step
  step-byte before lastc c h e = ground arith

is_dots-byte : (c : ℕ) (cur : List ℕ) → (c == dot) ≡ false → is_dots (c ∷ cur) ≡ false
is_dots-byte c [] h = ground arith
is_dots-byte c (d ∷ []) h = ground arith
is_dots-byte c (d ∷ e ∷ cur) h = refl

and_false : (a b : Bool) → (a && (false && b)) ≡ false
and_false true b = refl
and_false false b = refl

and-eq_true : (a b : Bool) → (a && b) ≡ true → (a ≡ true) × (b ≡ true)
and-eq_true true b h = (refl, h)
and-eq_true false b h = ground arith

and-eq_false : (a b : Bool) → (a && b) ≡ false → b ≡ true → a ≡ false
and-eq_false a b h e = ground arith

byte-ne-dot : (c : ℕ) → is_name_byte c ≡ false → (c == dot) ≡ false
byte-ne-dot c h = ground arith

-- What the loop says from the middle of a path on, with the component behind.
abbrev Scans : ℕ → ℕ → List ℕ → List ℕ → Type 0
Scans flags other rest cur =
    (no_trailing flags (lastc_of cur) rest && scan flags (before_of other cur) (lastc_of cur) rest)
    ≡ all_names flags (components cur rest)

slash_case :
    (flags : ℕ) (rest cur : List ℕ)
    → all_name_bytes cur ≡ true
    → is_dots cur ≡ false
    → Scans flags (lastc_of cur) rest []
    → (no_trailing flags slash rest
        && (not (lastc_of cur == slash) && scan flags (lastc_of cur) slash rest))
      ≡ (is_name cur && all_names flags (components [] rest))
slash_case flags rest [] plain dots ih =
    and_false (no_trailing flags slash rest) (scan flags slash slash rest)
slash_case flags rest (d ∷ cur) plain dots ih = ground arith

scan_lem :
    (flags other : ℕ) (rest cur : List ℕ)
    → all_name_bytes cur ≡ true
    → (ends flags rest ≡ true → is_dots cur ≡ false)
    → Scans flags other rest cur
unfolding scan
scan_lem flags other [] [] plain dots = unfold components ends in ground arith
scan_lem flags other [] (c ∷ cur) plain dots = unfold components ends in ground arith
scan_lem flags other (c ∷ rest) cur plain dots = elim (Bool-cases (c == slash)) [
  | inl e ↦
      let same = (==_iff c slash).0 e in
      let ended : ends flags (c ∷ rest) ≡ true = unfold ends in rw e in
      rw (same, components-slash cur rest, all_names-cons flags cur [] rest, step-slash)
        (slash_case flags rest cur plain (dots ended)
          (scan_lem flags (lastc_of cur) rest [] refl (λ _. refl)))
  | inr e ↦ rw (components-byte c cur rest e) (elim (Bool-cases (is_name_byte c)) [
    | inr bad ↦ rw (
      step-byte flags rest _ _ c e (byte-ne-dot c bad),
      bad,
      and_false (no_trailing flags c rest) _,
      bad_bytes flags (c ∷ cur) rest (rw bad),
    )
    | inl good ↦ elim (Bool-cases (c == dot)) [
      | inr plain' ↦
          rw (step-byte flags rest _ _ c e plain', good)
            (rw before_of-cons at (
              scan_lem flags other rest (c ∷ cur) (rw (good, plain))
                (λ _. is_dots-byte c cur plain')))
      | inl is_dot ↦
          rw ((==_iff c dot).0 is_dot, step-dot flags rest other cur plain)
            (elim (Bool-cases (is_dots (dot ∷ cur) && ends flags rest)) [
              | inl both ↦
                  let (d, n) = and-eq_true _ _ both in
                  rw (
                    both,
                    and_false (no_trailing flags dot rest) _,
                    dots_end flags (dot ∷ cur) rest d n,
                  )
              | inr not_both ↦ rw not_both (
                  rw before_of-cons at
                    (scan_lem flags other rest (dot ∷ cur) plain (and-eq_false _ _ not_both)))
            ])
    ]
  ])
]

last-no_trailing :
    (flags lastc : ℕ) (rest : List ℕ)
    → no_trailing flags lastc rest
      ≡ not (at (lastc ∷ rest) (length rest) == slash && not (is_sequence flags))
last-no_trailing flags lastc [] = refl
last-no_trailing flags lastc (c ∷ rest) = last-no_trailing flags c rest

if_not : (a b : Bool) → (if a then false else b) ≡ (not a && b)
if_not true b = refl
if_not false b = refl

-- A path that begins with a slash is valid exactly when it is the root, or all its components are
-- names: not empty, not "." or "..", and without control characters below 0x1f. For a sequence
-- node the last component may be any run of such bytes, but for slashes.
pub is_valid_path-all_names :
    (rest : List ℕ) (flags : ℕ)
    → is_valid_path (some (slash ∷ rest)) flags
      ≡ (is_nil rest || all_names flags (components [] rest))
unfolding is_valid_path
is_valid_path-all_names [] flags = refl
is_valid_path-all_names (c ∷ rest) flags =
    let path = slash ∷ c ∷ rest in
    let e0 : (suc (suc (length rest)) == 0) ≡ false = ground arith in
    let e1 : (suc (suc (length rest)) == 1) ≡ false = ground arith in
    let e2 : suc (suc (length rest)) - 1 ≡ suc (length rest) = omega arith in
    let loop = check_from-scan path flags (suc (length rest)) 1 (omega arith) (omega arith) in
    let whole = scan_lem flags slash (c ∷ rest) [] refl (λ _. refl) in
    rw (e0, e1, e2, loop, ← whole, last-no_trailing flags slash (c ∷ rest))
      (if_not (at path (suc (length rest)) == slash && not (is_sequence flags))
        (scan flags slash slash (c ∷ rest)))
