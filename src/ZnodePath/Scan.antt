-- ===== src/ZnodePath/Scan.antt =====
-- The loop of `isValidPath` over the bytes of a path, instead of their indices.
use elephants.Base.{
  ℕ, zero, suc, ◌+◌, ◌-◌, ◌≤◌, ◌<◌, ◌≡◌, refl, Bool, true, false, not, ◌&&◌, ◌||◌, List, [], ◌∷◌,
  arith, ltb, ◌==◌, ==_iff, length, drop, Bool-cases, inl, inr, if◌then◌else◌,
}
use elephants.ZnodePath.{slash, dot, is_sequence, at, ends_here, check_from}
use elephants.ZnodePath.Components.{is_nil}

-- The loop over the rest of the path, with the two bytes before it.
abbrev pub head_or_nul : List ℕ → ℕ
head_or_nul [] = 0
head_or_nul (c ∷ s) = c

unfoldable pub ends : ℕ → List ℕ → Bool
ends flags rest = (is_nil rest && not (is_sequence flags)) || head_or_nul rest == slash

unfoldable pub step : ℕ → ℕ → ℕ → ℕ → List ℕ → Bool
unfolding ends
step flags before lastc c rest =
    if c == 0
    then false
    else if c == slash && lastc == slash
    then false
    else if c == dot && lastc == dot
    then not (before == slash && ends flags rest)
    else if c == dot
    then not (lastc == slash && ends flags rest)
    else not (ltb 0 c && ltb c 0x1f)

unfoldable pub scan : ℕ → ℕ → ℕ → List ℕ → Bool
unfolding step
scan flags before lastc [] = true
scan flags before lastc (c ∷ rest) = step flags before lastc c rest && scan flags lastc c rest

pub drop_cons : (i : ℕ) (xs : List ℕ) → i < length xs → drop i xs ≡ at xs i ∷ drop (i + 1) xs
drop_cons i [] h = absurd (omega arith)
drop_cons zero (x ∷ xs) h = refl
drop_cons (suc i) (x ∷ xs) h =
    let e : suc i + 1 ≡ suc (i + 1) = omega arith in rw e (drop_cons i xs (omega arith))

pub drop-length : (i : ℕ) (xs : List ℕ) → i ≡ length xs → drop i xs ≡ []
drop-length zero [] h = refl
drop-length zero (x ∷ xs) h = absurd (omega arith)
drop-length (suc i) [] h = absurd (omega arith)
drop-length (suc i) (x ∷ xs) h = drop-length i xs (omega arith)

pub at-length : (i : ℕ) (xs : List ℕ) → length xs ≤ i → at xs i ≡ 0
at-length i [] h = refl
at-length zero (x ∷ xs) h = absurd (omega arith)
at-length (suc i) (x ∷ xs) h = at-length i xs (omega arith)

pub ends-drop :
    (flags i : ℕ) (path : List ℕ)
    → i < length path
    → ends flags (drop (i + 1) path) ≡ ends_here path flags i
unfolding ends
ends-drop flags i path h = elim (Bool-cases (i + 1 == length path)) [
  | inl last ↦
      let e = (==_iff (i + 1) (length path)).0 last in
      rw (drop-length (i + 1) path e, at-length (i + 1) path (omega arith), last)
  | inr more ↦ rw (drop_cons (i + 1) path (ground arith), more)
]

pub check_from-scan :
    (path : List ℕ) (flags rounds i : ℕ)
    → 1 ≤ i
    → i + rounds ≡ length path
    → check_from path flags rounds i (at path (i - 1))
      ≡ scan flags (at path (i - 2)) (at path (i - 1)) (drop i path)
unfolding check_from scan
check_from-scan path flags zero i p e = rw (drop-length i path (omega arith))
check_from-scan path flags (suc rounds) i p e =
    let back : (i + 1) - 1 ≡ i = omega arith in
    let back' : (i + 1) - 2 ≡ i - 1 = omega arith in
    let ih =
      rw (back, back') at (check_from-scan path flags rounds (i + 1) (omega arith) (omega arith)) in
    rw (drop_cons i path (omega arith), ← ends-drop flags i path (omega arith), ih)
