-- ===== src/Frame/Cells/Chain.antt =====
-- The linked cells of a queue stand for a list.
use elephants.Base.{
  ℕ, ◌≡◌, refl, ◌∙◌, Bool, true, false, ◌||◌, List, [], ◌∷◌, ◌++◌, ◌==◌, arith, Bool-cases, inl,
  inr,
}
use elephants.Frame.{Packet}
use elephants.Frame.Cells.{Store, set_next, State}

abbrev pub is_among : ℕ → List ℕ → Bool
is_among x [] = false
is_among x (a ∷ addrs) = x == a || is_among x addrs

-- From `p` on the cells stand at the addresses, each different from NULL and from the later ones,
-- and the last one is `last`.
abbrev pub IsChain : Store → ℕ → ℕ → List ℕ → Type 0
IsChain s p last [] = (p ≡ 0) × (last ≡ 0)
IsChain s p last (a ∷ []) = (p ≡ a) × ((a == 0) ≡ false) × (last ≡ a) × ((s a).next ≡ 0)
IsChain s p last (a ∷ b ∷ addrs) =
    (p ≡ a)
    × ((a == 0) ≡ false)
    × (is_among a (b ∷ addrs) ≡ false)
    × IsChain s (s a).next last (b ∷ addrs)

abbrev pub packets_at : Store → List ℕ → List Packet
packets_at s [] = []
packets_at s (a ∷ addrs) = (s a).packet ∷ packets_at s addrs

-- A queue of cells stands for a list of packets.
pub record Refines (state : State) (addrs : List ℕ) (list : List Packet) : Type 0 where
  pub chain : IsChain state.0 state.1.head state.1.last addrs
  pub contents : packets_at state.0 addrs ≡ list

pub packet-set_next : (s : Store) (x n y : ℕ) → (set_next s x n y).packet ≡ (s y).packet
packet-set_next s x n y = elim (Bool-cases (y == x)) [ inl e ↦ rw e | inr e ↦ rw e ]

pub packets_at-set_next :
    (s : Store) (x n : ℕ) (addrs : List ℕ) → packets_at (set_next s x n) addrs ≡ packets_at s addrs
packets_at-set_next s x n [] = refl
packets_at-set_next s x n (a ∷ addrs) =
    rw (packet-set_next s x n a, packets_at-set_next s x n addrs)

pub same_self : (a : ℕ) → (a == a) ≡ true
same_self a = ground arith

differ : (a b : ℕ) → (a == b) ≡ false → (b == a) ≡ false
differ a b h = ground (arith, h)

same : (a b : ℕ) → (a == b) ≡ true → a ≡ b
same a b h = ground (arith, h)

not_first : (a b : Bool) → (a || b) ≡ false → a ≡ false
not_first a b h = ground arith

not_second : (a b : Bool) → (a || b) ≡ false → b ≡ false
not_second a b h = ground arith

neither : (a b : Bool) → a ≡ false → b ≡ false → (a || b) ≡ false
neither a b h k = ground arith

next-elsewhere : (s : Store) (x n a : ℕ) → (x == a) ≡ false → (set_next s x n a).next ≡ (s a).next
next-elsewhere s x n a h = rw (differ x a h)

pub next-here : (s : Store) (x n : ℕ) → (set_next s x n x).next ≡ n
next-here s x n = rw (same_self x)

is_among-append :
    (x b : ℕ) (addrs : List ℕ)
    → is_among x addrs ≡ false
    → (x == b) ≡ false
    → is_among x (addrs ++ b ∷ []) ≡ false
is_among-append x b [] out h = neither (x == b) false h refl
is_among-append x b (a ∷ addrs) out h =
    neither (x == a) (is_among x (addrs ++ b ∷ [])) (not_first (x == a) (is_among x addrs) out)
      (is_among-append x b addrs (not_second (x == a) (is_among x addrs) out) h)

-- A chain is not changed by what is written elsewhere.
pub IsChain-set_next :
    (s : Store) (x n p last : ℕ) (addrs : List ℕ)
    → is_among x addrs ≡ false
    → IsChain s p last addrs
    → IsChain (set_next s x n) p last addrs
IsChain-set_next s x n p last [] out h = h
IsChain-set_next s x n p last (a ∷ []) out (e, null, l, end) =
    (e, null, l, next-elsewhere s x n a (not_first (x == a) false out) ∙ end)
IsChain-set_next s x n p last (a ∷ b ∷ addrs) out (e, null, fresh, rest) =
    let there = next-elsewhere s x n a (not_first (x == a) (is_among x (b ∷ addrs)) out) in
    (
      e,
      null,
      fresh,
      rw there (
          IsChain-set_next s x n (s a).next last (b ∷ addrs)
            (not_second (x == a) (is_among x (b ∷ addrs)) out) rest),
    )

or_true : (a : Bool) → (a || true) ≡ true
or_true true = refl
or_true false = refl

-- The last address of a chain is one of its.
pub last-is_among :
    (s : Store) (p last a : ℕ) (addrs : List ℕ)
    → IsChain s p last (a ∷ addrs)
    → (is_among last (a ∷ addrs) ≡ true) × ((last == 0) ≡ false)
last-is_among s p last a [] (e, null, l, end) = rw l (rw (same_self a) refl, null)
last-is_among s p last a (b ∷ addrs) (e, null, fresh, rest) =
    let (found, set) = last-is_among s (s a).next last b addrs rest in
    (rw found (or_true (last == a)), set)

pub start :
    (s : Store) (p last a : ℕ) (addrs : List ℕ)
    → IsChain s p last (a ∷ addrs)
    → (p ≡ a) × ((a == 0) ≡ false)
start s p last a [] (e, null, l, end) = (e, null)
start s p last a (b ∷ addrs) (e, null, fresh, rest) = (e, null)

pub IsChain-front :
    (s : Store) (p last a b : ℕ) (addrs : List ℕ)
    → (b == 0) ≡ false
    → is_among b (a ∷ addrs) ≡ false
    → IsChain s p last (a ∷ addrs)
    → IsChain (set_next s b p) b last (b ∷ a ∷ addrs)
IsChain-front s p last a b addrs null fresh h =
    (refl, null, fresh, rw (next-here s b p) (IsChain-set_next s b p p last (a ∷ addrs) fresh h))

-- An address that is not in a list is none that is.
apart :
    (a x : ℕ) (addrs : List ℕ)
    → is_among x addrs ≡ true
    → is_among a addrs ≡ false
    → (x == a) ≡ false
apart a x addrs found out = elim (Bool-cases (x == a)) [
  | inr e ↦ e
  | inl e ↦ absurd (ground (arith, out, rw (same x a e) at found))
]

pub IsChain-back :
    (s : Store) (p last a b : ℕ) (addrs : List ℕ)
    → (b == 0) ≡ false
    → is_among b (a ∷ addrs) ≡ false
    → (s b).next ≡ 0
    → IsChain s p last (a ∷ addrs)
    → IsChain (set_next s last b) p b ((a ∷ addrs) ++ b ∷ [])
IsChain-back s p last a b [] null fresh end (e, null1, l, end1) =
    let other = not_first (b == a) false fresh in
    rw l (
      e,
      null1,
      neither (a == b) false (differ b a other) refl,
      (next-here s a b, null, refl, next-elsewhere s a b b (differ b a other) ∙ end),
    )
IsChain-back s p last a b (c ∷ addrs) null fresh end (e, null1, fresh1, rest) =
    let other = not_first (b == a) (is_among b (c ∷ addrs)) fresh in
    let found = (last-is_among s (s a).next last c addrs rest).0 in
    let there = next-elsewhere s last b a (apart a last (c ∷ addrs) found fresh1) in
    (
      e,
      null1,
      is_among-append a b (c ∷ addrs) fresh1 (differ b a other),
      rw there (
          IsChain-back s (s a).next last c b addrs null
            (not_second (b == a) (is_among b (c ∷ addrs)) fresh) end rest),
    )
