-- ===== src/Wire/Word.antt =====
-- recordio.c: `htonl`, `htonll` and the bytes that `memcpy` takes of a machine word.
-- `htonl` is the C library's; what counts is that the bytes of its result stand in memory with the
-- highest first, on every host. `htonll` is the source's own, and swaps the bytes of the image in
-- memory unless the host keeps them so already.
use elephants.Base.{
  ℕ, zero, suc, ◌+◌, ◌-◌, ◌*◌, ◌/◌, ◌%◌, ◌^◌, ◌<◌, ◌≡◌, refl, Bool, true, false, List, [], ◌∷◌, ℤ,
  pos, negsuc, IsInt32, IsInt64, arith, ltb, get_or, set, if◌then◌else◌,
}

-- The two's complement pattern of an `int32_t` and of an `int64_t`, and the number it stands for.
abbrev pub word32 : ℤ → ℕ
word32 (pos n) = n % 2 ^ 32
word32 (negsuc n) = 2 ^ 32 - 1 - n % 2 ^ 32

abbrev pub signed32 : ℕ → ℤ
signed32 w = if ltb w (2 ^ 31) then pos w else negsuc (2 ^ 32 - 1 - w)

abbrev pub word64 : ℤ → ℕ
word64 (pos n) = n % 2 ^ 64
word64 (negsuc n) = 2 ^ 64 - 1 - n % 2 ^ 64

abbrev pub signed64 : ℕ → ℤ
signed64 w = if ltb w (2 ^ 63) then pos w else negsuc (2 ^ 64 - 1 - w)

-- The bytes of a word in memory: highest first, and lowest first.
abbrev pub be32 : ℕ → List ℕ
be32 w = (w / 2 ^ 24 % 256) ∷ (w / 2 ^ 16 % 256) ∷ (w / 2 ^ 8 % 256) ∷ (w % 256) ∷ []

abbrev pub be64 : ℕ → List ℕ
be64 w =
    (w / 2 ^ 56 % 256)
    ∷ (w / 2 ^ 48 % 256)
    ∷ (w / 2 ^ 40 % 256)
    ∷ (w / 2 ^ 32 % 256)
    ∷ (w / 2 ^ 24 % 256)
    ∷ (w / 2 ^ 16 % 256)
    ∷ (w / 2 ^ 8 % 256)
    ∷ (w % 256)
    ∷ []

abbrev pub le64 : ℕ → List ℕ
le64 w =
    (w % 256)
    ∷ (w / 2 ^ 8 % 256)
    ∷ (w / 2 ^ 16 % 256)
    ∷ (w / 2 ^ 24 % 256)
    ∷ (w / 2 ^ 32 % 256)
    ∷ (w / 2 ^ 40 % 256)
    ∷ (w / 2 ^ 48 % 256)
    ∷ (w / 2 ^ 56 % 256)
    ∷ []

-- The word that a run of bytes, highest first, stands for.
abbrev pub from_be_acc : ℕ → List ℕ → ℕ
from_be_acc acc [] = acc
from_be_acc acc (b ∷ bs) = from_be_acc (acc * 256 + b) bs

abbrev pub from_be : List ℕ → ℕ
from_be = from_be_acc 0

-- The image of an `int64_t` in the memory of a host.
abbrev pub memory_image : Bool → ℕ → List ℕ
memory_image big_endian w = if big_endian then be64 w else le64 w

abbrev pub from_le : List ℕ → ℕ
from_le [] = 0
from_le (b ∷ bs) = b + 256 * from_le bs

-- The word that a host reads out of an image in its memory.
abbrev pub from_image : Bool → List ℕ → ℕ
from_image big_endian s = if big_endian then from_be s else from_le s

-- `for (i = 0; i < 4; i++) { tmp = s[i]; s[i] = s[8-i-1]; s[8-i-1] = tmp; }`, with the rounds left.
swap_bytes : ℕ → ℕ → List ℕ → List ℕ
swap_bytes zero i s = s
swap_bytes (suc rounds) i s =
    let tmp = get_or s i 0 in
    swap_bytes rounds (i + 1) (set (set s i (get_or s (8 - i - 1) 0)) (8 - i - 1) tmp)

-- `htonll`, on the image of its argument; `htonl(1) == 1` tells a big-endian host.
unfoldable pub htonll : Bool → List ℕ → List ℕ
unfolding swap_bytes
htonll big_endian s = if big_endian then s else swap_bytes 4 0 s

pub signed32-word32 : (z : ℤ) → IsInt32 z → signed32 (word32 z) ≡ z
signed32-word32 (pos n) h = ground arith
signed32-word32 (negsuc n) h = ground arith

pub signed64-word64 : (z : ℤ) → IsInt64 z → signed64 (word64 z) ≡ z
signed64-word64 (pos n) h = ground arith
signed64-word64 (negsuc n) h = ground arith

pub word32-lt : (z : ℤ) → word32 z < 2 ^ 32
word32-lt (pos n) = omega arith
word32-lt (negsuc n) = omega arith

pub word64-lt : (z : ℤ) → word64 z < 2 ^ 64
word64-lt (pos n) = omega arith
word64-lt (negsuc n) = omega arith

pub from_be-be32 : (w : ℕ) → w < 2 ^ 32 → from_be (be32 w) ≡ w
from_be-be32 w h = omega arith

pub from_be-be64 : (w : ℕ) → w < 2 ^ 64 → from_be (be64 w) ≡ w
from_be-be64 w h = omega arith

-- `htonll` puts the image of a 64-bit word in network order (the highest byte first) on either
-- kind of host, and applied to those bytes it restores the image: it is also its own inverse.
pub htonll-memory_image :
    (big_endian : Bool) (w : ℕ)
    → (htonll big_endian (memory_image big_endian w) ≡ be64 w)
      × (htonll big_endian (be64 w) ≡ memory_image big_endian w)
unfolding htonll
htonll-memory_image true w = (refl, refl)
htonll-memory_image false w = (refl, refl)

-- So the word that a host reads out of what `htonll` makes of eight bytes in network order is the
-- word that those stand for.
pub from_image-htonll :
    (big_endian : Bool) (w : ℕ)
    → w < 2 ^ 64
    → from_image big_endian (htonll big_endian (be64 w)) ≡ w
unfolding htonll
from_image-htonll true w h = omega arith
from_image-htonll false w h = omega arith
