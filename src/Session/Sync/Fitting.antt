-- ===== src/Session/Sync/Fitting.antt =====
-- What fits of an answer in the memory of a blocked caller.
use elephants.Base.{
  ℕ, zero, suc, ◌+◌, ◌≤◌, ◌≡◌, refl, sym, ap, ◌∙◌, true, not, Option, some, List, [], ◌∷◌, ◌++◌, ℤ,
  pos, ltb_ℤ, leb, ltb, length, take, drop, set, min, length-take, length-append, length-drop,
  append_assoc, ◌<◌, arith, if◌then◌else◌,
}
use elephants.ZnodePath.{sub_string}
use elephants.Session.Sync.{
  Space, copied, memcpy, copy_data, terminated, copy_path, copy_string, Answer, data_answer,
  string_answer, copy,
}

-- The caller told the length of its memory.
abbrev pub IsSpace : Space → Type 0
IsSpace space = space.len ≡ pos (length space.bytes)

-- The data has its length.
abbrev pub IsAnswer : Answer → Type 0
IsAnswer (data_answer len buff) = len ≡ pos (length buff)
IsAnswer (string_answer path) = Unit

-- The first bytes of a path and a NUL, `n` bytes at most.
abbrev pub terminated_path : List ℕ → ℕ → List ℕ
terminated_path client_path zero = []
terminated_path client_path (suc n) = take n client_path ++ 0 ∷ []

-- The bytes that a space of `n` bytes can have of an answer: the first of the data, or the first
-- of the path, below the chroot, and a NUL.
abbrev pub fitting : Option (List ℕ) → Answer → ℕ → List ℕ
fitting chroot (data_answer len buff) n = take n buff
fitting chroot (string_answer path) n = terminated_path (sub_string chroot path) n

-- The length that the caller is told: the number of bytes copied, which is not the length of the
-- data where more was answered than fits, though zookeeper.h says so of `buffer_len`.
abbrev pub told_len : Space → Answer → ℤ
told_len space (data_answer len buff) = pos (min (length buff) (length space.bytes))
told_len space (string_answer path) = space.len

shorter : (b d : ℕ) → (if not (ltb_ℤ (pos b) (pos d)) then pos d else pos b) ≡ pos (min d b)
shorter b d = ground arith

at_most :
    (b c : ℕ) → (if ltb_ℤ (pos b) (pos (c + 1)) then pos b else pos (c + 1)) ≡ pos (min b (c + 1))
at_most b c = ground arith

take-min : (n : ℕ) (xs : List ℕ) → take (min n (length xs)) xs ≡ take n xs
take-min zero xs = let e : min zero (length xs) ≡ zero = omega arith in rw e
take-min (suc n) [] = let e : min (suc n) 0 ≡ 0 = omega arith in rw e
take-min (suc n) (x ∷ xs) =
    let e : min (suc n) (suc (length xs)) ≡ suc (min n (length xs)) = omega arith in
    rw e (ap (λ l. x ∷ l) (take-min n xs))

within :
    (n : ℕ) (dst src : List ℕ)
    → n ≤ length dst
    → n ≤ length src
    → memcpy dst src n ≡ some (take n src ++ drop n dst)
within n dst src h k =
    let e : leb n (length dst) ≡ true = ground (arith, h) in
    let f : leb n (length src) ≡ true = ground (arith, k) in rw (e, f)

copy_data-fitting :
    (space : Space) (len : ℤ) (buff : List ℕ)
    → IsSpace space
    → len ≡ pos (length buff)
    → copy_data space len buff
      ≡ copied (record {
        len = pos (min (length buff) (length space.bytes));
        bytes =
            take (length space.bytes) buff
            ++ drop (length (take (length space.bytes) buff)) space.bytes;
      })
unfolding copy_data
copy_data-fitting space len buff h k =
    let n = min (length buff) (length space.bytes) in
    let swap : n ≡ min (length space.bytes) (length buff) = omega arith in
    rw
      (
        copy_data,
        h,
        k,
        shorter (length space.bytes) (length buff),
        within n space.bytes buff (omega arith) (omega arith),
      )
      (ap (λ l. copied (record { len = pos n; bytes = l ++ drop n space.bytes }))
          (ap (λ m. take m buff) swap ∙ take-min (length space.bytes) buff)
        ∙ ap
            (λ m. copied (record {
              len = pos n;
              bytes = take (length space.bytes) buff ++ drop m space.bytes;
            }))
            (swap ∙ sym (length-take (length space.bytes) buff)))

set-drop :
    (n : ℕ) (xs ys : List ℕ)
    → length xs ≡ n
    → n < length ys
    → set (xs ++ drop n ys) n 0 ≡ xs ++ 0 ∷ drop (suc n) ys
set-drop n xs [] e h = absurd (omega (arith, h))
set-drop zero [] (y ∷ ys) e h = refl
set-drop zero (x ∷ xs) (y ∷ ys) e h = absurd (omega (arith, e))
set-drop (suc n) [] (y ∷ ys) e h = absurd (omega (arith, e))
set-drop (suc n) (x ∷ xs) (y ∷ ys) e h =
    ap (λ l. x ∷ l) (set-drop n xs ys (omega (arith, e)) (omega (arith, h)))

length-terminated_path :
    (client_path : List ℕ) (n : ℕ)
    → length (terminated_path client_path (suc n)) ≡ suc (min n (length client_path))
length-terminated_path client_path n =
    rw (length-append (take n client_path) (0 ∷ []), length-take n client_path) (omega arith)

terminated-set :
    (len : ℤ) (n : ℕ) (bytes : List ℕ)
    → n < length bytes
    → terminated len n (some bytes) ≡ copied (record { len = len; bytes = set bytes n 0 })
terminated-set len n bytes h = let e : ltb n (length bytes) ≡ true = ground (arith, h) in rw e

copy_path-terminated_path :
    (len : ℤ) (bytes client_path : List ℕ)
    → copy_path
        (record { len = len; bytes = bytes })
        client_path
        (pos (min (length bytes) (length client_path + 1)))
      ≡ copied (record {
        len = len;
        bytes =
            terminated_path client_path (length bytes)
            ++ drop (length (terminated_path client_path (length bytes))) bytes;
      })
copy_path-terminated_path len [] client_path =
    let e : min 0 (length client_path + 1) ≡ 0 = omega arith in rw e
copy_path-terminated_path len (b ∷ rest) client_path =
    let m = length rest in
    let n = min m (length client_path) in
    let e : min (suc m) (length client_path + 1) ≡ suc n = omega arith in
    let size : length (take n client_path) ≡ n = length-take n client_path ∙ omega arith in
    let room : n < length (take n client_path ++ drop n (b ∷ rest)) =
      rw (length-append (take n client_path) (drop n (b ∷ rest)), size, length-drop n (b ∷ rest))
        (omega arith) in
    rw (
      e,
      within n (b ∷ rest) client_path (omega arith) (omega arith),
      terminated-set len n (take n client_path ++ drop n (b ∷ rest)) room,
      set-drop n (take n client_path) (b ∷ rest) size (omega arith),
      length-terminated_path client_path m,
      take-min m client_path,
      append_assoc,
    )

pub copy_string-fitting :
    (chroot : Option (List ℕ)) (space : Space) (path : List ℕ)
    → IsSpace space
    → copy_string chroot space path
      ≡ copied (record {
        len = space.len;
        bytes =
            fitting chroot (string_answer path) (length space.bytes)
            ++ drop (length (fitting chroot (string_answer path) (length space.bytes))) space.bytes;
      })
unfolding copy_string
copy_string-fitting chroot space path h =
    rw (copy_string, h, at_most (length space.bytes) (length (sub_string chroot path)))
      (copy_path-terminated_path (pos (length space.bytes)) space.bytes (sub_string chroot path))

length-terminated_path-≤ :
    (client_path : List ℕ) (n : ℕ) → length (terminated_path client_path n) ≤ n
length-terminated_path-≤ client_path zero = omega arith
length-terminated_path-≤ client_path (suc n) =
    rw (length-terminated_path client_path n) (omega arith)

-- An answer is copied to the memory of a blocked caller without writing or reading beyond what
-- there is, whatever fits: as many bytes of the data as there is room for, or as many of the path
-- and a NUL after them; the rest of the memory is untouched. For data the caller is told the
-- number of bytes copied, the smaller of the length of the data and the length of the memory: data
-- that was cut off is told with the length of the memory, not with its own as zookeeper.h says.
pub copy-fitting :
    (chroot : Option (List ℕ)) (space : Space) (ans : Answer)
    → IsSpace space
    → IsAnswer ans
    → (copy chroot space ans
        ≡ copied (record {
          len = told_len space ans;
          bytes =
              fitting chroot ans (length space.bytes)
              ++ drop (length (fitting chroot ans (length space.bytes))) space.bytes;
        }))
      × (length (fitting chroot ans (length space.bytes)) ≤ length space.bytes)
copy-fitting chroot space (data_answer len buff) h k =
    (copy_data-fitting space len buff h k, rw (length-take (length space.bytes) buff) (omega arith))
copy-fitting chroot space (string_answer path) h k = (
  copy_string-fitting chroot space path h,
  length-terminated_path-≤ (sub_string chroot path) (length space.bytes),
)
