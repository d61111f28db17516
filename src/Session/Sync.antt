-- ===== src/Session/Sync.antt =====
-- zookeeper.c: `process_sync_completion`, where it copies an answer to the memory of a blocked
-- caller.
pub mod Fitting
use elephants.Base.{
  ℕ, zero, suc, ◌+◌, ◌-◌, ◌≤◌, ◌≡◌, refl, sym, ap, ◌∙◌, Bool, true, false, not, ◌&&◌, Option, none,
  some, List, [], ◌∷◌, ◌++◌, ℤ, pos, negsuc, ◌==ℤ◌, ltb_ℤ, is_neg, leb, ltb, ◌==◌, length, take,
  drop, set, min, length-take, length-append, length-drop, append_assoc, ◌<◌, arith, Bool-cases,
  inl, inr, if◌then◌else◌,
}
use elephants.ZnodePath.{sub_string}

-- The memory that a caller gave for an answer, and its length as the caller told it: `u.data` or
-- `u.str` of a `sync_completion`.
pub record Space : Type 0 where
  pub len : ℤ
  pub bytes : List ℕ

-- What the copy leaves: the space, or a null pointer in place of the buffer, or what C leaves
-- undefined.
pub data Copied : Type 0 where
  copied : Space → Copied
  no_data : Space → Copied
  overrun : Copied

-- `memcpy`
abbrev pub memcpy : List ℕ → List ℕ → ℕ → Option (List ℕ)
memcpy dst src n =
    if leb n (length dst) && leb n (length src) then some (take n src ++ drop n dst) else none

abbrev pub copied_to : ℤ → Option (List ℕ) → Copied
copied_to len none = overrun
copied_to len (some bytes) = copied (record { len = len; bytes = bytes })

-- COMPLETION_DATA, from the length on; a negative length other than that of no data is a size that
-- no memory has.
abbrev pub copy_len : Space → List ℕ → ℤ → Copied
copy_len space buff (pos n) = copied_to (pos n) (memcpy space.bytes buff n)
copy_len space buff (negsuc zero) = no_data (record space { len = negsuc 0 })
copy_len space buff (negsuc (suc n)) = overrun

-- The length that is told is the number of bytes to copy.
unfoldable pub copy_data : Space → ℤ → List ℕ → Copied
copy_data space res_len buff =
    copy_len space buff (if not (ltb_ℤ space.len res_len) then res_len else space.len)

-- The NUL after `n` bytes.
abbrev pub terminated : ℤ → ℕ → Option (List ℕ) → Copied
terminated len n none = overrun
terminated len n (some bytes) =
    if ltb n (length bytes) then copied (record { len = len; bytes = set bytes n 0 }) else overrun

-- COMPLETION_STRING
abbrev pub copy_path : Space → List ℕ → ℤ → Copied
copy_path space client_path (pos zero) = copied space
copy_path space client_path (pos (suc n)) =
    terminated space.len n (memcpy space.bytes client_path n)
copy_path space client_path (negsuc n) = copied space

unfoldable pub copy_string : Option (List ℕ) → Space → List ℕ → Copied
unfolding sub_string
copy_string chroot space path =
    let client_path = sub_string chroot path in
    let len = pos (length client_path + 1) in
    copy_path space client_path (if ltb_ℤ space.len len then space.len else len)

-- An answer: data with its length, or a path.
pub data Answer : Type 0 where
  data_answer : ℤ → List ℕ → Answer
  string_answer : List ℕ → Answer

abbrev pub copy : Option (List ℕ) → Space → Answer → Copied
copy chroot space (data_answer len buff) = copy_data space len buff
copy chroot space (string_answer path) = copy_string chroot space path
