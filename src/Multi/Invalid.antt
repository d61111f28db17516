-- ===== src/Multi/Invalid.antt =====
-- What an operation with an invalid path means for the next one.
use elephants.Base.{◌≡◌, Bool, true, false, some, List, [], ◌∷◌}
use elephants.Wire.OArchive.{OArchive}
use elephants.ZnodePath.{prepend_string, is_valid_path}
use elephants.Client.{Handle}
use elephants.Multi.{Op, create_op, delete_op, set_op, check_op, other_op}

module _ {S : Type 0} where
  abbrev pub IsInvalid : Handle → Op S → Type 0
  IsInvalid zh (create_op path value acl flags buf buflen) =
      is_valid_path (some (prepend_string zh.chroot path)) flags ≡ false
  IsInvalid zh (delete_op path version) =
      is_valid_path (some (prepend_string zh.chroot path)) 0 ≡ false
  IsInvalid zh (set_op path value version stat) =
      is_valid_path (some (prepend_string zh.chroot path)) 0 ≡ false
  IsInvalid zh (check_op path version) =
      is_valid_path (some (prepend_string zh.chroot path)) 0 ≡ false
  IsInvalid zh (other_op type) = false ≡ true

  abbrev pub is_known : Op S → Bool
  is_known (other_op type) = false
  is_known _ = true

  abbrev pub AreKnown : List (Op S) → Type 0
  AreKnown [] = Unit
  AreKnown (op ∷ ops) = (is_known op ≡ true) × AreKnown ops
