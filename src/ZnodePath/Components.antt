-- ===== src/ZnodePath/Components.antt =====
-- What a valid path is, by the components between its slashes.
use elephants.Base.{ℕ, Bool, true, false, not, ◌&&◌, List, [], ◌∷◌, leb, ◌==◌, if◌then◌else◌}
use elephants.ZnodePath.{slash, dot, is_sequence}

-- A byte that may stand in the name of a node: not a control character (0x1f is let through), and
-- not the separator.
abbrev pub is_name_byte : ℕ → Bool
is_name_byte c = leb 0x1f c && not (c == slash)

abbrev pub all_name_bytes : List ℕ → Bool
all_name_bytes [] = true
all_name_bytes (c ∷ s) = is_name_byte c && all_name_bytes s

-- "." and "..".
abbrev pub is_dots : List ℕ → Bool
is_dots (c ∷ []) = c == dot
is_dots (c ∷ d ∷ []) = c == dot && d == dot
is_dots _ = false

abbrev pub is_nil : List ℕ → Bool
is_nil [] = true
is_nil (c ∷ s) = false

abbrev pub is_name : List ℕ → Bool
is_name s = not (is_nil s) && not (is_dots s) && all_name_bytes s

-- The components between the slashes, each with its last byte first.
unfoldable pub components : List ℕ → List ℕ → List (List ℕ)
components cur [] = cur ∷ []
components cur (c ∷ s) = elim (c == slash) [
  | true ↦ cur ∷ components [] s
  | false ↦ components (c ∷ cur) s
]

-- The server completes the last component of a sequence node, which may be anything but control
-- characters, and empty too.
abbrev pub all_names : ℕ → List (List ℕ) → Bool
all_names flags [] = true
all_names flags (s ∷ []) = if is_sequence flags then all_name_bytes s else is_name s
all_names flags (s ∷ t ∷ r) = is_name s && all_names flags (t ∷ r)
