-- ===== src/ZnodePath.antt =====
-- zookeeper.c: the paths of nodes. `prepend_string` and `sub_string` translate between the paths of
-- the application and those of the server, which lie below the `chroot` of the handle, and
-- `isValidPath` says which paths may be sent. A path is the list of its bytes without the final NUL.
pub mod Chroot
pub mod Components
pub mod Scan
pub mod Validity
use elephants.Base.{
  ℕ, zero, suc, ◌+◌, ◌-◌, ◌/◌, ◌%◌, Bool, true, false, not, ◌&&◌, ◌||◌, Option, none, some, List,
  [], ◌∷◌, ◌++◌, ltb, ◌==◌, length, get_or, drop, if◌then◌else◌,
}

abbrev pub slash : ℕ
slash = b'/'

abbrev pub dot : ℕ
dot = b'.'

abbrev pub root : List ℕ
root = slash ∷ []

-- `strncmp(s, prefix, strlen(prefix)) == 0`
unfoldable pub starts_with : List ℕ → List ℕ → Bool
starts_with s [] = true
starts_with [] (c ∷ prefix) = false
starts_with (x ∷ s) (c ∷ prefix) = x == c && starts_with s prefix

unfoldable pub prepend_string : Option (List ℕ) → List ℕ → List ℕ
prepend_string none client_path = client_path
prepend_string (some chroot) client_path =
    if length client_path == 1 then chroot else chroot ++ client_path

unfoldable pub sub_string : Option (List ℕ) → List ℕ → List ℕ
sub_string none server_path = server_path
sub_string (some chroot) server_path =
    if not (starts_with server_path chroot)
    then server_path
    else if length server_path == length chroot
    then root
    else drop (length chroot) server_path

-- `flags & ZOO_SEQUENCE`, where ZOO_SEQUENCE is `1 << 1`.
abbrev pub zoo_sequence : ℕ
zoo_sequence = 2

abbrev pub is_sequence : ℕ → Bool
is_sequence flags = flags / zoo_sequence % 2 == 1

-- The byte at an index; past the last it is the final NUL.
abbrev pub at : List ℕ → ℕ → ℕ
at path i = get_or path i 0

-- `((i + 1 == len) && !(flags & ZOO_SEQUENCE)) || path[i + 1] == '/'`
abbrev pub ends_here : List ℕ → ℕ → ℕ → Bool
ends_here path flags i =
    (i + 1 == length path && not (is_sequence flags)) || at path (i + 1) == slash

-- The body of the loop, true where it does not return 0. A `char` from 0x80 on is negative.
abbrev pub accepts : List ℕ → ℕ → ℕ → ℕ → Bool
accepts path flags i lastc =
    let c = at path i in
    if c == 0
    then false
    else if c == slash && lastc == slash
    then false
    else if c == dot && lastc == dot
    then not (at path (i - 2) == slash && ends_here path flags i)
    else if c == dot
    then not (at path (i - 1) == slash && ends_here path flags i)
    else not (ltb 0 c && ltb c 0x1f)

-- `for (; i < len; lastc = path[i], i++)`, with the rounds left.
unfoldable pub check_from : List ℕ → ℕ → ℕ → ℕ → ℕ → Bool
check_from path flags zero i lastc = true
check_from path flags (suc rounds) i lastc =
    accepts path flags i lastc && check_from path flags rounds (i + 1) (at path i)

unfoldable pub is_valid_path : Option (List ℕ) → ℕ → Bool
is_valid_path none flags = false
is_valid_path (some path) flags =
    if length path == 0
    then false
    else if not (at path 0 == slash)
    then false
    else if length path == 1
    then true
    else if at path (length path - 1) == slash && not (is_sequence flags)
    then false
    else check_from path flags (length path - 1) 1 slash
