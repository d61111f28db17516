-- ===== src/Session/Auth.antt =====
-- zookeeper.c: the list of authentication data of a handle, from its head on.
use elephants.Base.{
  ℕ, ◌≡◌, refl, sym, ap, append-nil, append_assoc, Bool-cases, inl, inr, Option, none, some, List,
  [], ◌∷◌, ◌++◌, ◌==◌, if◌then◌else◌,
}
use elephants.Session.{AuthInfo}

unfoldable pub get_last_auth : List AuthInfo → Option AuthInfo
get_last_auth [] = none
get_last_auth (element ∷ []) = some element
get_last_auth (element ∷ next ∷ list) = get_last_auth (next ∷ list)

unfoldable pub add_last_auth : List AuthInfo → AuthInfo → List AuthInfo
add_last_auth [] add_el = add_el ∷ []
add_last_auth (element ∷ next) add_el = element ∷ add_last_auth next add_el

-- A completion and its data.
abbrev pub AuthCompletion : Type 0
AuthCompletion = ℕ × ℕ

-- `add_auth_completion` appends; `a_list` without a completion in its first element is empty.
unfoldable pub add_auth_completion : List AuthCompletion → ℕ → ℕ → List AuthCompletion
add_auth_completion a_list completion data_of = a_list ++ (completion, data_of) ∷ []

-- The completions that are collected, and the list in which they are NULL then.
unfoldable pub get_auth_completions :
    List AuthInfo → List AuthCompletion → List AuthInfo × List AuthCompletion
unfolding add_auth_completion
get_auth_completions [] a_list = ([], a_list)
get_auth_completions (element ∷ next) a_list =
    let a_list1 =
      if element.completion == 0
      then a_list
      else add_auth_completion a_list element.completion element.data_of in
    let (rest, all) = get_auth_completions next a_list1 in
    (record element { completion = 0 } ∷ rest, all)

unfoldable pub mark_active_auth : List AuthInfo → List AuthInfo
mark_active_auth [] = []
mark_active_auth (element ∷ next) = record element { state = 1 } ∷ mark_active_auth next

-- The completions that are set, in the order of the list.
abbrev pub pending_auth : List AuthInfo → List AuthCompletion
pending_auth [] = []
pending_auth (element ∷ next) =
    if element.completion == 0
    then pending_auth next
    else (element.completion, element.data_of) ∷ pending_auth next

pub pending_auth-mark_active_auth :
    (auth_h : List AuthInfo) → pending_auth (mark_active_auth auth_h) ≡ pending_auth auth_h
unfolding mark_active_auth
pending_auth-mark_active_auth [] = refl
pending_auth-mark_active_auth (element ∷ next) =
    ap
      (λ list.
        if element.completion == 0 then list else (element.completion, element.data_of) ∷ list)
      (pending_auth-mark_active_auth next)

pub get_auth_completions-pending :
    (auth_h : List AuthInfo) (a_list : List AuthCompletion)
    → (get_auth_completions auth_h a_list).1 ≡ a_list ++ pending_auth auth_h
unfolding get_auth_completions add_auth_completion
get_auth_completions-pending [] a_list = sym (append-nil a_list)
get_auth_completions-pending (element ∷ next) a_list = elim (Bool-cases (element.completion == 0)) [
  | inl e ↦ rw (get_auth_completions, e) (get_auth_completions-pending next a_list)
  | inr e ↦ rw (
    get_auth_completions,
    e,
    get_auth_completions-pending next (a_list ++ (element.completion, element.data_of) ∷ []),
    append_assoc,
  )
]

pub get_auth_completions-cleared :
    (auth_h : List AuthInfo) (a_list : List AuthCompletion)
    → pending_auth (get_auth_completions auth_h a_list).0 ≡ []
unfolding get_auth_completions
get_auth_completions-cleared [] a_list = refl
get_auth_completions-cleared (element ∷ next) a_list = get_auth_completions-cleared next (
    if element.completion == 0
    then a_list
    else add_auth_completion a_list element.completion element.data_of)
