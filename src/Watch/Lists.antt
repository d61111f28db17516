-- ===== src/Watch/Lists.antt =====
-- The lists of watcher objects as sets: what `add_to_list` and `copy_watchers` do to membership, and
-- that the lists have no duplicates.
use elephants.Base.{
  ◌+◌, ◌≡◌, refl, sym, ap, ◌∙◌, Bool, true, false, not, ◌&&◌, ◌||◌, none, some, List, [], ◌∷◌,
  arith, length, Bool-cases, inl, inr, if◌then◌else◌,
}
use elephants.Watch.{
  WatcherObject, same_watcher, search_watcher, add_to_list, copy_watchers, copy_values,
}
use elephants.Watch.Table.{any}

abbrev pub is_in : WatcherObject → List WatcherObject → Bool
is_in wo [] = false
is_in wo (w ∷ wl) = same_watcher w wo || is_in wo wl

abbrev pub no_dups : List WatcherObject → Bool
no_dups [] = true
no_dups (w ∷ wl) = not (is_in w wl) && no_dups wl

pub same_watcher-eq : (w v : WatcherObject) → same_watcher w v ≡ true → w ≡ v
same_watcher-eq w v h =
    let e1 : w.watcher ≡ v.watcher = ground arith in
    let e2 : w.context ≡ v.context = ground arith in
    ap (λ x. record { watcher = x; context = w.context }) e1
    ∙ ap (λ x. record { watcher = v.watcher; context = x }) e2

search_watcher-is_in :
    (wl : List WatcherObject) (wo : WatcherObject)
    → search_watcher wl wo ≡ (if is_in wo wl then some wo else none)
unfolding search_watcher
search_watcher-is_in [] wo = refl
search_watcher-is_in (w ∷ wl) wo = elim (Bool-cases (same_watcher w wo)) [
  | inl e ↦ rw e (ap some (same_watcher-eq w wo e))
  | inr e ↦ rw e (search_watcher-is_in wl wo)
]

-- What an addition leaves behind, and that nothing is lost: an object is in the list, or freed.
pub add_to_list-present :
    (wl : List WatcherObject) (wo : WatcherObject) (clone : Bool)
    → is_in wo wl ≡ true
    → add_to_list wl wo clone
      ≡ record { wl = wl; res = 0; allocated = 0; freed = if clone then 0 else 1 }
unfolding add_to_list
add_to_list-present wl wo clone h = rw (add_to_list, search_watcher-is_in wl wo, h)

pub add_to_list-absent :
    (wl : List WatcherObject) (wo : WatcherObject) (clone : Bool)
    → is_in wo wl ≡ false
    → add_to_list wl wo clone
      ≡ record { wl = wo ∷ wl; res = 1; allocated = if clone then 1 else 0; freed = 0 }
unfolding add_to_list
add_to_list-absent wl wo true h = rw (add_to_list, search_watcher-is_in wl wo, h)
add_to_list-absent wl wo false h = rw (add_to_list, search_watcher-is_in wl wo, h)

absorb : (a b : Bool) → (a ≡ true → b ≡ true) → b ≡ (a || b)
absorb true b h = h refl
absorb false b h = refl

pub is_in-add_to_list :
    (wl : List WatcherObject) (wo : WatcherObject) (clone : Bool) (w : WatcherObject)
    → is_in w (add_to_list wl wo clone).wl ≡ (same_watcher wo w || is_in w wl)
is_in-add_to_list wl wo clone w = elim (Bool-cases (is_in wo wl)) [
  | inl e ↦
      rw (add_to_list-present wl wo clone e)
        (absorb (same_watcher wo w) (is_in w wl) (λ s. rw (sym (same_watcher-eq wo w s)) e))
  | inr e ↦ rw (add_to_list-absent wl wo clone e)
]

pub no_dups-add_to_list :
    (wl : List WatcherObject) (wo : WatcherObject) (clone : Bool)
    → no_dups wl ≡ true
    → no_dups (add_to_list wl wo clone).wl ≡ true
no_dups-add_to_list wl wo clone h = elim (Bool-cases (is_in wo wl)) [
  | inl e ↦ rw (add_to_list-present wl wo clone e) h
  | inr e ↦ rw (add_to_list-absent wl wo clone e, e, h)
]

length-add_to_list :
    (wl : List WatcherObject) (wo : WatcherObject) (clone : Bool)
    → length (add_to_list wl wo clone).wl + (add_to_list wl wo clone).freed
      ≡ length wl + (if clone then (add_to_list wl wo clone).allocated else 1)
length-add_to_list wl wo clone = elim (Bool-cases (is_in wo wl)) [
  | inl e ↦ rw (add_to_list-present wl wo clone e) (ground arith)
  | inr e ↦ rw (add_to_list-absent wl wo clone e) (ground arith)
]

swap_or : (a b c : Bool) → (a || (b || c)) ≡ ((b || a) || c)
swap_or true true c = refl
swap_or true false c = refl
swap_or false b c = ground arith

pub is_in-copy_watchers :
    (from to : List WatcherObject) (clone : Bool) (w : WatcherObject)
    → is_in w (copy_watchers from to clone).wl ≡ (is_in w from || is_in w to)
unfolding copy_watchers
is_in-copy_watchers [] to clone w = refl
is_in-copy_watchers (wo ∷ next) to clone w =
    rw
      (
        is_in-copy_watchers next (add_to_list to wo clone).wl clone w,
        is_in-add_to_list to wo clone w,
      )
      (swap_or (is_in w next) (same_watcher wo w) (is_in w to))

pub no_dups-copy_watchers :
    (from to : List WatcherObject) (clone : Bool)
    → no_dups to ≡ true
    → no_dups (copy_watchers from to clone).wl ≡ true
unfolding copy_watchers
no_dups-copy_watchers [] to clone h = h
no_dups-copy_watchers (wo ∷ next) to clone h =
    no_dups-copy_watchers next (add_to_list to wo clone).wl clone
      (no_dups-add_to_list to wo clone h)

-- Moving watchers to a list loses none of the objects and frees none twice: as many are in the list
-- or freed afterwards as were in the two lists before.
pub copy_watchers-moves :
    (from to : List WatcherObject)
    → length (copy_watchers from to false).wl + (copy_watchers from to false).freed
      ≡ length from + length to
unfolding copy_watchers
copy_watchers-moves [] to = omega arith
copy_watchers-moves (wo ∷ next) to =
    let ih = copy_watchers-moves next (add_to_list to wo false).wl in
    let one = length-add_to_list to wo false in omega arith

pub is_in-copy_values :
    (lists : List (List WatcherObject)) (to : List WatcherObject) (w : WatcherObject)
    → is_in w (copy_values lists to) ≡ (any (is_in w) lists || is_in w to)
unfolding any
is_in-copy_values [] to w = refl
is_in-copy_values (wl ∷ more) to w =
    rw (is_in-copy_values more (copy_watchers wl to true).wl w, is_in-copy_watchers wl to true w)
      (swap_or (any (is_in w) more) (is_in w wl) (is_in w to))

pub no_dups-copy_values :
    (lists : List (List WatcherObject)) (to : List WatcherObject)
    → no_dups to ≡ true
    → no_dups (copy_values lists to) ≡ true
no_dups-copy_values [] to h = h
no_dups-copy_values (wl ∷ more) to h =
    no_dups-copy_values more (copy_watchers wl to true).wl (no_dups-copy_watchers wl to true h)
