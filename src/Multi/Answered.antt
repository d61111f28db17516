-- ===== src/Multi/Answered.antt =====
-- What the reply to several operations leaves in their results.
use elephants.Base.{
  ℕ, suc, ◌≤◌, ◌<◌, ◌≡◌, sym, ap, ◌∙◌, Bool, true, false, not, ◌&&◌, Option, none, some, List, [],
  ◌∷◌, ◌++◌, ℤ, pos, ◌==ℤ◌, ◌==◌, length, drop, arith, if◌then◌else◌,
}
use elephants.Client.{CompletionType, completion_void, completion_stat, completion_string}
use elephants.Session.Sync.Fitting.{terminated_path}
use elephants.Multi.{OpResult, Entry, write}
use elephants.Multi.Response.{zruntimeinconsistency, put_stat}

-- A part of a reply: an error, or the code and the contents of a result.
pub data Reply (S : Type 0) : Type 0 where
  failed : ℤ → Reply S
  created : ℤ → List ℕ → Reply S
  changed : ℤ → S → Reply S
  finished : ℤ → Reply S

abbrev pub entries_from : ℕ → List CompletionType → List Entry
entries_from i [] = []
entries_from i (t ∷ types) = record { type = t; result = i } ∷ entries_from (suc i) types

-- The memory of a result has the length that it tells.
abbrev pub HasSpace : Option (List ℕ) → ℤ → Type 0
HasSpace none valuelen = Unit
HasSpace (some value) valuelen = valuelen ≡ pos (length value)

-- As much of the path as there is room for, and a NUL.
abbrev pub path_in : List ℕ → Option (List ℕ) → Option (List ℕ)
path_in path none = none
path_in path (some value) = some (
    terminated_path path (length value)
    ++ drop (length (terminated_path path (length value))) value)

module _ {S : Type 0} where
  -- Whether an operation of a type is answered so.
  abbrev pub is_for : CompletionType → Reply S → Bool
  is_for completion_string (failed err) = true
  is_for completion_string (created err path) = true
  is_for completion_stat (failed err) = true
  is_for completion_stat (changed err stat) = true
  is_for completion_void (failed err) = true
  is_for completion_void (finished err) = true
  is_for _ _ = false

  abbrev pub AreFor : List CompletionType → List (Reply S) → Type 0
  AreFor [] [] = Unit
  AreFor (t ∷ types) (reply ∷ replies) = (is_for t reply ≡ true) × AreFor types replies
  AreFor _ _ = false ≡ true

  abbrev pub code : Reply S → ℤ
  code (failed err) = err
  code (created err path) = err
  code (changed err stat) = err
  code (finished err) = err

  -- What the reply makes of a result.
  abbrev pub answered : CompletionType → Reply S → OpResult S → OpResult S
  answered completion_string (created err path) r = record r {
    err = err;
    value = path_in path r.value;
  }
  answered completion_string (failed err) r = record r { err = err; value = none }
  answered completion_stat (changed err stat) r = record r {
    err = err;
    stat = put_stat (err ==ℤ pos 0) r.stat (some stat);
  }
  answered completion_stat (failed err) r = record r { err = err; stat = none }
  answered _ reply r = record r { err = code reply }

  -- The first error that is one of an operation of its own.
  abbrev pub first_error : List (Reply S) → ℤ
  first_error [] = pos 0
  first_error (failed err ∷ replies) =
      if not (err ==ℤ pos 0) && not (err ==ℤ zruntimeinconsistency)
      then err
      else first_error replies
  first_error (_ ∷ replies) = first_error replies

  -- From an index on, each result is answered by its reply, and those after the last are as before.
  abbrev pub AreAnswered :
      ℕ → List CompletionType → List (Reply S) → (ℕ → OpResult S) → (ℕ → OpResult S) → Type 0
  AreAnswered i (t ∷ types) (reply ∷ replies) results after =
      (after i ≡ answered t reply (results i)) × AreAnswered (suc i) types replies results after
  AreAnswered i _ _ results after = (j : ℕ) → i ≤ j → after j ≡ results j

  abbrev pub HaveSpace : ℕ → List CompletionType → (ℕ → OpResult S) → Type 0
  HaveSpace i [] results = Unit
  HaveSpace i (t ∷ types) results =
      HasSpace (OpResult.value (results i)) (OpResult.valuelen (results i))
      × HaveSpace (suc i) types results

  pub write-same : (i : ℕ) (r : OpResult S) (results : ℕ → OpResult S) → write i r results i ≡ r
  write-same i r results = let e : (i == i) ≡ true = ground arith in rw e

  pub write-other :
      (i j : ℕ) (r : OpResult S) (results : ℕ → OpResult S)
      → suc i ≤ j
      → write i r results j ≡ results j
  write-other i j r results h = let e : (j == i) ≡ false = ground arith in rw e

  pub write-below :
      (i j : ℕ) (r : OpResult S) (results : ℕ → OpResult S)
      → j < i
      → write i r results j ≡ results j
  write-below i j r results h = let e : (j == i) ≡ false = ground arith in rw e

  pub AreAnswered-same :
      (i : ℕ) (types : List CompletionType) (replies : List (Reply S)) (a b after : ℕ → OpResult S)
      → ((j : ℕ) → i ≤ j → a j ≡ b j)
      → AreAnswered i types replies a after
      → AreAnswered i types replies b after
  AreAnswered-same i [] replies a b after same h = λ j le. h j le ∙ same j le
  AreAnswered-same i (t ∷ types) [] a b after same h = λ j le. h j le ∙ same j le
  AreAnswered-same i (t ∷ types) (reply ∷ replies) a b after same (e, h) = (
    e ∙ ap (answered t reply) (same i (omega arith)),
    AreAnswered-same (suc i) types replies a b after (λ j le. same j (omega arith)) h,
  )

  pub HaveSpace-same :
      (i : ℕ) (types : List CompletionType) (a b : ℕ → OpResult S)
      → ((j : ℕ) → i ≤ j → a j ≡ b j)
      → HaveSpace i types a
      → HaveSpace i types b
  HaveSpace-same i [] a b same h = tt
  HaveSpace-same i (t ∷ types) a b same (e, h) = (
    rw (sym (same i (omega arith))) e,
    HaveSpace-same (suc i) types a b (λ j le. same j (omega arith)) h,
  )
