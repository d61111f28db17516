-- ===== src/Multi/Replies.antt =====
-- The reply to several operations, read part by part.
use elephants.Base.{
  ℕ, suc, ◌<◌, ◌≡◌, refl, sym, ap, ◌∙◌, true, false, not, ◌&&◌, some, List, [], ◌∷◌, ℤ, pos, negsuc,
  ◌==ℤ◌, ==ℤ_iff, arith, Bool-cases, inl, inr, if◌then◌else◌,
}
use elephants.Wire.IArchive.{IArchive}
use elephants.Client.{CompletionType}
use elephants.Session.{ping_xid}
use elephants.Multi.{MultiHeader, OpResult, Entry, write}
use elephants.Multi.Response.{
  MultiReplies, zruntimeinconsistency, answer_entry, read_error, next_header, answer_entries,
}
use elephants.Multi.Answered.{
  Reply, failed, created, changed, finished, entries_from, AreFor, answered, first_error,
  AreAnswered, HaveSpace, write-same, write-other, write-below, AreAnswered-same, HaveSpace-same,
}
use elephants.Multi.Parts.{entry-failed, entry-created, entry-changed, entry-finished}

module _ {S : Type 0} (replies : MultiReplies S) where
  -- What the archive holds from a header that has been read: a header with the code, or with type
  -- -1 and a code of its own after it, and the contents, for each part; then a header that ends
  -- the reply.
  abbrev pub Ahead : MultiHeader × IArchive → List (Reply S) → Type 0
  Ahead (mhdr, ia) [] = mhdr.done ≡ true
  Ahead (mhdr, ia) (failed err ∷ rest) =
      (mhdr.done ≡ false)
      × (mhdr.type ≡ negsuc 0)
      × ((MultiReplies.deserialize_error_response replies ia).0 ≡ err)
      × Ahead (next_header replies (MultiReplies.deserialize_error_response replies ia).1) rest
  Ahead (mhdr, ia) (created err path ∷ rest) =
      (mhdr.done ≡ false)
      × ((mhdr.type ==ℤ negsuc 0) ≡ false)
      × (mhdr.err ≡ err)
      × ((MultiReplies.deserialize_create_response replies ia).0 ≡ path)
      × Ahead (next_header replies (MultiReplies.deserialize_create_response replies ia).1) rest
  Ahead (mhdr, ia) (changed err stat ∷ rest) =
      (mhdr.done ≡ false)
      × ((mhdr.type ==ℤ negsuc 0) ≡ false)
      × (mhdr.err ≡ err)
      × ((MultiReplies.deserialize_set_data_response replies ia).0 ≡ stat)
      × Ahead (next_header replies (MultiReplies.deserialize_set_data_response replies ia).1) rest
  Ahead (mhdr, ia) (finished err ∷ rest) =
      (mhdr.done ≡ false)
      × ((mhdr.type ==ℤ negsuc 0) ≡ false)
      × (mhdr.err ≡ err)
      × Ahead (next_header replies ia) rest

module _ {S : Type 0} (replies : MultiReplies S) (xid : ℤ) where
  -- The code of the whole, from a code that was there before.
  abbrev pub whole : ℤ → List (Reply S) → ℤ
  whole rc rest = if rc ==ℤ pos 0 then first_error rest else rc

  abbrev pub IsDone :
      List Entry
      → MultiHeader × IArchive
      → ℤ
      → (ℕ → OpResult S)
      → ℕ
      → List CompletionType
      → List (Reply S)
      → Type 0
  IsDone clist at rc results i types parts =
      (after : ℕ → OpResult S) × (answer_entries replies xid clist at rc results
        ≡ some (whole rc parts, after))
      × AreAnswered i types parts results after
      × ((j : ℕ) → j < i → after j ≡ results j)

  whole-done : (rc : ℤ) → whole rc [] ≡ rc
  whole-done rc = elim (Bool-cases (rc ==ℤ pos 0)) [
    | inl e ↦ rw e (sym ((==ℤ_iff rc (pos 0)).0 e))
    | inr e ↦ rw e
  ]

  whole-failed :
      (rc err : ℤ) (parts : List (Reply S))
      → whole
          (if (rc ==ℤ pos 0) && (not (err ==ℤ pos 0) && not (err ==ℤ zruntimeinconsistency))
            then err
            else rc)
          parts
        ≡ whole rc (failed err ∷ parts)
  whole-failed rc err parts = elim (Bool-cases (rc ==ℤ pos 0)) [
    | inr e ↦ rw (e, e) refl
    | inl e ↦ elim (Bool-cases (err ==ℤ pos 0)) [
      | inl f ↦ rw (e, f, e) refl
      | inr f ↦ elim (Bool-cases (err ==ℤ zruntimeinconsistency)) [
        | inl g ↦ rw (e, f, g, e) refl
        | inr g ↦ rw (e, f, g, f) refl
      ]
    ]
  ]

  answer_entries-step :
      (i : ℕ) (t : CompletionType) (clist : List Entry) (mhdr : MultiHeader) (ia : IArchive)
      (rc : ℤ) (results : ℕ → OpResult S) (types : List CompletionType) (part : Reply S)
      (parts : List (Reply S)) (err rc1 : ℤ) (ia1 rest : IArchive)
      → mhdr.done ≡ false
      → read_error replies mhdr rc ia ≡ (err, rc1, ia1)
      → answer_entry replies xid t (mhdr.type ==ℤ negsuc 0) err (results i) ia1
        ≡ some (answered t part (results i), rest)
      → whole rc1 parts ≡ whole rc (part ∷ parts)
      → IsDone clist
          (next_header replies rest)
          rc1
          (write i (answered t part (results i)) results)
          (suc i)
          types
          parts
      → IsDone
          (record { type = t; result = i } ∷ clist)
          (mhdr, ia)
          rc
          results
          i
          (t ∷ types)
          (part ∷ parts)
  unfolding answer_entries
  answer_entries-step i t clist mhdr ia rc results types part parts err rc1 ia1 rest d re ae w
        (after, run, answers, low) =
      let new = answered t part (results i) in
      (
        after,
        rw (d, re, ae, re) (run ∙ ap (λ code. some (code, after)) w),
        (
          low i (omega arith) ∙ write-same i new results,
          AreAnswered-same (suc i) types parts (write i new results) results after
              (λ j le. write-other i j new results le) answers,
        ),
        (λ j lt. low j (omega arith) ∙ write-below i j new results lt),
      )

  pub answer_entries-IsDone :
      (i : ℕ) (types : List CompletionType) (parts : List (Reply S)) (at : MultiHeader × IArchive)
      (rc : ℤ) (results : ℕ → OpResult S)
      → (xid ==ℤ ping_xid) ≡ false
      → AreFor types parts
      → HaveSpace i types results
      → Ahead replies at parts
      → IsDone (entries_from i types) at rc results i types parts
  unfolding answer_entries
  answer_entries-IsDone i [] [] (mhdr, ia) rc results ping for space ahead =
      (results, rw (ahead, whole-done rc) refl, (λ j le. refl), (λ j lt. refl))
  answer_entries-IsDone i [] (part ∷ parts) at rc results ping for space ahead =
      absurd (ground (arith, for))
  answer_entries-IsDone i (t ∷ types) [] at rc results ping for space ahead =
      absurd (ground (arith, for))
  answer_entries-IsDone i (t ∷ types) (failed err ∷ parts) (mhdr, ia) rc results ping
        (for, for_rest) (space, spaces) (d, ty, er, ahead) =
      let is_error : (mhdr.type ==ℤ negsuc 0) ≡ true = rw ty refl in
      let new = answered t (failed err) (results i) in
      let rest = (MultiReplies.deserialize_error_response replies ia).1 in
      answer_entries-step i t (entries_from (suc i) types) mhdr ia rc results types (failed err)
        parts err
        (if (rc ==ℤ pos 0) && (not (err ==ℤ pos 0) && not (err ==ℤ zruntimeinconsistency))
          then err
          else rc)
        rest rest d (rw (is_error, er) refl)
        (rw is_error (entry-failed replies xid t err (results i) rest ping for))
        (whole-failed rc err parts)
        (answer_entries-IsDone (suc i) types parts _ _ (write i new results) ping for_rest
          (HaveSpace-same (suc i) types results _ (λ j le. sym (write-other i j new results le))
            spaces)
          ahead)
  answer_entries-IsDone i (t ∷ types) (created err path ∷ parts) (mhdr, ia) rc results ping
        (for, for_rest) (space, spaces) (d, ty, er, e, ahead) =
      let new = answered t (created err path) (results i) in
      answer_entries-step i t (entries_from (suc i) types) mhdr ia rc results types
        (created err path) parts err rc ia (MultiReplies.deserialize_create_response replies ia).1 d
        (rw (ty, er) refl) (rw ty (entry-created replies xid t err path (results i) ia space e for))
        refl
        (answer_entries-IsDone (suc i) types parts _ _ (write i new results) ping for_rest
          (HaveSpace-same (suc i) types results _ (λ j le. sym (write-other i j new results le))
            spaces)
          ahead)
  answer_entries-IsDone i (t ∷ types) (changed err stat ∷ parts) (mhdr, ia) rc results ping
        (for, for_rest) (space, spaces) (d, ty, er, e, ahead) =
      let new = answered t (changed err stat) (results i) in
      answer_entries-step i t (entries_from (suc i) types) mhdr ia rc results types
        (changed err stat) parts err rc ia (MultiReplies.deserialize_set_data_response replies ia).1
        d (rw (ty, er) refl) (rw ty (entry-changed replies xid t err stat (results i) ia e for))
        refl
        (answer_entries-IsDone (suc i) types parts _ _ (write i new results) ping for_rest
          (HaveSpace-same (suc i) types results _ (λ j le. sym (write-other i j new results le))
            spaces)
          ahead)
  answer_entries-IsDone i (t ∷ types) (finished err ∷ parts) (mhdr, ia) rc results ping
        (for, for_rest) (space, spaces) (d, ty, er, ahead) =
      let new = answered t (finished err) (results i) in
      answer_entries-step i t (entries_from (suc i) types) mhdr ia rc results types (finished err)
        parts err rc ia ia d (rw (ty, er) refl)
        (rw ty (entry-finished replies xid t err (results i) ia ping for)) refl
        (answer_entries-IsDone (suc i) types parts _ _ (write i new results) ping for_rest
          (HaveSpace-same (suc i) types results _ (λ j le. sym (write-other i j new results le))
            spaces)
          ahead)
