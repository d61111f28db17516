-- ===== src/Multi/Exchange.antt =====
-- Several operations and their reply: from `zoo_amulti` to the results.
use elephants.Base.{
  ℕ, suc, ◌≤◌, ◌≡◌, ap, ◌∙◌, Bool, false, some, List, [], ◌∷◌, map, ℤ, pos, is_neg, ◌==ℤ◌, arith,
}
use elephants.Wire.OArchive.{OArchive}
use elephants.Wire.IArchive.{IArchive}
use elephants.Client.{Handle, Jute}
use elephants.Session.{ping_xid}
use elephants.Multi.{
  MultiHeader, Op, OpResult, Body, Building, going, completion_of, pointed, amulti_request,
}
use elephants.Multi.Response.{MultiReplies, next_header, deserialize_multi}
use elephants.Multi.Answered.{
  Reply, AreFor, HasSpace, answered, first_error, AreAnswered, HaveSpace,
}
use elephants.Multi.Replies.{Ahead, answer_entries-IsDone}
use elephants.Multi.Built.{AreValid, ArePointed, Succeeds, amulti_request-going}

module _ {S : Type 0} where
  -- Each result is that of its operation, answered by its reply.
  abbrev pub AreResults :
      ℕ → List (Op S) → List (Reply S) → (ℕ → OpResult S) → (ℕ → OpResult S) → Type 0
  AreResults i (op ∷ ops) (reply ∷ replies) results after =
      (after i ≡ answered (completion_of op) reply (pointed op (results i)))
      × AreResults (suc i) ops replies results after
  AreResults i _ _ results after = (j : ℕ) → i ≤ j → after j ≡ results j

  -- The memory for a path, of a creation and in the results, has the length that is told.
  abbrev pub HaveBuffers : ℕ → List (Op S) → (ℕ → OpResult S) → Type 0
  HaveBuffers i [] results = Unit
  HaveBuffers i (op ∷ ops) results =
      HasSpace (OpResult.value (pointed op (results i)))
        (OpResult.valuelen (pointed op (results i)))
      × HaveBuffers (suc i) ops results

  AreResults-both :
      (i : ℕ) (ops : List (Op S)) (replies : List (Reply S)) (results middle after : ℕ → OpResult S)
      → AreFor (map completion_of ops) replies
      → ArePointed i ops results middle
      → AreAnswered i (map completion_of ops) replies middle after
      → AreResults i ops replies results after
  AreResults-both i [] [] results middle after for p h = λ j le. h j le ∙ p j le
  AreResults-both i [] (reply ∷ replies) results middle after for p h = absurd (ground (arith, for))
  AreResults-both i (op ∷ ops) [] results middle after for p h = absurd (ground (arith, for))
  AreResults-both i (op ∷ ops) (reply ∷ replies) results middle after (for, more) (p, ps) (e, h) = (
    e ∙ ap (answered (completion_of op) reply) p,
    AreResults-both (suc i) ops replies results middle after more ps h,
  )

  HaveSpace-both :
      (i : ℕ) (ops : List (Op S)) (results middle : ℕ → OpResult S)
      → HaveBuffers i ops results
      → ArePointed i ops results middle
      → HaveSpace i (map completion_of ops) middle
  HaveSpace-both i [] results middle h p = tt
  HaveSpace-both i (op ∷ ops) results middle (h, hs) (p, ps) =
      (rw p h, HaveSpace-both (suc i) ops results middle hs ps)

module _ {S : Type 0} (jute : Jute Body)
    (serialize_multi_header : OArchive → MultiHeader → ℤ × OArchive) (calloc : ℕ → Bool)
    (zh : Handle) (replies : MultiReplies S) where
  -- For operations of known types with valid paths, on a handle that is not lost, where the
  -- archive takes all and there is memory: `zoo_amulti` comes to its critical section without an
  -- error, and a reply with one part for each operation, read through the completions that it has
  -- listed, answers each operation's result in its order and gives the first error that is none of
  -- an operation only skipped because of another. The buffers have the lengths that are told, and
  -- the request is no ping.
  pub deserialize_multi-amulti_request :
      (oa : OArchive) (xid : ℤ) (ops : List (Op S)) (results : ℕ → OpResult S)
      (parts : List (Reply S)) (ia : IArchive)
      → Succeeds jute serialize_multi_header calloc zh
      → AreValid zh ops
      → HaveBuffers 0 ops results
      → (xid ==ℤ ping_xid) ≡ false
      → AreFor (map completion_of ops) parts
      → Ahead replies (next_header replies ia) parts
      → (sent : Building S) × (amulti_request jute serialize_multi_header calloc zh oa xid ops
            results
          ≡ going sent)
        × (is_neg sent.rc ≡ false)
        × ((after : ℕ → OpResult S) × (deserialize_multi replies xid sent.clist ia sent.results
              ≡ some (first_error parts, after))
            × AreResults 0 ops parts results after)
  unfolding deserialize_multi
  deserialize_multi-amulti_request oa xid ops results parts ia s valid buffers ping for ahead =
      let (sent, run, ready, listed, pointers) =
        amulti_request-going jute serialize_multi_header calloc zh oa xid ops results s valid in
      let (after, answer, done, low) =
        answer_entries-IsDone replies xid 0 (map completion_of ops) parts (next_header replies ia)
          (pos 0) sent.results ping for (HaveSpace-both 0 ops results sent.results buffers pointers)
          ahead in
      (
        sent,
        run,
        ready,
        (
          after,
          rw listed answer,
          AreResults-both 0 ops parts results sent.results after for pointers done,
        ),
      )
