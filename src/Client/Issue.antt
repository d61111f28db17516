-- ===== src/Client/Issue.antt =====
-- The requests of the API together: which are refused, and what they leave of a handle.
use elephants.Base.{
  ℕ, ◌≤◌, ◌≡◌, refl, false, not, Option, none, some, List, ℤ, ◌==ℤ◌, is_neg, arith, Bool-cases, inl,
  inr, if◌then◌else◌,
}
use elephants.ZnodePath.{prepend_string, is_valid_path}
use elephants.Watch.{WatcherObject}
use elephants.Frame.{zok}
use elephants.Client.{
  Handle, Jute, Outcome, Submission, submit, with_path, request_path_init, is_unrecoverable,
  zbadarguments, zinvalidstate,
}
use elephants.Client.Requests.{
  Acl, Request, Ticket, zoo_awget, zoo_aset, zoo_acreate, zoo_adelete, zoo_awexists,
  zoo_awget_children, zoo_awget_children2, zoo_async, zoo_aget_acl, zoo_aset_acl,
}
use elephants.Client.Accounts.{IsAccounted, submit-IsAccounted}

-- The functions of the API, by their arguments besides the handle and the ticket.
pub data Call : Type 0 where
  awget awexists awget_children awget_children2 : List ℕ → WatcherObject → Call
  aset : List ℕ → List ℕ → ℤ → Call
  acreate : List ℕ → List ℕ → Option (List Acl) → ℕ → Call
  adelete : List ℕ → ℤ → Call
  async aget_acl : List ℕ → Call
  aset_acl : List ℕ → ℤ → List Acl → Call

abbrev pub path_of : Call → List ℕ
path_of (awget path wo) = path
path_of (awexists path wo) = path
path_of (awget_children path wo) = path
path_of (awget_children2 path wo) = path
path_of (aset path buffer version) = path
path_of (acreate path value acl flags) = path
path_of (adelete path version) = path
path_of (async path) = path
path_of (aget_acl path) = path
path_of (aset_acl path version acl) = path

abbrev pub flags_of : Call → ℕ
flags_of (acreate path value acl flags) = flags
flags_of _ = 0

module _ (jute : Jute Request) (outcome : Outcome) (t : Ticket) where
  unfoldable pub issue : Option Handle → Call → ℤ × Option Handle
  issue zh (awget path wo) = zoo_awget jute outcome t zh path wo
  issue zh (awexists path wo) = zoo_awexists jute outcome t zh path wo
  issue zh (awget_children path wo) = zoo_awget_children jute outcome t zh path wo
  issue zh (awget_children2 path wo) = zoo_awget_children2 jute outcome t zh path wo
  issue zh (aset path buffer version) = zoo_aset jute outcome t zh path buffer version
  issue zh (acreate path value acl flags) = zoo_acreate jute outcome t zh path value acl flags
  issue zh (adelete path version) = zoo_adelete jute outcome t zh path version
  issue zh (async path) = zoo_async jute outcome t zh path
  issue zh (aget_acl path) = zoo_aget_acl jute outcome t zh path
  issue zh (aset_acl path version acl) = zoo_aset_acl jute outcome t zh path version acl

  -- Every request is the same submission, of a body and a completion of its own, behind the tests of
  -- its path and of the handle.
  issue-with_path :
      (zh : Option Handle) (call : Call)
      → (s : List ℕ → Submission Request) × (issue zh call
          ≡ with_path zh (flags_of call) (path_of call) (λ p. submit jute outcome (s p)))
        × ((p : List ℕ) → ((s p).oa ≡ t.oa) × ((s p).xid ≡ t.xid) × ((s p).dc ≡ t.dc))
  unfolding issue zoo_awget zoo_aset zoo_acreate zoo_adelete zoo_awexists zoo_awget_children
      zoo_awget_children2 zoo_async zoo_aget_acl zoo_aset_acl
  issue-with_path zh (awget path wo) = (_, refl, λ p. (refl, refl, refl))
  issue-with_path zh (awexists path wo) = (_, refl, λ p. (refl, refl, refl))
  issue-with_path zh (awget_children path wo) = (_, refl, λ p. (refl, refl, refl))
  issue-with_path zh (awget_children2 path wo) = (_, refl, λ p. (refl, refl, refl))
  issue-with_path zh (aset path buffer version) = (_, refl, λ p. (refl, refl, refl))
  issue-with_path zh (acreate path value acl flags) = (_, refl, λ p. (refl, refl, refl))
  issue-with_path zh (adelete path version) = (_, refl, λ p. (refl, refl, refl))
  issue-with_path zh (async path) = (_, refl, λ p. (refl, refl, refl))
  issue-with_path zh (aget_acl path) = (_, refl, λ p. (refl, refl, refl))
  issue-with_path zh (aset_acl path version acl) = (_, refl, λ p. (refl, refl, refl))

  -- The code that a request is refused with, or ZOK.
  abbrev pub refusal : Handle → Call → ℤ
  refusal zh call =
      if not (is_valid_path (some (prepend_string zh.chroot (path_of call))) (flags_of call))
      then zbadarguments
      else if is_neg zh.state
      then zinvalidstate
      else zok

  -- A request with an invalid path or on an expired handle is answered with the error for that,
  -- the path's first, and one through a NULL handle with ZBADARGUMENTS; each leaves the handle as
  -- it was, with nothing queued.
  pub issue-refused :
      (zh : Handle) (call : Call)
      → (refusal zh call ==ℤ zok) ≡ false
      → (issue none call ≡ (zbadarguments, none))
        × (issue (some zh) call ≡ (refusal zh call, some zh))
  unfolding request_path_init is_unrecoverable
  issue-refused zh call refused =
      let (s, e, same) = issue-with_path (some zh) call in
      let (s0, e0, same0) = issue-with_path none call in
      let valid = is_valid_path (some (prepend_string zh.chroot (path_of call))) (flags_of call) in
      (
        e0,
        rw e (elim (Bool-cases valid) [
          | inr bad ↦ rw bad
          | inl good ↦ elim (Bool-cases (is_neg zh.state)) [
            | inl expired ↦ rw (good, expired)
            | inr alive ↦ absurd (ground (arith, rw (good, alive) at refused))
          ]
        ]),
      )

  abbrev pub IsOptionAccounted : Option Handle → Type 0
  IsOptionAccounted none = 0 ≤ 0
  IsOptionAccounted (some zh) = IsAccounted zh

  -- If `outstanding_sync` is the number of completions in the queue that a blocked caller waits
  -- for, it is so after a request too, whatever the outcome of that.
  pub issue-IsAccounted :
      (zh : Option Handle) (call : Call)
      → IsOptionAccounted zh
      → IsOptionAccounted (issue zh call).1
  issue-IsAccounted none call h = let (s, e, same) = issue-with_path none call in rw e h
  issue-IsAccounted (some zh) call h =
      let (s, e, same) = issue-with_path (some zh) call in
      let server = (request_path_init (some zh) (flags_of call) (path_of call)).1 in
      rw e
        (elim (Bool-cases
          ((request_path_init (some zh) (flags_of call) (path_of call)).0 ==ℤ zok)) [
            | inl goes ↦ rw goes (submit-IsAccounted jute outcome (s server) zh h)
            | inr stops ↦ rw stops h
          ])
