-- ===== src/Multi.antt =====
-- zookeeper.c: several operations in one request. `zoo_amulti` up to its critical section, that is
-- the archive, the results' memory and the list of completions, one for each operation.
-- Multi/Response has `deserialize_multi`, which answers these completions from the server's reply.
pub mod Response
pub mod Answered
pub mod Parts
pub mod Replies
pub mod Built
pub mod Exchange
pub mod Invalid
use elephants.Base.{
  ℕ, zero, suc, ◌+◌, Bool, true, false, not, ◌&&◌, ◌||◌, Option, none, some, List, [], ◌∷◌, ◌++◌, ℤ,
  pos, negsuc, ◌==ℤ◌, ltb_ℤ, is_neg, ◌==◌, length, if◌then◌else◌,
}
use elephants.Wire.OArchive.{OArchive}
use elephants.Client.{
  CompletionType, completion_void, completion_stat, completion_string, Handle, Jute, unless_failed,
  request_path_init,
}
use elephants.Client.Requests.{
  Acl, Request, create_request, delete_request, set_data_request, acl_or_none,
}

abbrev pub zunimplemented : ℤ
zunimplemented = negsuc 5

pub record MultiHeader : Type 0 where
  pub type : ℤ
  pub done : Bool
  pub err : ℤ

-- The bodies of the operations.
pub data Body : Type 0 where
  request : Request → Body
  check_version_request : List ℕ → ℤ → Body

-- `zoo_op_t`, with the memory that its pointers stand for; `S` is `struct Stat`.
pub data Op (S : Type 0) : Type 0 where
  create_op : List ℕ → List ℕ → Option (List Acl) → ℕ → Option (List ℕ) → ℤ → Op S
  delete_op : List ℕ → ℤ → Op S
  set_op : List ℕ → List ℕ → ℤ → Option S → Op S
  check_op : List ℕ → ℤ → Op S
  other_op : ℤ → Op S

-- `zoo_op_result_t`, likewise.
pub record OpResult (S : Type 0) : Type 0 where
  pub err : ℤ
  pub value : Option (List ℕ)
  pub valuelen : ℤ
  pub stat : Option S

-- A completion in `clist`, and the index of the result that its data points to.
pub record Entry : Type 0 where
  pub type : CompletionType
  pub result : ℕ

-- The variables of `zoo_amulti` in its loop.
pub record Building (S : Type 0) : Type 0 where
  pub rc : ℤ
  pub oa : OArchive
  pub results : ℕ → OpResult S
  pub clist : List Entry

-- What becomes of the loop: an operation of an unknown type ends the function, and what C leaves
-- undefined is a value of its own.
pub data Step (S : Type 0) : Type 0 where
  going : Building S → Step S
  unimplemented : (ℕ → OpResult S) → Step S
  undefined : Step S

abbrev pub then_step : {S : Type 0} → Step S → (Building S → Step S) → Step S
then_step (going b) f = f b
then_step (unimplemented results) f = unimplemented results
then_step undefined f = undefined

abbrev pub then_body : ℤ × List ℕ → (List ℕ → Body) → ℤ × Body
then_body (rc, path) f = (rc, f path)

abbrev pub has_chroot : Handle → Bool
has_chroot zh = elim zh.chroot [ none ↦ false | some chroot ↦ true ]

module _ {S : Type 0} where
  unfoldable pub zoo_create_op_init :
      List ℕ → List ℕ → Option (List Acl) → ℕ → Option (List ℕ) → ℤ → Op S
  zoo_create_op_init path value acl flags path_buffer path_buffer_len =
      create_op path value acl flags path_buffer path_buffer_len

  unfoldable pub zoo_delete_op_init : List ℕ → ℤ → Op S
  zoo_delete_op_init path version = delete_op path version

  unfoldable pub zoo_set_op_init : List ℕ → List ℕ → ℤ → Option S → Op S
  zoo_set_op_init path buffer version stat = set_op path buffer version stat

  unfoldable pub zoo_check_op_init : List ℕ → ℤ → Op S
  zoo_check_op_init path version = check_op path version

  abbrev pub op_type : Op S → ℤ
  op_type (create_op path value acl flags buf buflen) = pos 1
  op_type (delete_op path version) = pos 2
  op_type (set_op path value version stat) = pos 5
  op_type (check_op path version) = pos 13
  op_type (other_op type) = type

  abbrev pub completion_of : Op S → CompletionType
  completion_of (create_op path value acl flags buf buflen) = completion_string
  completion_of (set_op path value version stat) = completion_stat
  completion_of _ = completion_void

  -- `CreateRequest_init`, `DeleteRequest_init`, `SetDataRequest_init` and
  -- `CheckVersionRequest_init`; any other type has none.
  unfoldable pub init_op : Handle → Op S → Option (ℤ × Body)
  unfolding request_path_init
  init_op zh (create_op path value acl flags buf buflen) = some (
      then_body (request_path_init (some zh) flags path)
        (λ p. request (create_request p value (acl_or_none acl) flags)))
  init_op zh (delete_op path version) =
      some
        (then_body (request_path_init (some zh) 0 path) (λ p. request (delete_request p version)))
  init_op zh (set_op path value version stat) = some (
      then_body (request_path_init (some zh) 0 path)
        (λ p. request (set_data_request p value version)))
  init_op zh (check_op path version) =
      some (then_body (request_path_init (some zh) 0 path) (λ p. check_version_request p version))
  init_op zh (other_op type) = none

  -- `result->value`, `result->valuelen` and `result->stat`.
  abbrev pub pointed : Op S → OpResult S → OpResult S
  pointed (create_op path value acl flags buf buflen) r = record r {
    value = buf;
    valuelen = buflen;
  }
  pointed (set_op path value version stat) r = record r { stat = stat }
  pointed _ r = r

  -- `results[i]`
  abbrev pub write : ℕ → OpResult S → (ℕ → OpResult S) → ℕ → OpResult S
  write i r results j = if j == i then r else results j

module _ {S : Type 0} (jute : Jute Body)
    (serialize_multi_header : OArchive → MultiHeader → ℤ × OArchive) (calloc : ℕ → Bool)
    (zh : Handle) where
  -- An operation after its multi header: `free_duplicate_path(req.path, ...)` is given a path that
  -- was never set when an earlier code is negative, and one that `Request_path_init` has freed
  -- when that fails below a chroot; a completion for which there is no memory is written through a
  -- null pointer.
  abbrev pub add_body : ℕ → Op S → ℤ × OArchive → Building S → Option (ℤ × Body) → Step S
  add_body i op (rc, oa) b none = unimplemented b.results
  add_body i op (rc, oa) b (some (rc1, body)) =
      let (rc2, oa2) = unless_failed (rc1, oa) (λ oa. Jute.serialize_request jute oa body) in
      if is_neg rc || ((is_neg rc1 && has_chroot zh) || not (calloc i))
      then undefined
      else going (record {
        rc = rc2;
        oa = oa2;
        results = write i (pointed op (b.results i)) b.results;
        clist = b.clist ++ record { type = completion_of op; result = i } ∷ [];
      })

  -- One round of the loop of `zoo_amulti`.
  unfoldable pub add_op : ℕ → Op S → Building S → Step S
  unfolding init_op
  add_op i op b =
      add_body i op
        (unless_failed (b.rc, b.oa)
          (λ oa.
            serialize_multi_header oa (record { type = op_type op; done = false; err = negsuc 0 })))
        b (init_op zh op)

  unfoldable pub add_ops : ℕ → List (Op S) → Building S → Step S
  unfolding add_op
  add_ops i [] b = going b
  add_ops i (op ∷ ops) b = then_step (add_op i op b) (λ b1. add_ops (suc i) ops b1)

  abbrev pub close_multi : Building S → Step S
  close_multi b =
      let (rc, oa) =
        unless_failed (b.rc, b.oa)
          (λ oa.
            serialize_multi_header oa (record { type = negsuc 0; done = true; err = negsuc 0 })) in
      going (record b { rc = rc; oa = oa })

  -- `zoo_amulti` until its critical section.
  unfoldable pub amulti_request : OArchive → ℤ → List (Op S) → (ℕ → OpResult S) → Step S
  unfolding add_ops
  amulti_request oa xid ops results =
      let (rc, oa1) = Jute.serialize_request_header jute oa xid (pos 14) in
      then_step (add_ops 0 ops (record { rc = rc; oa = oa1; results = results; clist = [] }))
        close_multi
