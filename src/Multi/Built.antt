-- ===== src/Multi/Built.antt =====
-- What `zoo_amulti` builds for its operations.
use elephants.Base.{
  ℕ, suc, ◌≤◌, ◌<◌, ◌≡◌, refl, sym, ap, ◌∙◌, Bool, true, false, some, List, [], ◌∷◌, ◌++◌, map,
  append-nil, append_assoc, ℤ, pos, negsuc, is_neg, arith,
}
use elephants.Wire.OArchive.{OArchive}
use elephants.ZnodePath.{prepend_string, is_valid_path}
use elephants.Frame.{zok}
use elephants.Client.{Handle, Jute, request_path_init, is_unrecoverable}
use elephants.Client.Requests.{create_request, delete_request, set_data_request, acl_or_none}
use elephants.Multi.{
  MultiHeader, Op, create_op, delete_op, set_op, check_op, other_op, OpResult, Body, Building,
  going, then_step, request, check_version_request, completion_of, pointed, write, init_op, add_op,
  add_ops, op_type, amulti_request, close_multi,
}
use elephants.Multi.Answered.{entries_from, write-same, write-other, write-below}

module _ {S : Type 0} where
  -- The path of an operation of a known type is valid on the server.
  abbrev pub IsValid : Handle → Op S → Type 0
  IsValid zh (create_op path value acl flags buf buflen) =
      is_valid_path (some (prepend_string zh.chroot path)) flags ≡ true
  IsValid zh (delete_op path version) =
      is_valid_path (some (prepend_string zh.chroot path)) 0 ≡ true
  IsValid zh (set_op path value version stat) =
      is_valid_path (some (prepend_string zh.chroot path)) 0 ≡ true
  IsValid zh (check_op path version) = is_valid_path (some (prepend_string zh.chroot path)) 0 ≡ true
  IsValid zh (other_op type) = false ≡ true

  abbrev pub AreValid : Handle → List (Op S) → Type 0
  AreValid zh [] = Unit
  AreValid zh (op ∷ ops) = IsValid zh op × AreValid zh ops

  -- From an index on, each result points to the memory of its operation.
  abbrev pub ArePointed : ℕ → List (Op S) → (ℕ → OpResult S) → (ℕ → OpResult S) → Type 0
  ArePointed i [] results after = (j : ℕ) → i ≤ j → after j ≡ results j
  ArePointed i (op ∷ ops) results after =
      (after i ≡ pointed op (results i)) × ArePointed (suc i) ops results after

  ArePointed-same :
      (i : ℕ) (ops : List (Op S)) (a b after : ℕ → OpResult S)
      → ((j : ℕ) → i ≤ j → a j ≡ b j)
      → ArePointed i ops a after
      → ArePointed i ops b after
  ArePointed-same i [] a b after same h = λ j le. h j le ∙ same j le
  ArePointed-same i (op ∷ ops) a b after same (e, h) = (
    e ∙ ap (pointed op) (same i (omega arith)),
    ArePointed-same (suc i) ops a b after (λ j le. same j (omega arith)) h,
  )

request_path_init-valid :
    (zh : Handle) (flags : ℕ) (path : List ℕ)
    → is_unrecoverable zh ≡ zok
    → is_valid_path (some (prepend_string zh.chroot path)) flags ≡ true
    → request_path_init (some zh) flags path ≡ (zok, prepend_string zh.chroot path)
unfolding request_path_init
request_path_init-valid zh flags path live valid = rw (valid, live) refl

-- The archives take what is written, there is memory, and the handle is not lost.
pub record Succeeds (jute : Jute Body)
    (serialize_multi_header : OArchive → MultiHeader → ℤ × OArchive) (calloc : ℕ → Bool)
    (zh : Handle) : Type 0 where
  pub header :
      (oa : OArchive) (xid op : ℤ) → is_neg (Jute.serialize_request_header jute oa xid op).0 ≡ false
  pub multi_header :
      (oa : OArchive) (h : MultiHeader) → is_neg (serialize_multi_header oa h).0 ≡ false
  pub body : (oa : OArchive) (b : Body) → is_neg (Jute.serialize_request jute oa b).0 ≡ false
  pub memory : (i : ℕ) → calloc i ≡ true
  pub live : is_unrecoverable zh ≡ zok

module _ {S : Type 0} (zh : Handle) where
  init_op-valid :
      (op : Op S)
      → is_unrecoverable zh ≡ zok
      → IsValid zh op
      → (body : Body) × (init_op zh op ≡ some (zok, body))
  unfolding init_op
  init_op-valid (create_op path value acl flags buf buflen) live h = (
    request (create_request (prepend_string zh.chroot path) value (acl_or_none acl) flags),
    rw (request_path_init-valid zh flags path live h) refl,
  )
  init_op-valid (delete_op path version) live h = (
    request (delete_request (prepend_string zh.chroot path) version),
    rw (request_path_init-valid zh 0 path live h) refl,
  )
  init_op-valid (set_op path value version stat) live h = (
    request (set_data_request (prepend_string zh.chroot path) value version),
    rw (request_path_init-valid zh 0 path live h) refl,
  )
  init_op-valid (check_op path version) live h = (
    check_version_request (prepend_string zh.chroot path) version,
    rw (request_path_init-valid zh 0 path live h) refl,
  )
  init_op-valid (other_op type) live h = absurd (ground (arith, h))

module _ {S : Type 0} (jute : Jute Body)
    (serialize_multi_header : OArchive → MultiHeader → ℤ × OArchive) (calloc : ℕ → Bool)
    (zh : Handle) where
  add_op-going :
      (i : ℕ) (op : Op S) (b : Building S)
      → Succeeds jute serialize_multi_header calloc zh
      → IsValid zh op
      → is_neg b.rc ≡ false
      → (b1 : Building S) × (add_op jute serialize_multi_header calloc zh i op b ≡ going b1)
        × (is_neg b1.rc ≡ false)
        × (b1.clist ≡ b.clist ++ record { type = completion_of op; result = i } ∷ [])
        × (b1.results ≡ write i (pointed op (b.results i)) b.results)
  unfolding add_op
  add_op-going i op b s valid ready =
      let (body, run) = init_op-valid zh op (Succeeds.live s) valid in
      let hdr : MultiHeader = record { type = op_type op; done = false; err = negsuc 0 } in
      let oa = (serialize_multi_header b.oa hdr).1 in
      let (rc1, oa1) = Jute.serialize_request jute oa body in
      (
        record {
          rc = rc1;
          oa = oa1;
          results = write i (pointed op (b.results i)) b.results;
          clist = b.clist ++ record { type = completion_of op; result = i } ∷ [];
        },
        rw (ready, run, Succeeds.multi_header s b.oa hdr, Succeeds.memory s i) refl,
        Succeeds.body s oa body,
        refl,
        refl,
      )

  add_ops-going :
      (i : ℕ) (ops : List (Op S)) (b : Building S)
      → Succeeds jute serialize_multi_header calloc zh
      → AreValid zh ops
      → is_neg b.rc ≡ false
      → (end : Building S) × (add_ops jute serialize_multi_header calloc zh i ops b ≡ going end)
        × (is_neg end.rc ≡ false)
        × (end.clist ≡ b.clist ++ entries_from i (map completion_of ops))
        × ArePointed i ops b.results end.results
        × ((j : ℕ) → j < i → end.results j ≡ b.results j)
  unfolding add_ops
  add_ops-going i [] b s valid ready =
      (b, refl, ready, sym (append-nil b.clist), (λ j le. refl), (λ j lt. refl))
  add_ops-going i (op ∷ ops) b s (valid, more) ready =
      let (b1, run, ready1, listed, written) = add_op-going i op b s valid ready in
      let (end, runs, ready2, all, pointers, low) = add_ops-going (suc i) ops b1 s more ready1 in
      let new = pointed op (b.results i) in
      (
        end,
        ap
              (λ step.
                then_step step (λ b. add_ops jute serialize_multi_header calloc zh (suc i) ops b))
              run
            ∙ runs,
        ready2,
        all
            ∙ rw listed (
                append_assoc b.clist (record { type = completion_of op; result = i } ∷ [])
                  (entries_from (suc i) (map completion_of ops))),
        (
          low i (omega arith) ∙ ap (λ r. r i) written ∙ write-same i new b.results,
          ArePointed-same (suc i) ops b1.results b.results end.results
              (λ j le. ap (λ r. r j) written ∙ write-other i j new b.results le) pointers,
        ),
        (λ j lt. low j (omega arith) ∙ ap (λ r. r j) written ∙ write-below i j new b.results lt),
      )

  -- The archive is closed with a header, and nothing else is done.
  pub amulti_request-going :
      (oa : OArchive) (xid : ℤ) (ops : List (Op S)) (results : ℕ → OpResult S)
      → Succeeds jute serialize_multi_header calloc zh
      → AreValid zh ops
      → (end : Building S) × (amulti_request jute serialize_multi_header calloc zh oa xid ops
            results
          ≡ going end)
        × (is_neg end.rc ≡ false)
        × (end.clist ≡ entries_from 0 (map completion_of ops))
        × ArePointed 0 ops results end.results
  unfolding amulti_request
  amulti_request-going oa xid ops results s valid =
      let start : Building S = record {
        rc = (Jute.serialize_request_header jute oa xid (pos 14)).0;
        oa = (Jute.serialize_request_header jute oa xid (pos 14)).1;
        results = results;
        clist = [];
      } in
      let (b, run, ready, listed, pointers, low) =
        add_ops-going 0 ops start s valid (Succeeds.header s oa xid (pos 14)) in
      let last : MultiHeader = record { type = negsuc 0; done = true; err = negsuc 0 } in
      let (rc1, oa1) = serialize_multi_header b.oa last in
      let end : Building S = record b { rc = rc1; oa = oa1 } in
      let closed : close_multi jute serialize_multi_header calloc zh b ≡ going end =
        rw ready refl in
      (
        end,
        ap (λ step. then_step step (close_multi jute serialize_multi_header calloc zh)) run
            ∙ closed,
        Succeeds.multi_header s b.oa last,
        listed,
        pointers,
      )
