-- ===== src/Tests/Multi.antt =====
-- Two operations in one request, and a reply that says that the second failed.
use elephants.Base.{
  ℕ, ◌≡◌, refl, Bool, true, false, none, some, List, [], ◌∷◌, ℤ, pos, negsuc, is_neg, ◌==◌, drop,
  if◌then◌else◌,
}
use elephants.Wire.OArchive.{OArchive}
use elephants.Wire.IArchive.{IArchive}
use elephants.Client.{Handle, Jute, is_unrecoverable}
use elephants.ZnodePath.{is_valid_path, prepend_string, check_from}
use elephants.Multi.{
  MultiHeader, Op, create_op, delete_op, OpResult, Body, Building, going, amulti_request,
}
use elephants.Multi.Response.{MultiReplies, deserialize_multi}
use elephants.Multi.Answered.{Reply, failed, created, first_error}
use elephants.Multi.Built.{AreValid, Succeeds}
use elephants.Multi.Exchange.{AreResults, deserialize_multi-amulti_request}

abbrev handle : Handle
handle = record {
  state = pos 3;
  chroot = none;
  watcher = record { watcher = 0; context = 0 };
  close_requested = 0;
  outstanding_sync = 0;
  sent_requests = [];
  to_send = [];
  wire = [];
}

abbrev archive : OArchive
archive = record { len = 128; off = 0; buffer = some [] }

-- The generated functions, with a byte for each part.
abbrev jute : Jute Body
jute = record {
  serialize_request_header = λ oa xid op. (pos 0, oa);
  serialize_request = λ oa body. (pos 0, oa);
}

abbrev multi_header : OArchive → MultiHeader → ℤ × OArchive
multi_header oa h = (pos 0, oa)

abbrev always : ℕ → Bool
always n = true

succeeds : Succeeds jute multi_header always handle
unfolding is_unrecoverable
succeeds = record {
  header = λ oa xid op. refl;
  multi_header = λ oa h. refl;
  body = λ oa b. refl;
  memory = λ i. refl;
  live = refl;
}

abbrev ops : List (Op ℕ)
ops =
    create_op (47 ∷ 97 ∷ []) [] none 0 (some (1 ∷ 1 ∷ [])) (pos 2)
    ∷ delete_op (47 ∷ 98 ∷ []) (pos 0)
    ∷ []

abbrev results : ℕ → OpResult ℕ
results i = record { err = pos 9; value = none; valuelen = pos 0; stat = none }

-- A first byte of 1 is the header of a result, of 2 that of an error, and any other ends the reply.
abbrev rest_of : IArchive → IArchive
rest_of ia = record ia { buffer = drop 1 ia.buffer }

abbrev header_of : List ℕ → MultiHeader
header_of [] = record { type = negsuc 0; done = true; err = negsuc 0 }
header_of (b ∷ bytes) =
    if b == 1
    then record { type = pos 1; done = false; err = pos 0 }
    else record { type = negsuc 0; done = false; err = pos 0 }

abbrev byte_parts : MultiReplies ℕ
byte_parts = record {
  deserialize_multi_header = λ ia. (header_of ia.buffer, rest_of ia);
  deserialize_error_response = λ ia. (negsuc 100, ia);
  deserialize_create_response = λ ia. (47 ∷ 97 ∷ [], ia);
  deserialize_set_data_response = λ ia. (0, ia);
}

abbrev reply : IArchive
reply = record { len = 2; off = 0; buffer = 1 ∷ 2 ∷ [] }

abbrev parts : List (Reply ℕ)
parts = created (pos 0) (47 ∷ 97 ∷ []) ∷ failed (negsuc 100) ∷ []

ops-AreValid : AreValid handle ops
unfolding is_valid_path prepend_string check_from
ops-AreValid = (refl, (refl, tt))

deserialize_multi-amulti_request_example :
    (sent : Building ℕ) × (amulti_request jute multi_header always handle archive
        (pos 7)
        ops
        results
      ≡ going sent)
    × (is_neg sent.rc ≡ false)
    × ((after : ℕ → OpResult ℕ) × (deserialize_multi byte_parts
            (pos 7)
            sent.clist
            reply
            sent.results
          ≡ some (first_error parts, after))
        × AreResults 0 ops parts results after)
deserialize_multi-amulti_request_example =
    deserialize_multi-amulti_request jute multi_header always handle byte_parts archive (pos 7) ops
      results parts reply succeeds ops-AreValid (refl, (tt, tt)) refl (refl, (refl, tt))
      (refl, refl, refl, refl, (refl, refl, refl, refl))

-- The path does not begin with a slash.
abbrev bad_op : Op ℕ
bad_op = delete_op (97 ∷ []) (pos 0)
