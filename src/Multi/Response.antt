-- ===== src/Multi/Response.antt =====
-- zookeeper.c: the reply to several operations, one part for each. An entry of the list of
-- completions is dequeued for each part, and its function writes the operation's result.
use elephants.Base.{
  ℕ, ◌+◌, Bool, true, false, not, ◌&&◌, Option, none, some, List, [], ◌∷◌, ℤ, pos, negsuc, ◌==ℤ◌,
  ltb_ℤ, length, if◌then◌else◌,
}
use elephants.Wire.IArchive.{IArchive}
use elephants.Client.{CompletionType, completion_void, completion_stat, completion_string}
use elephants.Session.{ping_xid}
use elephants.Session.Sync.{Copied, copied, no_data, overrun, copy_path}
use elephants.Multi.{MultiHeader, OpResult, Entry, write}

abbrev pub zruntimeinconsistency : ℤ
zruntimeinconsistency = negsuc 1

-- The generated functions for the parts of a reply; their codes are not tested.
pub record MultiReplies (S : Type 0) : Type 0 where
  pub deserialize_multi_header : IArchive → MultiHeader × IArchive
  pub deserialize_error_response : IArchive → ℤ × IArchive
  pub deserialize_create_response : IArchive → List ℕ × IArchive
  pub deserialize_set_data_response : IArchive → S × IArchive

module _ {S : Type 0} where
  abbrev pub copied_value : ℤ → OpResult S → Copied → Option (OpResult S)
  copied_value err r (copied space) = some (record r { err = err; value = some space.bytes })
  copied_value err r (no_data space) = some (record r { err = err; value = none })
  copied_value err r overrun = none

  abbrev pub put_value : ℤ → OpResult S → Option (List ℕ) → Option (List ℕ) → Option (OpResult S)
  put_value err r (some value) (some path) =
      let len = pos (length path + 1) in
      copied_value err r (
        copy_path (record { len = r.valuelen; bytes = value }) path
          (if ltb_ℤ r.valuelen len then r.valuelen else len))
  put_value err r _ _ = some (record r { err = err; value = none })

  -- The completions of the operations' results; `none` where a copy leaves its memory.
  unfoldable pub op_result_string_completion :
      ℤ → Option (List ℕ) → OpResult S → Option (OpResult S)
  op_result_string_completion err value r = put_value err r r.value value

  unfoldable pub op_result_void_completion : ℤ → OpResult S → OpResult S
  op_result_void_completion err r = record r { err = err }

  abbrev pub put_stat : Bool → Option S → Option S → Option S
  put_stat true (some old) (some new) = some new
  put_stat _ _ _ = none

  unfoldable pub op_result_stat_completion : ℤ → Option S → OpResult S → OpResult S
  op_result_stat_completion err stat r = record r {
    err = err;
    stat = put_stat (err ==ℤ pos 0) r.stat stat;
  }

  abbrev pub ahead : Option (OpResult S) → IArchive → Option (OpResult S × IArchive)
  ahead none ia = none
  ahead (some r) ia = some (r, ia)

module _ {S : Type 0} (replies : MultiReplies S) where
  -- `if (mhdr.type == -1)`: the header's error, the code of the whole, and the rest of the reply.
  abbrev pub read_error : MultiHeader → ℤ → IArchive → ℤ × ℤ × IArchive
  read_error mhdr rc ia =
      let (err, rest) = MultiReplies.deserialize_error_response replies ia in
      if mhdr.type ==ℤ negsuc 0
      then (
        err,
        if (rc ==ℤ pos 0) && (not (err ==ℤ pos 0) && not (err ==ℤ zruntimeinconsistency))
            then err
            else rc,
        rest,
      )
      else (mhdr.err, rc, ia)

  abbrev pub next_header : IArchive → MultiHeader × IArchive
  next_header ia = MultiReplies.deserialize_multi_header replies ia

module _ {S : Type 0} (replies : MultiReplies S) (xid : ℤ) where
  -- `deserialize_response` of an entry of `clist`, whose types are these three.
  unfoldable pub answer_entry :
      CompletionType → Bool → ℤ → OpResult S → IArchive → Option (OpResult S × IArchive)
  unfolding op_result_string_completion op_result_void_completion op_result_stat_completion
  answer_entry completion_string true rc r ia = ahead (op_result_string_completion rc none r) ia
  answer_entry completion_string false rc r ia =
      let (path, rest) = MultiReplies.deserialize_create_response replies ia in
      ahead (op_result_string_completion rc (some path) r) rest
  answer_entry completion_stat true rc r ia = some (op_result_stat_completion rc none r, ia)
  answer_entry completion_stat false rc r ia =
      let (stat, rest) = MultiReplies.deserialize_set_data_response replies ia in
      some (op_result_stat_completion rc (some stat) r, rest)
  answer_entry completion_void failed rc r ia =
      some (if xid ==ℤ ping_xid then r else op_result_void_completion rc r, ia)
  answer_entry _ failed rc r ia = none

  -- The loop of `deserialize_multi`, which asserts that an entry is left.
  unfoldable pub answer_entries :
      List Entry → MultiHeader × IArchive → ℤ → (ℕ → OpResult S) → Option (ℤ × (ℕ → OpResult S))
  unfolding answer_entry
  answer_entries [] (mhdr, ia) rc results = if mhdr.done then some (rc, results) else none
  answer_entries (entry ∷ clist) (mhdr, ia) rc results =
      let (err, rc1, ia1) = read_error replies mhdr rc ia in
      let later : Option (OpResult S × IArchive) → Option (ℤ × (ℕ → OpResult S)) = λ answered.
        elim answered [
          | none ↦ none
          | some (r, rest) ↦
              answer_entries clist (next_header replies rest) rc1 (write entry.result r results)
        ] in
      if mhdr.done
      then some (rc, results)
      else later (answer_entry entry.type (mhdr.type ==ℤ negsuc 0) err (results entry.result) ia1)

  unfoldable pub deserialize_multi :
      List Entry → IArchive → (ℕ → OpResult S) → Option (ℤ × (ℕ → OpResult S))
  unfolding answer_entries
  deserialize_multi clist ia results = answer_entries clist (next_header replies ia) (pos 0) results
