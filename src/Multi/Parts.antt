-- ===== src/Multi/Parts.antt =====
-- What one part of the reply makes of the result that its entry points to.
use elephants.Base.{
  ℕ, ◌≡◌, refl, ap, Bool, true, false, Option, none, some, List, ℤ, pos, ◌==ℤ◌, arith,
}
use elephants.Wire.IArchive.{IArchive}
use elephants.ZnodePath.{sub_string}
use elephants.Client.{
  CompletionType, completion_void, completion_stat, completion_string, completion_data,
  completion_stringlist, completion_stringlist_stat, completion_acllist, completion_watch,
}
use elephants.Session.{ping_xid}
use elephants.Session.Sync.{copy_string}
use elephants.Session.Sync.Fitting.{copy_string-fitting}
use elephants.Multi.{OpResult}
use elephants.Multi.Response.{
  MultiReplies, copied_value, put_value, op_result_string_completion, op_result_void_completion,
  op_result_stat_completion, put_stat, answer_entry,
}
use elephants.Multi.Answered.{
  failed, created, changed, finished, is_for, HasSpace, path_in, answered,
}

module _ {S : Type 0} where
  put_value-path_in :
      (err : ℤ) (r : OpResult S) (path : List ℕ) (value : Option (List ℕ))
      → HasSpace value r.valuelen
      → put_value err r value (some path)
        ≡ some (record r { err = err; value = path_in path value })
  unfolding copy_string sub_string
  put_value-path_in err r path none h = refl
  put_value-path_in err r path (some value) h =
      ap (copied_value err r)
        (copy_string-fitting none (record { len = r.valuelen; bytes = value }) path h)

  put_value-none :
      (err : ℤ) (r : OpResult S) (value : Option (List ℕ))
      → put_value err r value none ≡ some (record r { err = err; value = none })
  put_value-none err r none = refl
  put_value-none err r (some value) = refl

  put_stat-none : (m : Bool) (old : Option S) → put_stat m old none ≡ none
  put_stat-none true none = refl
  put_stat-none true (some s) = refl
  put_stat-none false old = refl

module _ {S : Type 0} (replies : MultiReplies S) (xid : ℤ) where
  pub entry-failed :
      (t : CompletionType) (err : ℤ) (r : OpResult S) (ia : IArchive)
      → (xid ==ℤ ping_xid) ≡ false
      → is_for {S = S} t (failed err) ≡ true
      → answer_entry replies xid t true err r ia ≡ some (answered t (failed err) r, ia)
  unfolding answer_entry op_result_string_completion op_result_void_completion
      op_result_stat_completion
  entry-failed completion_string err r ia ping for = rw (put_value-none err r r.value) refl
  entry-failed completion_stat err r ia ping for = rw (put_stat-none (err ==ℤ pos 0) r.stat) refl
  entry-failed completion_void err r ia ping for = rw ping refl
  entry-failed completion_data err r ia ping for = absurd (ground (arith, for))
  entry-failed completion_stringlist err r ia ping for = absurd (ground (arith, for))
  entry-failed completion_stringlist_stat err r ia ping for = absurd (ground (arith, for))
  entry-failed completion_acllist err r ia ping for = absurd (ground (arith, for))
  entry-failed completion_watch err r ia ping for = absurd (ground (arith, for))

  pub entry-created :
      (t : CompletionType) (err : ℤ) (path : List ℕ) (r : OpResult S) (ia : IArchive)
      → HasSpace r.value r.valuelen
      → (MultiReplies.deserialize_create_response replies ia).0 ≡ path
      → is_for {S = S} t (created err path) ≡ true
      → answer_entry replies xid t false err r ia
        ≡ some (
          answered t (created err path) r,
          (MultiReplies.deserialize_create_response replies ia).1,
        )
  unfolding answer_entry op_result_string_completion
  entry-created completion_string err path r ia space e for =
      rw (e, put_value-path_in err r path r.value space) refl
  entry-created completion_stat err path r ia space e for = absurd (ground (arith, for))
  entry-created completion_void err path r ia space e for = absurd (ground (arith, for))
  entry-created completion_data err path r ia space e for = absurd (ground (arith, for))
  entry-created completion_stringlist err path r ia space e for = absurd (ground (arith, for))
  entry-created completion_stringlist_stat err path r ia space e for = absurd (ground (arith, for))
  entry-created completion_acllist err path r ia space e for = absurd (ground (arith, for))
  entry-created completion_watch err path r ia space e for = absurd (ground (arith, for))

  pub entry-changed :
      (t : CompletionType) (err : ℤ) (stat : S) (r : OpResult S) (ia : IArchive)
      → (MultiReplies.deserialize_set_data_response replies ia).0 ≡ stat
      → is_for t (changed err stat) ≡ true
      → answer_entry replies xid t false err r ia
        ≡ some (
          answered t (changed err stat) r,
          (MultiReplies.deserialize_set_data_response replies ia).1,
        )
  unfolding answer_entry op_result_stat_completion
  entry-changed completion_stat err stat r ia e for = rw e refl
  entry-changed completion_string err stat r ia e for = absurd (ground (arith, for))
  entry-changed completion_void err stat r ia e for = absurd (ground (arith, for))
  entry-changed completion_data err stat r ia e for = absurd (ground (arith, for))
  entry-changed completion_stringlist err stat r ia e for = absurd (ground (arith, for))
  entry-changed completion_stringlist_stat err stat r ia e for = absurd (ground (arith, for))
  entry-changed completion_acllist err stat r ia e for = absurd (ground (arith, for))
  entry-changed completion_watch err stat r ia e for = absurd (ground (arith, for))

  pub entry-finished :
      (t : CompletionType) (err : ℤ) (r : OpResult S) (ia : IArchive)
      → (xid ==ℤ ping_xid) ≡ false
      → is_for {S = S} t (finished err) ≡ true
      → answer_entry replies xid t false err r ia ≡ some (answered t (finished err) r, ia)
  unfolding answer_entry op_result_void_completion
  entry-finished completion_void err r ia ping for = rw ping refl
  entry-finished completion_string err r ia ping for = absurd (ground (arith, for))
  entry-finished completion_stat err r ia ping for = absurd (ground (arith, for))
  entry-finished completion_data err r ia ping for = absurd (ground (arith, for))
  entry-finished completion_stringlist err r ia ping for = absurd (ground (arith, for))
  entry-finished completion_stringlist_stat err r ia ping for = absurd (ground (arith, for))
  entry-finished completion_acllist err r ia ping for = absurd (ground (arith, for))
  entry-finished completion_watch err r ia ping for = absurd (ground (arith, for))
