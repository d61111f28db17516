-- ===== src/Tests.antt =====
-- Concrete inputs at which the theorems on the client library apply.
mod Table
mod Session
mod Sync
mod Cells
mod Connect
mod Trees
mod Multi
use elephants.Base.{
  ℕ, ◌+◌, ◌*◌, ◌^◌, ◌≤◌, ◌<◌, ◌≡◌, ◌≢◌, ◌↔◌, ◌⊎◌, refl, Bool, true, false, not, ◌&&◌, ◌||◌, Option,
  none, some, List, [], ◌∷◌, ◌++◌, ℤ, pos, negsuc, arith, inl, inr, map, length, ltb, zero, suc,
  if◌then◌else◌, is_neg,
}
use elephants.Tests.Table.{assoc_table}
use elephants.Wire.Word.{htonll, memory_image, be64, htonll-memory_image}
use elephants.Wire.OArchive.{
  OArchive, Run, ret, ok, einval, enomem, int_max, grow, create_buffer_oarchive, get_buffer,
  get_buffer_len, oa_serialize_string,
}
use elephants.Wire.OArchive.Bounds.{grow_lem, IsOpen, Appended}
use elephants.Wire.OArchive.Encode.{
  Field, int, long, bool, buffer, string, IsField, Reports, All, Fits, encode_all, serialize_all,
  serialize_all-Appended,
}
use elephants.Wire.IArchive.{
  IArchive, Read, got, failed, create_buffer_iarchive, ia_deserialize_string,
}
use elephants.Wire.IArchive.Decode.{
  Kind, int_kind, string_kind, kind, normal, IsReadable, IsAt, Gets, deserialize_all,
  deserialize_all-Gets,
}
use elephants.Wire.IArchive.Safety.{InBounds, IsSafe, deserialize_all-IsSafe}
use elephants.Wire.RoundTrip.{
  deserialize_all-serialize_all, ia_deserialize_string-null, oa_serialize_string-hides_failure,
}
use elephants.ZnodePath.{slash, check_from, prepend_string, sub_string, is_valid_path}
use elephants.ZnodePath.Chroot.{sub_string-prepend_string, prepend_string-sub_string}
use elephants.ZnodePath.Components.{all_names, components}
use elephants.ZnodePath.Validity.{is_valid_path-all_names}
use elephants.Watch.{
  WatcherObject, Watchers, Registration, Which, node, exist, child, same_watcher, copy_watchers,
  string_equal, collect_watchers, activate_watcher, deleted_event, zoo_session_event,
  exists_result_checker,
}
use elephants.Watch.Lists.{is_in, no_dups, copy_watchers-moves}
use elephants.Watch.Collect.{
  reaches, table, watchers_at, is_in-collect_watchers, no_dups-collect_watchers,
  watchers_at-collect_watchers, is_in-collect_watchers_session,
}
use elephants.Watch.Activate.{
  selects, IsDuplicateFree, is_in-activate_watcher, activate_watcher-IsDuplicateFree,
}
use elephants.Frame.{
  Incoming, recv_buffer, Packet, Attempt, up_to, would_block, Round, flush_send_queue,
}
use elephants.Frame.Flush.{IsFlushed, returns, flush_send_queue-IsFlushed, flush_send_queue-returns}
use elephants.Client.{
  Callback, synchronous_marker, Handle, Jute, Memory, Outcome, threaded, zbadarguments,
  zinvalidstate,
}
use elephants.Client.Blocking.{SyncCompletion, blocking, blocking-refused}
use elephants.Frame.Receive.{unallocated, recv_buffer-stalls}
use elephants.Client.Requests.{Request, Ticket}
use elephants.Client.Accounts.{IsAccounted}
use elephants.Client.Issue.{
  Call, awexists, path_of, flags_of, issue, refusal, IsOptionAccounted, issue-refused,
  issue-IsAccounted,
}

abbrev always : ℕ → Bool
always n = true

abbrev never : ℕ → Bool
never n = false

-- A header and a path.
abbrev fields : List Field
fields = int (pos 1) ∷ int (negsuc 10) ∷ string (some (b'/' ∷ b'a' ∷ [])) ∷ []

abbrev new_archive : OArchive
new_archive = record { len = 128; off = 0; buffer = some [] }

new_archive-IsOpen : IsOpen new_archive []
new_archive-IsOpen = record {
  holds = refl;
  at = refl;
  within = omega arith;
  least = omega arith;
  bounded = omega arith;
}

fields-IsField : All IsField fields
fields-IsField = (omega arith, (omega arith, (omega arith, tt)))

serialize_all-Appended_example :
    Appended always [] (encode_all fields) (serialize_all always false fields new_archive)
serialize_all-Appended_example =
    serialize_all-Appended always false fields new_archive [] new_archive-IsOpen fields-IsField
      (tt, (tt, (tt, tt))) (omega arith)

deserialize_all-serialize_all_example :
    (oa' : OArchive) × (bytes : List ℕ) × (ia : IArchive) × (ia' : IArchive) × (serialize_all always
        false fields new_archive
      ≡ ret ok oa')
    × (get_buffer oa' ≡ some bytes)
    × (create_buffer_iarchive true true bytes (get_buffer_len oa') ≡ some ia)
    × (deserialize_all always true (map kind fields) ia ≡ got (map normal fields) ia')
    × (ia'.off ≡ length ia'.buffer)
unfolding create_buffer_oarchive
deserialize_all-serialize_all_example =
    deserialize_all-serialize_all always always false true fields new_archive (λ n h. refl)
      (λ n h. refl) fields-IsField (tt, (tt, (tt, tt))) (omega arith) refl

-- The fields in memory, with a byte after them.
abbrev packet : IArchive
packet = record { len = 15; off = 0; buffer = encode_all fields ++ 7 ∷ [] }

abbrev below_2_63 : ℕ → Bool
below_2_63 n = ltb n (2 ^ 63)

-- Four bytes of memory do not hold a number and a string.
abbrev short_packet : IArchive
short_packet = record { len = 4; off = 0; buffer = 0 ∷ 0 ∷ 0 ∷ 9 ∷ [] }

deserialize_all-IsSafe_example :
    IsSafe 4 short_packet.buffer
      (deserialize_all below_2_63 false (int_kind ∷ string_kind ∷ []) short_packet)
deserialize_all-IsSafe_example =
    deserialize_all-IsSafe 4 short_packet.buffer (omega arith) below_2_63 (λ n h. ground arith)
      false (int_kind ∷ string_kind ∷ []) short_packet
      (record { same_len = refl; same_buffer = refl; before_end = omega arith })

abbrev zero_bytes : ℕ → List ℕ
zero_bytes zero = []
zero_bytes (suc n) = 0 ∷ zero_bytes n

-- An archive that is full.
abbrev full_archive : OArchive
full_archive = record { len = 128; off = 128; buffer = some (zero_bytes 128) }

oa_serialize_string-hides_failure_example :
    (oa' : OArchive) × (oa_serialize_string never full_archive none ≡ ret ok oa')
    × (oa_serialize_string never full_archive (some []) ≡ ret enomem oa')
    × (get_buffer oa' ≡ none)
oa_serialize_string-hides_failure_example =
    oa_serialize_string-hides_failure never full_archive (zero_bytes 128)
      (record {
        holds = refl;
        at = refl;
        within = omega arith;
        least = omega arith;
        bounded = omega arith;
      })
      (omega arith) (omega arith) (λ n. refl)

abbrev path_a : List ℕ
path_a = b'/' ∷ b'a' ∷ []

abbrev path_x : List ℕ
path_x = b'/' ∷ b'x' ∷ []

sub_string-prepend_string_example :
    sub_string (some path_x) (prepend_string (some path_x) (slash ∷ b'a' ∷ [])) ≡ slash ∷ b'a' ∷ []
sub_string-prepend_string_example = sub_string-prepend_string (some path_x) (b'a' ∷ [])

prepend_string-sub_string_example :
    prepend_string (some path_x) (sub_string (some path_x) (path_x ++ path_a)) ≡ path_x ++ path_a
prepend_string-sub_string_example = prepend_string-sub_string path_x path_a (inr (omega arith))

is_valid_path-all_names_example :
    is_valid_path (some (slash ∷ b'a' ∷ slash ∷ b'.' ∷ [])) 0
    ≡ (false || all_names 0 (components [] (b'a' ∷ slash ∷ b'.' ∷ [])))
is_valid_path-all_names_example = is_valid_path-all_names (b'a' ∷ slash ∷ b'.' ∷ []) 0

abbrev first_watcher : WatcherObject
first_watcher = record { watcher = 1; context = 10 }

abbrev second_watcher : WatcherObject
second_watcher = record { watcher = 2; context = 20 }

abbrev default_watcher : WatcherObject
default_watcher = record { watcher = 3; context = 0 }

-- A handle with two watchers of the data of a node, one of them of its children too.
abbrev watchers : Watchers assoc_table
watchers = record {
  default_watcher = default_watcher;
  active_node_watchers = (path_a, first_watcher ∷ second_watcher ∷ []) ∷ [];
  active_exist_watchers = [];
  active_child_watchers = (path_a, second_watcher ∷ []) ∷ (path_x, first_watcher ∷ []) ∷ [];
}

is_in-collect_watchers_example :
    is_in first_watcher (collect_watchers assoc_table watchers deleted_event path_a).1 ≡ (
      (reaches deleted_event node && is_in first_watcher (first_watcher ∷ second_watcher ∷ []))
      || (reaches deleted_event exist && is_in first_watcher [])
      || (reaches deleted_event child && is_in first_watcher (second_watcher ∷ [])))
unfolding string_equal
is_in-collect_watchers_example =
    is_in-collect_watchers assoc_table watchers deleted_event path_a first_watcher refl

no_dups-collect_watchers_example :
    no_dups (collect_watchers assoc_table watchers deleted_event path_a).1 ≡ true
no_dups-collect_watchers_example =
    no_dups-collect_watchers assoc_table watchers deleted_event path_a

watchers_at-collect_watchers_example :
    watchers_at assoc_table
      (table assoc_table (collect_watchers assoc_table watchers deleted_event path_a).0 child)
      path_x
    ≡ (if reaches deleted_event child && string_equal path_a path_x then [] else first_watcher ∷ [])
unfolding string_equal
watchers_at-collect_watchers_example =
    watchers_at-collect_watchers assoc_table watchers deleted_event path_a child path_x refl

is_in-collect_watchers_session_example :
    (is_in first_watcher (collect_watchers assoc_table watchers zoo_session_event []).1 ≡ true) ↔ (
      (same_watcher default_watcher first_watcher ≡ true)
      ⊎ ((which : Which) × (at_path : List ℕ) × (is_in first_watcher
              (watchers_at assoc_table (table assoc_table watchers which) at_path)
            ≡ true)))
is_in-collect_watchers_session_example =
    is_in-collect_watchers_session assoc_table watchers [] first_watcher

abbrev registration : Registration
registration = record { object = second_watcher; checker = exists_result_checker; path = path_x }

is_in-activate_watcher_example :
    is_in second_watcher (
      watchers_at assoc_table
        (table assoc_table
          (activate_watcher assoc_table watchers (some registration) (negsuc 100))
          exist)
        path_x)
    ≡ ((selects (exists_result_checker (negsuc 100)) exist
          && (string_equal path_x path_x && same_watcher second_watcher second_watcher))
        || is_in second_watcher [])
is_in-activate_watcher_example =
    is_in-activate_watcher assoc_table watchers registration (negsuc 100) exist path_x
      second_watcher

abbrev no_watchers : Watchers assoc_table
no_watchers = record {
  default_watcher = default_watcher;
  active_node_watchers = [];
  active_exist_watchers = [];
  active_child_watchers = [];
}

no_watchers-IsDuplicateFree : IsDuplicateFree assoc_table no_watchers
no_watchers-IsDuplicateFree node path = refl
no_watchers-IsDuplicateFree exist path = refl
no_watchers-IsDuplicateFree child path = refl

activate_watcher-IsDuplicateFree_example :
    IsDuplicateFree assoc_table
      (activate_watcher assoc_table no_watchers (some registration) (negsuc 100))
activate_watcher-IsDuplicateFree_example =
    activate_watcher-IsDuplicateFree assoc_table no_watchers (some registration) (negsuc 100)
      no_watchers-IsDuplicateFree

abbrev first_packet : Packet
first_packet = record { buffer = 1 ∷ 2 ∷ 3 ∷ []; len = 3; curr_offset = 0 }

abbrev second_packet : Packet
second_packet = record { buffer = 4 ∷ []; len = 1; curr_offset = 2 }

-- A socket that takes the first packet, and blocks in the second.
abbrev two_rounds : List Round
two_rounds =
    record { elapsed = pos 0; polled = pos 1; header = up_to 9; body = up_to 9 }
    ∷ record { elapsed = pos 1; polled = pos 1; header = up_to 1; body = would_block }
    ∷ []

flush_send_queue-IsFlushed_example :
    IsFlushed
      (first_packet ∷ second_packet ∷ [])
      (flush_send_queue true (pos 0) two_rounds (first_packet ∷ second_packet ∷ []))
flush_send_queue-IsFlushed_example =
    flush_send_queue-IsFlushed (pos 0) true two_rounds (first_packet ∷ second_packet ∷ [])
      ((refl, omega arith), ((refl, omega arith), omega arith))

flush_send_queue-returns_example :
    returns (flush_send_queue true (pos 0) two_rounds (first_packet ∷ second_packet ∷ [])) ≡ true
flush_send_queue-returns_example =
    flush_send_queue-returns true two_rounds (first_packet ∷ second_packet ∷ []) (omega arith)

-- Marshalling functions that write one byte each.
abbrev write_one : OArchive → ℤ × OArchive
write_one oa =
    (pos 0, record { len = oa.len; off = oa.off + 1; buffer = some (zero_bytes (oa.off + 1)) })

abbrev one_byte : Jute Request
one_byte = record {
  serialize_request_header = λ oa xid op. write_one oa;
  serialize_request = λ oa body. write_one oa;
}

abbrev plenty : Outcome
plenty = record {
  memory = record { completion = true; packet = true };
  adaptor = threaded;
  rounds = [];
}

abbrev ticket : Ticket
ticket = record { oa = new_archive; xid = pos 5; dc = synchronous_marker; data_of = 0 }

abbrev handle : Handle
handle = record {
  state = pos 3;
  chroot = some path_x;
  watcher = default_watcher;
  close_requested = 0;
  outstanding_sync = 0;
  sent_requests = [];
  to_send = [];
  wire = [];
}

abbrev call : Call
call = awexists path_a first_watcher

-- A path with an empty component.
abbrev bad_call : Call
bad_call = awexists (slash ∷ slash ∷ b'a' ∷ []) first_watcher

issue-refused_example :
    (issue one_byte plenty ticket none bad_call ≡ (zbadarguments, none))
    × (issue one_byte plenty ticket (some handle) bad_call
        ≡ (refusal one_byte plenty ticket handle bad_call, some handle))
unfolding prepend_string is_valid_path check_from
issue-refused_example = issue-refused one_byte plenty ticket handle bad_call refl

issue-IsAccounted_example :
    IsOptionAccounted one_byte plenty ticket (issue one_byte plenty ticket (some handle) call).1
issue-IsAccounted_example = issue-IsAccounted one_byte plenty ticket (some handle) call refl

-- No answer is ever waited for in the next example, so any will do.
abbrev any_answer : Handle → SyncCompletion ℕ × Handle
any_answer zh = (record { rc = pos 0; stat = 0; buff_len = pos 0; strs2 = []; acl = [] }, zh)

blocking-refused_example :
    blocking one_byte plenty ticket true any_answer
      (some handle)
      (λ t z. issue one_byte plenty t z bad_call)
    ≡ (refusal one_byte plenty ticket handle bad_call, none, some handle)
unfolding prepend_string is_valid_path check_from
blocking-refused_example =
    blocking-refused one_byte plenty ticket true any_answer handle bad_call refl refl

-- A length of 16 MB that no memory was given for.
abbrev huge_packet : List ℕ
huge_packet = 0 ∷ 0 ∷ 0 ∷ 1 ∷ []

-- Two bytes of the length are read, and two and one more have come.
abbrev started : Incoming
started = record { image = 1 ∷ 0 ∷ 0 ∷ 0 ∷ []; buffer = none; curr_offset = 2 }

recv_buffer-stalls_example :
    (recv_buffer false never (up_to 4) (up_to 100) started (0 ∷ 0 ∷ 9 ∷ [])
      ≡ (pos 0, unallocated huge_packet, 9 ∷ []))
    × (recv_buffer false never would_block (up_to 100) (unallocated huge_packet) (9 ∷ 2 ∷ 3 ∷ [])
        ≡ (pos 0, unallocated huge_packet, 9 ∷ 2 ∷ 3 ∷ []))
recv_buffer-stalls_example =
    recv_buffer-stalls false never (up_to 4) (up_to 100) started (0 ∷ 0 ∷ 9 ∷ []) (0 ∷ 0 ∷ [])
      (9 ∷ []) would_block (up_to 100) (9 ∷ 2 ∷ 3 ∷ []) (omega arith) refl (omega arith) refl refl
