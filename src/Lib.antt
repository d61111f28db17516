-- ===== src/Lib.antt =====
-- elephants: the C client library of ZooKeeper in zookeeper_driver/driver, which all services of the
-- repository talk to their servers through, and the red-black tree of its algorithms.
--
-- The program. An application calls zookeeper_driver/driver/src/zookeeper.c. A request is marshalled
-- into an archive by functions that jute generates over recordio.c, its path is put below the chroot
-- of the handle, a completion is queued in `sent_requests`, and the bytes go to the queue `to_send`,
-- from which `flush_send_queue` writes packets to the socket. What the server sends is collected by
-- `recv_buffer`. Watchers that a request leaves stand in three hash tables (zk_hashtable.c) until an
-- event reaches them.
--
-- The files.
-- - Base: names of the libraries, lists with native indices, signed integers.
-- - Wire (recordio.c): Wire/Word has `htonll` and the bytes of words; Wire/OArchive and Wire/IArchive
--   the functions of the two archives on a record of `struct buff_struct`, where what C leaves
--   undefined is a value `fault` or `overread`; below them and in Wire/RoundTrip the theorems.
-- - ZnodePath (zookeeper.c): `prepend_string`, `sub_string`, `isValidPath`.
-- - Watch (zk_hashtable.c): lists of watcher objects, `collectWatchers`, `activateWatcher`. Watch/Table
--   is the hash table library (hashtable.c) as a record of operations and laws.
-- - Frame (zookeeper.c): the packet queues, `send_buffer`, `recv_buffer`, `flush_send_queue`.
--   Frame/Cells has the queues as linked cells between two pointers.
-- - Client (zookeeper.c): the handle, completions, and the asynchronous API but for `zoo_amulti`;
--   Client/Blocking has the blocking API but for `zoo_multi`.
-- - Session (zookeeper.c, zk_adaptor.h): what the IO thread does. Session/Connect has the handshake,
--   `zoo_add_auth` and `check_events`, Session/Send the requests that the library makes on its own,
--   Session/Handshake the bytes of the handshake,
--   Session/Interest `zookeeper_interest` and pings, on Session/Time; Session/Process has
--   `zookeeper_process`; Session/Complete what becomes of completions, at an answer or an error, and
--   Session/Sync the copy to the memory of a blocked caller; Session/Close has the reference counter
--   and `zookeeper_close`, Session/Auth the list of authentication data. `Session` is `zhandle_t`; a
--   caller that is woken and a function of the application that is called are recorded in it.
-- - Multi (zookeeper.c, zookeeper.h): several operations in one request, `zoo_amulti` until its critical
--   section, and in Multi/Response `deserialize_multi`. The results are a function of their index.
-- - RbTree (service_module/algorithm/trees/red_black/rbtree.hpp): insertion in the red-black tree, and
--   RbTree/Delete the deletion of a key. A node is a tree with the path from it up to the root.
-- - Tests: examples of the theorems.
-- Functions have their C names in snake case; a C function that changes memory behind a pointer returns
-- the new state besides its code.
--
-- What the model leaves to arguments: `malloc`, `calloc` and `realloc` (which sizes they give), the
-- socket, the clock and `poll` (what each call does), the byte order of the host, the marshalling
-- functions that jute generates (not part of the repository), and the hash table library.
--
-- Bounds and fuel. `resize_buffer` doubles an `int` on fuel 32: from 128 on a length that an `int`
-- can hold is reached in fewer steps. `flush_send_queue` runs on the list of its rounds.
-- The double of the session timeout in `zookeeper_interest` wraps around at 32 bits.
--
-- The processing of responses runs on the list of packets received. Where the rounds that are given for
-- a flush are used up, the queue is left as it was.
--
-- Not modelled: `zookeeper_init` and the parsing of addresses, `zoo_multi` and the queueing of the
-- completion of `zoo_amulti`, what functions of the application do when they are called, threads and
-- locks, logging, the hash table library itself, the command line programs, the Windows port, the
-- printing and freeing of trees, and the other services in C++.
pub mod Base
pub mod Wire
pub mod ZnodePath
pub mod Watch
pub mod Frame
pub mod Client
pub mod Session
pub mod Multi
pub mod RbTree
pub mod Tests
