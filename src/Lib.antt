-- ===== src/Lib.antt =====
-- The key-value server multiport_network: a verification library beside its C++ code.
--
-- The program. A main thread listens on one port for each worker thread (server.cpp, settings.h).
-- It accepts a connection, pushes it on the queue of the port's worker and wakes the worker by a
-- byte through a pipe. The worker makes a CONNECTION and serves it from its own event loop:
-- `event_handler` calls `process_func`, a state machine that reads into a buffer, parses the binary
-- protocol (server_define.h), stores a SET in a shared hash table, answers a GET from it, and
-- collects the replies of a GETBATCH in buffers that it sends when the batch is complete. The
-- clients micro_test, get_batch and double_buf_get prepare a database of packages, which their
-- threads share out and write to the connection of each package's port; cuckoo_local_test uses the
-- hash table without a server.
--
-- The files.
--   Base              lists, tests on numbers, and memory read by `slice` and written by `patch`
--   Protocol          server_define.h: header, opcodes, byte order (`ntohs`, `htonl`: `swap16`,
--                     `swap32`); RoundTrip: its lemmas
--   Interfaces        what the code calls: read, write, event_del, close, and the hash table;
--                     Reference, Line: concrete ones
--   Connection        server_define.h: CONNECTION, its two state variables; `reset_cmd_handler`
--     Input           server.cpp: `try_read_network`
--     Parse           server.cpp: `try_read_head_binary`, `dispatch_bin_command`,
--                     `try_read_key_value`
--     Reply           server.cpp: `con_ret_buf`
--     Batch           server.cpp: `send_batch`
--     Process         server.cpp: `process_func` (`round` is one round of its loop), `conn_close`,
--                     `event_handler`
--     Create          server.cpp: `init_conns`, `conn_new`
--     Buffered        the receive buffer as a sequence of bytes
--     Sound           the invariant of a connection
--     Termination     the measure of the loop
--     Requests, Service  whole requests: Store for SET, Query for GET
--     Outbox          the replies of a batch as a sequence of bytes; Queue: its buffers
--     Turns           the rounds over several calls of `event_handler`; Reading, Gathering: input
--                     that comes in pieces; Commands: from one command to the next
--     Batched         GETBATCH over its rounds; Heads, Answers: the GETs of a batch; Flush, Writing,
--                     Delivery: the sending of the replies
--     Session         the store that the server is outside of batches; Heads, Single: one request;
--                     Replying: its reply; Store: any SETs and GETs
--     Limits          counts, partial writes, stuck batches, oversized bodies
--   Server.Ports      server.cpp: `init_portlist`
--   Server.Dispatch   server.cpp: `init_workers`, `conn_dispatch`, `thread_libevent_process`;
--                     Channel: the two threads interleaved
--   Server.Setup      server.cpp: `worker`, `setup_worker`, `init_workers`, `main`; Calls: what
--                     they ask of the system; Running: the workers; Serves: the server that has
--                     started
--   Kvobj             kvobj.h, kvobj.cpp
--   MicroTest         micro_test/settings.h
--     Package         micro_test/micro_test.cpp: `con_database`, `get_opcode`; Layout: the packages
--                     as the protocol reads them; Served: a package at the server
--     Sender          micro_test/Connection.h: `fetch_and_send`, `clean`; Flow: what is gathered;
--                     Delivery: a run of packages
--     Dispatch        micro_test/micro_test.cpp: `data_dispatch` under `g_mutex`; Cover: what is
--                     handed out
--     Connect         micro_test/Connection.h: `connect_server`, the destructor
--     Work            micro_test/micro_test.cpp: the sending loops of `data_dispatch`
--   GetBatch          get_batch/get_batch_test.cpp: `con_database`; Packed: the batches;
--                     Served: the batches at the server
--     Send            get_batch/get_batch_test.cpp: `fetch_and_send`, the loop of `data_dispatch`;
--                     Lanes, Steps, Loop: what is to be sent on the ports
--   DoubleBuf         double_buf_get/double_buf_get.cpp: `fetch_and_send`, a step of `send_thread`,
--                     `recv_and_count`, the loop of `recv_thread`; Sending, Receiving: what they do
--     Database        double_buf_get/double_buf_get.cpp: `con_database` with its file; Again: the
--                     next run; Packs, Bytes: the batches and their bytes
--     Threads         double_buf_get/double_buf_get.cpp: `send_thread`, `recv_thread`, the
--                     connecting in `data_dispatch`; Advance, Delivery, Parts, Whole, Keys: what a
--                     thread sends
--     Main            double_buf_get/double_buf_get.cpp: `main`
--     Served          a thread of double_buf_get and the server together
--     Tracer          double_buf_get/tracer.h
--   LocalTest         cuckoo_local_test/cuckoo_local_test.cpp: `con_database`, `pre_insert`,
--                     `data_dispatch`; Found: which keys the table has
--   Assoc             assoc.cpp
--   Benchmark         test/benchmark_test.cpp: `con_database`, the loop of `send_data`; Aborts: its
--                     assertion
--   Examples          concrete inputs
--
-- How the code is modelled. A handler takes the CONNECTION as a record and returns it changed;
-- `Outcome` is `ok`, `exits` (`exit`, a failed `assert`) or `fault` (a read or a write outside an
-- allocation, a null pointer that is read, a remainder by 0). `working_buf` is the offset of the
-- pointer in `read_buf`. A batch buffer is the bytes that were written to it. The fixed widths
-- uint16_t, uint32_t and unsigned long wrap around; an `int` is a number that is not bounded: the
-- counters of the receive buffer stay below its size, but `ret_bytes` grows with every miss of a
-- batch, and its overflow is not modelled. The machine is little-endian. The sockets are a state
-- that read and write change, as the interface `Os` says; its laws say that a call moves no more
-- bytes than it was asked to. The hash table is the interface `HashTable`; another worker's use of
-- it between two rounds is not modelled. `Connection.Turns.Runs` puts the rounds of several calls
-- of `event_handler` on one connection behind each other: as the event is registered for EV_READ, a
-- call follows only while there are bytes to read on the socket. So what is proved of whole
-- requests asks for more input behind them than the receive buffer of 1000 bytes holds. The
-- clients' sockets are `Sockets` or, non-blocking, `Os` with what `Moves` says, and are opened
-- through `Dialer`; their hash function is a parameter. The threads of micro_test pass the mutex
-- one after the other, in any order. What libevent and pthread do for the server's start is the
-- parameter `Platform`.
--
-- Fuel. The loop of `process_func` runs on a number of rounds; `enough_rounds` = 1011 is the bound
-- that `Connection.Termination` accounts for. The sending loop of get_batch runs on a number of
-- sweeps, and `GetBatch.Send.Loop` accounts for as many as there are bytes to send, and one; that of
-- double_buf_get likewise, with the refusals to come (`DoubleBuf.Threads.Delivery`).
--
-- Not modelled. The log messages, a failing `malloc`, libcuckoo and the hash functions (other
-- projects' code), and the generators of random keys, which are a parameter where keys are drawn. Of
-- micro_test, get_batch and cuckoo_local_test, `main`, the time measurement and the drawing of keys
-- are not modelled; double_buf_get has the same. Of the programs of test/, only benchmark_test is.
pub mod Assoc
pub mod Base
pub mod Benchmark
pub mod Protocol
pub mod Interfaces
pub mod Connection
pub mod Server
pub mod Kvobj
pub mod MicroTest
pub mod GetBatch
pub mod DoubleBuf
pub mod LocalTest
pub mod Examples
