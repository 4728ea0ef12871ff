-- ===== src/Server/Dispatch.antt =====
-- server.cpp: `init_workers`, `conn_dispatch` in the main thread and `thread_libevent_process` in a
-- worker. A worker's queue is guarded by its mutex, so that a push and a pop are each one step; the
-- byte through the pipe that wakes the worker is a step of its own on either side.
pub mod Channel
use multiport_network.Base.{
  ℕ, ◌+◌, ◌≡◌, refl, Bool, true, false, Option, none, some, List, [], ◌∷◌, ◌++◌, ltb, ◌||◌, ◌==◌,
  if◌then◌else◌,
}
use multiport_network.Interfaces.{eagain, ewouldblock, emfile}
use multiport_network.Connection.{Outcome, ok, exits, fault}

-- conn_queue_item_modes
pub data Mode : Type 0 where
  queue_new_conn queue_redispatch : Mode

-- CONN_ITEM; `thread` is an index into `threadInfoList`.
pub record ConnItem : Type 0 where
  pub sfd : ℕ
  pub mode : Mode
  pub thread : ℕ

-- THREAD_INFO: the index, the queue, oldest first, and the bytes in the notify pipe.
pub record Worker : Type 0 where
  pub thread_index : ℕ
  pub queue : List ConnItem
  pub pipe : List ℕ

abbrev pub Workers : Type 0
Workers = ℕ → Worker

unfoldable pub init_workers : Workers
init_workers i = record { thread_index = i; queue = []; pipe = [] }

unfoldable pub set_worker : Workers → ℕ → Worker → Workers
set_worker ws i w j = if j == i then w else ws j

-- connQueueList->push(citem), under the lock.
unfoldable pub push_item : Worker → ConnItem → Worker
push_item w item = record w { queue = w.queue ++ item ∷ [] }

-- write(notify_send_fd, "c", 1); where it fails, only a message is printed.
unfoldable pub notify : Worker → Bool → Worker
notify w written = if written then record w { pipe = w.pipe ++ b'c' ∷ [] } else w

pub data Accepted : Type 0 where
  connection : (fd : ℕ) → Accepted
  refused : (errno : ℕ) → Accepted

-- `nonblocking` is the success of `fcntl`; else the descriptor is closed again. `written` is the
-- success of the write to the pipe.
unfoldable pub conn_dispatch :
    Workers → (port_index : ℕ) → Accepted → (nonblocking written : Bool) → Outcome Workers
conn_dispatch ws i (refused errno) nonblocking written =
    if errno == eagain || errno == ewouldblock
    then ok ws
    else if errno == emfile
    then exits
    else ok ws
conn_dispatch ws i (connection fd) nonblocking written =
    if nonblocking
    then (if ltb 2 fd
        then ok (
            set_worker ws i (
              notify (push_item (ws i) (record { sfd = fd; mode = queue_new_conn; thread = i }))
                written))
        else exits)
    else ok ws

-- read(fd, buf, 1): the byte, and `none` where there is none.
unfoldable pub read_pipe : Worker → Option ℕ × Worker
read_pipe w = elim w.pipe [ [] ↦ (none, w) | b ∷ bs ↦ (some b, record w { pipe = bs }) ]

-- front and pop, under the lock; null where the queue is empty.
unfoldable pub pop_item : Worker → Option ConnItem × Worker
pop_item w = elim w.queue [ [] ↦ (none, w) | item ∷ rest ↦ (some item, record w { queue = rest }) ]

-- The descriptor and the worker that `conn_new` is called with.
unfoldable pub new_conn : Option ConnItem → ℕ → Option (ℕ × ℕ)
new_conn none i = none
new_conn (some item) i = elim item.mode [
  | queue_new_conn ↦ some (item.sfd, i)
  | queue_redispatch ↦ none
]

unfoldable pub woken : Option ℕ → Worker → Option (ℕ × ℕ) × Worker
woken none w = (none, w)
woken (some b) w =
    if b == b'c'
    then (let (item, w') = pop_item w in (new_conn item w.thread_index, w'))
    else (none, w)

unfoldable pub thread_libevent_process : Worker → Option (ℕ × ℕ) × Worker
thread_libevent_process w = let (b, w') = read_pipe w in woken b w'
