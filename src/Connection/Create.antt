-- ===== src/Connection/Create.antt =====
-- server.cpp: `init_conns` and `conn_new`.
use multiport_network.Base.{
  ℕ, ◌≡◌, Bool, false, Option, none, some, [], arith, length, ltb, if◌then◌else◌,
}
use multiport_network.Connection.{
  Conn, Outcome, ok, exits, conn_read, parse_head, init_read_buf_size, init_ret_buf_size, max_conn,
  pending,
}
use multiport_network.Connection.Sound.{IsSound}

-- The array `conns`, by descriptor; `none` is a null pointer.
abbrev pub Conns : Type 0
Conns = ℕ → Option Conn

unfoldable pub init_conns : Conns
init_conns sfd = none

-- `new CONNECTION` and the two `malloc`s: the containers are empty, and what is not set (the
-- buffers' contents too) is as in `raw`.
unfoldable pub allocate : Conn → Conn
allocate raw = record raw {
  key = [];
  value = [];
  batch_ret_vector = [];
  read_buf_size = init_read_buf_size;
  ret_buf_size = init_ret_buf_size;
}

unfoldable pub reset_conn : Conn → ℕ → ℕ → Conn
reset_conn c sfd thread_index = record c {
  sfd = sfd;
  worked_bytes = 0;
  working_buf = 0;
  recv_bytes = 0;
  remaining_bytes = 0;
  bytes_processed = 0;
  bytes_wrote_back = 0;
  query_hit = false;
  ret_buf_offset = 0;
  ret_bytes = 0;
  in_batch_get = false;
  batch_num = 0;
  batch_count = 0;
  thread_index = thread_index;
  conn_state = conn_read;
  work_state = parse_head;
}

-- `raw` is the new allocation, `none` where `new` fails. The result is the array, which the code
-- does not write, and the connection that the event loop serves from now on: none where
-- `event_add` fails.
unfoldable pub conn_new :
    Conns
    → Option Conn
    → (sfd thread_index : ℕ) → (event_added : Bool) → Outcome (Conns × Option Conn)
conn_new conns raw sfd thread_index event_added =
    if ltb sfd max_conn
    then ok (
      conns,
      elim (conns sfd) [
        | some c ↦ if event_added then some (reset_conn c sfd thread_index) else none
        | none ↦ elim raw [
          | none ↦ none
          | some r ↦ if event_added then some (reset_conn (allocate r) sfd thread_index) else none
        ]
      ],
    )
    else exits

-- `malloc` gives as many bytes as it was asked for.
pub record IsAllocated (raw : Conn) : Type 0 where
  pub read_size : length raw.read_buf ≡ init_read_buf_size
  pub ret_size : length raw.ret_buf ≡ init_ret_buf_size

-- A connection as `conn_new` leaves it.
pub record IsFresh (c : Conn) : Type 0 where
  pub sound : IsSound c
  pub reading : c.conn_state ≡ conn_read
  pub parsing : c.work_state ≡ parse_head
  pub no_input : pending c ≡ []
  pub no_batch : c.in_batch_get ≡ false
  pub no_bufs : c.batch_ret_vector ≡ []
  pub no_reply : (c.ret_bytes ≡ 0) × (c.ret_buf_offset ≡ 0)
  pub ret_held : length c.ret_buf ≡ c.ret_buf_size
  pub ret_room : c.ret_buf_size ≡ init_ret_buf_size
  pub no_value : c.value ≡ []

reset-IsFresh :
    (raw : Conn) (sfd thread_index : ℕ)
    → IsAllocated raw
    → IsFresh (reset_conn (allocate raw) sfd thread_index)
unfolding reset_conn allocate
reset-IsFresh raw sfd thread_index a = ground arith

-- From the array of `init_conns`, `conn_new` leaves the array empty, so that every connection is
-- a new allocation (the entry of its descriptor is never set), and each is sound and fresh.
pub conn_new-IsFresh :
    (raw c : Conn) (conns : Conns) (sfd thread_index : ℕ) (event_added : Bool)
    → IsAllocated raw
    → conn_new init_conns (some raw) sfd thread_index event_added ≡ ok (conns, some c)
    → (conns ≡ init_conns) × IsFresh c × (c.sfd ≡ sfd) × (c.thread_index ≡ thread_index)
unfolding conn_new init_conns reset_conn
conn_new-IsFresh raw c conns sfd thread_index event_added a e =
    ground (arith, reset-IsFresh raw sfd thread_index a)
