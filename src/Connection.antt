-- ===== src/Connection.antt =====
-- server_define.h: the state of a connection, its two state variables, and what a handler may do
-- besides returning. server.cpp: the jumps and `reset_cmd_handler`.
-- Left out of the record: the libevent `event`, `thread` and `kv`, which the handlers do not read.
pub mod Input
pub mod Parse
pub mod Reply
pub mod Batch
pub mod Process
pub mod Buffered
pub mod Sound
pub mod Termination
pub mod Requests
pub mod Outbox
pub mod Limits
pub mod Create
pub mod Turns
pub mod Service
pub mod Batched
pub mod Session
use multiport_network.Base.{ℕ, ◌+◌, ◌≡◌, ◌≢◌, refl, Bool, List, ltb, if◌then◌else◌}
use multiport_network.Base.Buffers.{slice}
use multiport_network.Protocol.{Header}

pub data ConnState : Type 0 where
  conn_parse_cmd conn_count conn_deal_with conn_new_cmd conn_waiting conn_read : ConnState
  conn_write conn_nread conn_swallow conn_closing conn_mwrite conn_closed : ConnState
  conn_watch conn_max_state : ConnState

pub data WorkState : Type 0 where
  parse_head read_key_value store_kvobj query_key write_bcak : WorkState

-- batchbuf: the bytes written to `buf` so far (`datalen` of them), and how many were sent.
pub record BatchBuf : Type 0 where
  pub buf : List ℕ
  pub datalen : ℕ
  pub offset : ℕ

-- CONNECTION. `working_buf` is its distance from `read_buf`; `read_buf` and `ret_buf` hold the
-- whole allocation.
pub record Conn : Type 0 where
  pub sfd : ℕ
  pub thread_index : ℕ
  pub read_buf_size : ℕ
  pub read_buf : List ℕ
  pub recv_bytes : ℕ
  pub total_bytes : ℕ
  pub working_buf : ℕ
  pub worked_bytes : ℕ
  pub remaining_bytes : ℕ
  pub ret_buf_size : ℕ
  pub ret_buf : List ℕ
  pub ret_buf_offset : ℕ
  pub ret_bytes : ℕ
  pub batch_ret_vector : List BatchBuf
  pub bytes_processed : ℕ
  pub bytes_wrote_back : ℕ
  pub conn_state : ConnState
  pub work_state : WorkState
  pub binary_header : Header
  pub cmd : ℕ
  pub key : List ℕ
  pub value : List ℕ
  pub query_hit : Bool
  pub batch_num : ℕ
  pub batch_count : ℕ
  pub in_batch_get : Bool

-- The settings of settings.h that the handlers use.
abbrev pub init_read_buf_size : ℕ
init_read_buf_size = 1000

abbrev pub init_ret_buf_size : ℕ
init_ret_buf_size = 1000

abbrev pub batch_buf_size : ℕ
batch_buf_size = 1000000

abbrev pub max_conn : ℕ
max_conn = 65535

abbrev pub round_num : ℕ
round_num = 20

-- A handler returns, calls `exit`, or leaves the memory that it may touch (undefined behaviour).
pub data Outcome {ℓ} (A : Type ℓ) : Type ℓ where
  ok : A → Outcome A
  exits : Outcome A
  fault : Outcome A

infixl 5 ◌>>=◌
abbrev pub ◌>>=◌ {ℓ κ} : {X : Type ℓ} {Y : Type κ} → Outcome X → (X → Outcome Y) → Outcome Y
exits >>= next = exits
fault >>= next = fault
ok x >>= next = next x

-- Where a sequence returns, its first part does.
pub >>=-eq-ok {ℓ κ} :
    {X : Type ℓ} {Y : Type κ} {y : Y} (first : Outcome X) (next : X → Outcome Y)
    → (first >>= next) ≡ ok y
    → (x : X) × (first ≡ ok x) × (next x ≡ ok y)
>>=-eq-ok exits next e = cc
>>=-eq-ok fault next e = cc
>>=-eq-ok (ok x) next e = (x, refl, e)

-- Neither part leaves the memory that it may touch.
pub >>=-ne-fault {ℓ κ} :
    {X : Type ℓ} {Y : Type κ} (first : Outcome X) (next : X → Outcome Y)
    → first ≢ fault
    → ((x : X) → next x ≢ fault)
    → (first >>= next) ≢ fault
>>=-ne-fault exits next h k = λ e. cc
>>=-ne-fault fault next h k = λ e. h refl
>>=-ne-fault (ok x) next h k = k x

abbrev pub conn_state_jump : Conn → ConnState → Conn
conn_state_jump c s = record c { conn_state = s }

abbrev pub work_state_jump : Conn → WorkState → Conn
work_state_jump c s = record c { work_state = s }

unfoldable pub reset_cmd_handler : Conn → Conn
reset_cmd_handler c =
    if ltb 0 c.remaining_bytes
    then conn_state_jump c conn_deal_with
    else conn_state_jump c conn_waiting

-- The bytes received and not dealt with yet: the abstract input of a connection.
abbrev pub pending : Conn → List ℕ
pending c = slice c.read_buf c.working_buf c.remaining_bytes
