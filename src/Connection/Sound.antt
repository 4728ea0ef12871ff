-- ===== src/Connection/Sound.antt =====
-- The invariant of a CONNECTION of server.cpp between two rounds of `process_func`.
pub mod Handlers
pub mod Rounds
use multiport_network.Base.{ℕ, ◌+◌, ◌≤◌, ◌<◌, ◌≡◌, ◌⊎◌, Bool, true, false, List, length}
use multiport_network.Protocol.{cmd_get, cmd_set}
use multiport_network.Connection.{
  Conn, ConnState, conn_deal_with, conn_new_cmd, conn_waiting, conn_read, conn_closing, WorkState,
  parse_head, read_key_value, write_bcak, BatchBuf,
}
use multiport_network.Connection.Buffered.{IsBuffered}

-- Which states of the work a state of the connection goes with.
abbrev pub Phase : ConnState → WorkState → Type 0
Phase conn_deal_with w = Unit {0}
Phase conn_closing w = Unit {0}
Phase conn_new_cmd parse_head = Unit {0}
Phase conn_waiting parse_head = Unit {0}
Phase conn_waiting read_key_value = Unit {0}
Phase conn_waiting write_bcak = Unit {0}
Phase conn_read parse_head = Unit {0}
Phase conn_read read_key_value = Unit {0}
Phase _ _ = ⊥

-- A body is read for a SET or a GET whose lengths were checked.
abbrev pub Command : WorkState → ℕ → ℕ → ℕ → Type 0
Command read_key_value cmd keylen bodylen =
    ((cmd ≡ cmd_set) × (0 < keylen) × (keylen + 8 ≤ bodylen))
    ⊎ ((cmd ≡ cmd_get) × (0 < keylen) × (bodylen ≡ keylen))
Command _ cmd keylen bodylen = Unit {0}

-- A batch has a buffer to write to.
abbrev pub Batching : Bool → List BatchBuf → Type 0
Batching true bufs = 0 < length bufs
Batching false bufs = Unit {0}

pub record IsSound (c : Conn) : Type 0 where
  pub buffered : IsBuffered c
  pub phase : Phase c.conn_state c.work_state
  pub command : Command c.work_state c.cmd c.binary_header.keylen c.binary_header.totalbodylen
  pub batching : Batching c.in_batch_get c.batch_ret_vector
