-- ===== src/Connection/Termination.antt =====
-- server.cpp: how many rounds the loop of `process_func` has left, and the batch that gets stuck.
pub mod Progress
pub mod Loop
use multiport_network.Base.{ℕ, ◌+◌, ◌<◌, ◌≡◌, Bool, true, ◌⊎◌}
use multiport_network.Connection.{
  Conn, ConnState, conn_deal_with, conn_new_cmd, conn_waiting, conn_read, conn_closing, WorkState,
  parse_head, read_key_value, store_kvobj, query_key, write_bcak, Outcome, ok, exits, fault,
}
use multiport_network.Connection.Process.{Turn}

abbrev pub work_rank : WorkState → ℕ
work_rank parse_head = 2
work_rank read_key_value = 6
work_rank store_kvobj = 4
work_rank query_key = 5
work_rank write_bcak = 4

-- Rounds left, given the states and the number of unread bytes. A read fills the buffer.
abbrev pub rounds_left : ConnState → WorkState → ℕ → ℕ
rounds_left conn_read w n = 1010
rounds_left conn_deal_with w n = n + work_rank w
rounds_left conn_new_cmd w n = n + 3
rounds_left _ w n = 1

abbrev pub measure : Conn → ℕ
measure c = rounds_left c.conn_state c.work_state c.remaining_bytes

-- One more than the greatest measure of a connection within its buffer.
abbrev pub enough_rounds : ℕ
enough_rounds = 1011

-- A batch whose replies outnumber its announced size.
pub record IsStuck (c : Conn) : Type 0 where
  pub dealing : c.conn_state ≡ conn_deal_with
  pub writing : c.work_state ≡ write_bcak
  pub in_batch : c.in_batch_get ≡ true
  pub passed : c.batch_num < c.batch_count

-- The loop was left by its own test, or the process was, or a batch is stuck.
abbrev pub Ends : {Net Map : Type 0} → Outcome (Turn Net Map) → Type 0
Ends (ok t) = (t.stop ≡ true) ⊎ IsStuck t.conn
Ends exits = Unit {0}
Ends fault = Unit {0}
