-- ===== src/Connection/Limits.antt =====
-- server.cpp: partial writes, the count of commands in a call, and batches that
-- never end.
pub mod Oversized
use multiport_network.Base.{
  ℕ, zero, suc, ◌+◌, ◌-◌, ◌*◌, ◌%◌, ◌^◌, ◌≤◌, ◌<◌, ◌≡◌, ◌≢◌, refl, ap, Bool, true, Option, none,
  some, List, [], ◌∷◌, ◌++◌, arith, length, drop, take, drop-take, drop-drop,
}
use multiport_network.Base.Buffers.{slice}
use multiport_network.Connection.{
  Conn, BatchBuf, conn_deal_with, conn_new_cmd, WorkState, parse_head, read_key_value, store_kvobj,
  query_key, write_bcak, Outcome, ok, exits, fault, ◌>>=◌, round_num, reset_cmd_handler,
}
use multiport_network.Connection.Input.{TryReadResult, read_memory_error, read_error}
use multiport_network.Connection.Parse.{try_read_key_value, bad_command}
use multiport_network.Connection.Reply.{
  con_ret_buf, batch_reply, append_packet, reserve, back, count_miss,
}
use multiport_network.Connection.Process.{Turn, wait, wrote}
use multiport_network.Connection.Sound.{IsSound}
use multiport_network.Connection.Termination.{IsStuck}

-- The reply that is still to be sent outside a batch.
abbrev pub reply_unsent : Conn → List ℕ
reply_unsent c = slice c.ret_buf c.ret_buf_offset c.ret_bytes

-- Outside a batch a `write` that accepts some bytes takes just these off what is to be sent: after a
-- partial write the rest follows, and nothing is sent twice.
pub wrote-reply_unsent :
    (c : Conn) (n errno : ℕ)
    → n ≤ c.ret_bytes
    → reply_unsent (wrote c n errno) ≡ drop n (reply_unsent c)
unfolding wrote
wrote-reply_unsent c zero errno le = ground arith
wrote-reply_unsent c (suc n) errno le = ground (
  arith,
  drop-take c.ret_bytes (suc n) (c.ret_bytes - suc n) (drop c.ret_buf_offset c.ret_buf)
      (omega arith),
  drop-drop c.ret_buf_offset (suc n) (c.ret_buf_offset + suc n) c.ret_buf refl,
)

append_packet-IsStuck :
    (c c' : Conn) (bufs : List BatchBuf) (o : Option BatchBuf)
    → c.conn_state ≡ conn_deal_with
    → c.in_batch_get ≡ true
    → c.batch_num ≤ c.batch_count
    → c.batch_count < 65535
    → append_packet c bufs o ≡ ok c'
    → IsStuck c'
unfolding append_packet count_miss
append_packet-IsStuck c c' bufs none cs b n m e = cc
append_packet-IsStuck c c' bufs (some x) cs b n m e = ground arith

batch_reply-IsStuck :
    (c c' : Conn) (o : Option BatchBuf)
    → c.conn_state ≡ conn_deal_with
    → c.in_batch_get ≡ true
    → c.batch_num ≤ c.batch_count
    → c.batch_count < 65535
    → batch_reply c o ≡ ok c'
    → IsStuck c'
unfolding batch_reply
batch_reply-IsStuck c c' none cs b n m e = cc
batch_reply-IsStuck c c' (some x) cs b n m e =
    append_packet-IsStuck c c' (reserve c x) (back (reserve c x)) cs b n m e

-- A reply to a batch that has its announced number of replies already, so the first reply to a
-- batch announced with none, makes the batch stuck: its replies are more than were announced.
-- (The count of replies is below its greatest value.)
pub con_ret_buf-IsStuck :
    (c c' : Conn)
    → c.conn_state ≡ conn_deal_with
    → c.in_batch_get ≡ true
    → c.batch_num ≤ c.batch_count
    → c.batch_count < 65535
    → con_ret_buf c ≡ ok c'
    → IsStuck c'
unfolding con_ret_buf
con_ret_buf-IsStuck c c' cs b n m e =
    ground (arith, batch_reply-IsStuck c c' (back c.batch_ret_vector) cs b n m)

-- The count of commands in one call.
record IsCounted {Net Map : Type 0} (t : Turn Net Map) : Type 0 where
  below : t.inst_count ≤ round_num
  last : t.inst_count ≡ round_num → (t.stop ≡ true) × (t.conn.conn_state ≡ conn_new_cmd)
