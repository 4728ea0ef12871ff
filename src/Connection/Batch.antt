-- ===== src/Connection/Batch.antt =====
-- server.cpp: `send_batch`.
use multiport_network.Base.{ℕ, ◌+◌, ◌-◌, false, ◌||◌, List, [], ◌∷◌, ltb, ◌==◌, if◌then◌else◌}
use multiport_network.Base.Buffers.{slice}
use multiport_network.Protocol.{head_len, u64}
use multiport_network.Interfaces.{Os, eagain, ewouldblock, sigpipe}
use multiport_network.Connection.{
  Conn, BatchBuf, Outcome, ok, fault, parse_head, conn_new_cmd, conn_waiting, conn_closing,
  conn_state_jump,
}

-- `ret <= 0`: both of the last branches close the connection.
unfoldable pub write_failed : Conn → ℕ → Conn
write_failed c errno =
    if errno == ewouldblock || errno == eagain
    then conn_state_jump c conn_waiting
    else if errno == sigpipe
    then conn_state_jump c conn_closing
    else conn_state_jump c conn_closing

unfoldable pub buf_sent : Conn → List BatchBuf → Conn
buf_sent c [] = record c {
  batch_ret_vector = [];
  in_batch_get = false;
  batch_num = 0;
  batch_count = 0;
  work_state = parse_head;
  conn_state = conn_new_cmd;
}
buf_sent c (b ∷ bs) = record c { batch_ret_vector = b ∷ bs; conn_state = conn_waiting }

-- `ret > 0`, with `b` at the front of the vector.
unfoldable pub wrote_batch : Conn → BatchBuf → List BatchBuf → ℕ → Conn
unfolding buf_sent
wrote_batch c b rest n =
    let c' =
      if n == b.datalen - b.offset
      then buf_sent c rest
      else if ltb n (b.datalen - b.offset)
      then record c {
        batch_ret_vector = record b { offset = b.offset + n } ∷ rest;
        conn_state = conn_waiting;
      }
      else c in
    record c' { bytes_wrote_back = u64 (c'.bytes_wrote_back + n) }

unfoldable pub count_request : Conn → Conn
count_request c = record c {
  bytes_processed = u64 (c.bytes_processed + (head_len + c.binary_header.keylen));
}

module _ {Net : Type 0} (os : Os Net) where
  unfoldable pub flush_front : Conn → List BatchBuf → Net → Outcome (Conn × Net)
  unfolding write_failed wrote_batch
  flush_front c [] net = fault
  flush_front c (b ∷ rest) net =
      let (reply, net') = os.write net c.sfd (slice b.buf b.offset (b.datalen - b.offset)) in
      ok (
        if reply.count == 0 then write_failed c reply.errno else wrote_batch c b rest reply.count,
        net',
      )

  -- Nothing is done where `batch_num < batch_count`.
  unfoldable pub send_batch : Conn → Net → Outcome (Conn × Net)
  unfolding count_request
  send_batch c0 net =
      let c = count_request c0 in
      if ltb c.batch_count c.batch_num
      then ok (record c { work_state = parse_head; conn_state = conn_new_cmd }, net)
      else if c.batch_count == c.batch_num
      then flush_front c c.batch_ret_vector net
      else ok (c, net)
