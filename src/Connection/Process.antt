-- ===== src/Connection/Process.antt =====
-- server.cpp: `process_func`, one round of its loop at a time, and `event_handler`.
use multiport_network.Base.{
  ℕ, zero, suc, ◌+◌, ◌-◌, Bool, true, false, ◌≡◌, refl, arith, ◌||◌, Option, none, some, List, drop,
  ltb, ◌==◌, if◌then◌else◌,
}
use multiport_network.Base.Buffers.{slice, byte_at}
use multiport_network.Protocol.{head_len, protocol_binary_req, u64}
use multiport_network.Interfaces.{Os, HashTable, eagain, ewouldblock}
use multiport_network.Connection.{
  Conn, ConnState, conn_deal_with, conn_new_cmd, conn_waiting, conn_read, conn_closing, WorkState,
  parse_head, read_key_value, store_kvobj, query_key, write_bcak, Outcome, ok, exits, fault, ◌>>=◌,
  conn_state_jump, reset_cmd_handler, round_num,
}
use multiport_network.Connection.Input.{
  TryReadResult, read_data_received, read_no_data_received, read_error, read_memory_error,
  try_read_network,
}
use multiport_network.Connection.Parse.{
  ReadKeyValue, need_more, bad_command, got_key_value, try_read_head_binary, try_read_key_value,
}
use multiport_network.Connection.Reply.{con_ret_buf}
use multiport_network.Connection.Batch.{send_batch}

-- The locals of the loop, with the connection, the sockets and the table.
pub record Turn (Net Map : Type 0) : Type 0 where
  pub conn : Conn
  pub net : Net
  pub table : Map
  pub inst_count : ℕ
  pub stop : Bool

-- The answer to a read.
unfoldable pub after_read : TryReadResult → Conn → Outcome Conn
after_read read_no_data_received c = ok (conn_state_jump c conn_waiting)
after_read read_data_received c = ok (conn_state_jump c conn_deal_with)
after_read read_error c = ok (conn_state_jump c conn_closing)
after_read read_memory_error c = exits

unfoldable pub after_head : Outcome (Bool × Conn) → Outcome Conn
after_head (ok (false, c)) = ok (conn_state_jump c conn_waiting)
after_head (ok (true, c)) = ok c
after_head exits = exits
after_head fault = fault

-- The case `parse_head`.
unfoldable pub deal_head : Conn → Outcome Conn
unfolding after_head
deal_head c =
    if ltb c.remaining_bytes 1
    then ok (conn_state_jump c conn_waiting)
    else if byte_at (drop c.working_buf c.read_buf) 0 == protocol_binary_req
    then after_head (try_read_head_binary c)
    else exits

unfoldable pub after_key_value : ReadKeyValue × Conn → Conn
after_key_value (need_more, c) = conn_state_jump c conn_waiting
after_key_value (bad_command, c) = conn_state_jump c conn_closing
after_key_value (got_key_value, c) = c

unfoldable pub found : Conn → Option (List ℕ) → Conn
found c none = record c { query_hit = false }
found c (some v) = record c { value = v; query_hit = true }

-- The case `write_bcak` outside a batch, behind the call of `write`.
unfoldable pub wrote : Conn → ℕ → ℕ → Conn
wrote c zero errno =
    if errno == ewouldblock || errno == eagain
    then conn_state_jump c conn_waiting
    else conn_state_jump c conn_closing
wrote c (suc n) errno =
    let c' =
      if suc n == c.ret_bytes
      then record c {
        ret_buf_offset = 0;
        ret_bytes = 0;
        work_state = parse_head;
        conn_state = conn_new_cmd;
      }
      else if ltb (suc n) c.ret_bytes
      then record c {
        ret_buf_offset = c.ret_buf_offset + suc n;
        ret_bytes = c.ret_bytes - suc n;
        conn_state = conn_waiting;
      }
      else c in
    record c' { bytes_wrote_back = u64 (c'.bytes_wrote_back + suc n) }

unfoldable pub wait : Conn → WorkState → Conn
wait c write_bcak = conn_state_jump c conn_deal_with
wait c parse_head = conn_state_jump c conn_read
wait c read_key_value = conn_state_jump c conn_read
wait c store_kvobj = conn_state_jump c conn_closing
wait c query_key = conn_state_jump c conn_closing

unfoldable pub stored : Conn → Conn
stored c = record c {
  bytes_processed = u64 (c.bytes_processed + (head_len + c.binary_header.totalbodylen));
  work_state = parse_head;
  conn_state = conn_new_cmd;
}

module _ {Net : Type 0} (os : Os Net) where
  -- `write` is handed `ret_bytes` bytes from `ret_buf + ret_buf_offset`: more than the buffer
  -- holds is a read out of bounds.
  unfoldable pub write_back : Conn → Net → Outcome (Conn × Net)
  write_back c net =
      if ltb c.ret_buf_size (c.ret_buf_offset + c.ret_bytes)
      then fault
      else let (reply, net') = os.write net c.sfd (slice c.ret_buf c.ret_buf_offset c.ret_bytes) in
        ok (wrote c reply.count reply.errno, net')

  unfoldable pub conn_close : Conn → Net → Net
  conn_close c net = os.close (os.event_del net c.sfd) c.sfd

module _ {Net Map : Type 0} (os : Os Net) (ht : HashTable Map) where
  -- The inner switch, on the state of the work.
  unfoldable pub deal_with : WorkState → Conn → Net → Map → Outcome (Conn × Net × Map)
  deal_with parse_head c net m = deal_head c >>= λ c'. ok (c', net, m)
  deal_with read_key_value c net m = ok (after_key_value (try_read_key_value c), net, m)
  deal_with store_kvobj c net m = ok (stored c, net, ht.insert_or_assign m c.key c.value)
  deal_with query_key c net m = con_ret_buf (found c (ht.find m c.key)) >>= λ c'. ok (c', net, m)
  deal_with write_bcak c net m =
      (if c.in_batch_get then send_batch os c net else write_back os c net) >>= λ r.
      ok (r.0, r.1, m)

  abbrev same_round : Turn Net Map → Outcome (Conn × Net × Map) → Outcome (Turn Net Map)
  same_round t r = r >>= λ x. ok (record t { conn = x.0; net = x.1; table = x.2 })

  abbrev read_round : Turn Net Map → TryReadResult × Conn × Net → Outcome (Turn Net Map)
  read_round t r = after_read r.0 r.1 >>= λ c'. ok (record t { conn = c'; net = r.2 })

  -- The outer switch, on the state of the connection. A state without a case changes nothing.
  unfoldable pub round : ConnState → Turn Net Map → Outcome (Turn Net Map)
  round conn_read t = read_round t (try_read_network os t.conn t.net)
  round conn_new_cmd t =
      if ltb (t.inst_count + 1) round_num
      then ok (record t { conn = reset_cmd_handler t.conn; inst_count = t.inst_count + 1 })
      else ok (record t { inst_count = t.inst_count + 1; stop = true })
  round conn_deal_with t = same_round t (deal_with t.conn.work_state t.conn t.net t.table)
  round conn_waiting t = ok (record t { conn = wait t.conn t.conn.work_state; stop = true })
  round conn_closing t = ok (record t { net = conn_close os t.conn t.net; stop = true })
  round _ t = ok t

  -- `while (!stop)`, for at most the given number of rounds.
  unfoldable pub process_loop : ℕ → Turn Net Map → Outcome (Turn Net Map)
  process_loop zero t = ok t
  process_loop (suc n) t = elim t.stop [
    | true ↦ ok t
    | false ↦ round t.conn.conn_state t >>= λ t'. process_loop n t'
  ]

  pub process_loop_stopped : (n : ℕ) (t : Turn Net Map) → t.stop ≡ true → process_loop n t ≡ ok t
  unfolding process_loop
  process_loop_stopped zero t h = refl
  process_loop_stopped (suc n) t h = ground arith

  pub process_loop_running :
      (n : ℕ) (t : Turn Net Map)
      → t.stop ≡ false
      → process_loop (suc n) t ≡ (round t.conn.conn_state t >>= λ t'. process_loop n t')
  unfolding process_loop
  process_loop_running n t h = ground arith

  abbrev pub start_turn : Conn → Net → Map → Turn Net Map
  start_turn c net m = record { conn = c; net = net; table = m; inst_count = 0; stop = false }

  -- `rounds` bounds the loop; `Termination` has the bound `enough_rounds`.
  unfoldable pub process_func : ℕ → Conn → Net → Map → Outcome (Turn Net Map)
  process_func rounds c net m = process_loop rounds (start_turn c net m)

  -- The descriptor must be the connection's; else nothing is done.
  unfoldable pub event_handler : ℕ → ℕ → Conn → Net → Map → Outcome (Turn Net Map)
  event_handler rounds fd c net m =
      if fd == c.sfd then process_func rounds c net m else ok (start_turn c net m)
