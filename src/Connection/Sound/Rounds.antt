-- ===== src/Connection/Sound/Rounds.antt =====
-- The invariant of a connection in the rounds of `process_func` and in `event_handler`.
use multiport_network.Base.{
  ℕ, zero, suc, ◌-◌, [], ◌∷◌, ◌≡◌, refl, sym, ◌∙◌, Option, none, some, List, arith, Bool-cases, inl,
  inr,
}
use multiport_network.Interfaces.{ReadReply, got, failed, Os, OsLaws, HashTable}
use multiport_network.Connection.{
  Conn, ConnState, conn_deal_with, conn_new_cmd, conn_waiting, conn_read, conn_closing, WorkState,
  parse_head, read_key_value, store_kvobj, query_key, write_bcak, ok, >>=-eq-ok, reset_cmd_handler,
}
use multiport_network.Connection.Input.{
  TryReadResult, try_read_network, compact, received, read_memory_error,
}
use multiport_network.Connection.Process.{
  Turn, after_read, found, wait, stored, deal_with, round, process_loop, process_func,
  event_handler, start_turn, process_loop_running, process_loop_stopped,
}
use multiport_network.Connection.Buffered.{IsBuffered, try_read_network-IsBuffered}
use multiport_network.Connection.Sound.{IsSound}
use multiport_network.Connection.Sound.Handlers.{
  deal_head-IsSound, try_read_key_value-IsSound, con_ret_buf-IsSound, send_batch-IsSound,
  write_back-IsSound,
}

found-IsSound : (c : Conn) (o : Option (List ℕ)) → IsSound c → IsSound (found c o)
unfolding found
found-IsSound c none v = ground arith
found-IsSound c (some x) v = ground arith

found-conn_state : (c : Conn) (o : Option (List ℕ)) → (found c o).conn_state ≡ c.conn_state
unfolding found
found-conn_state c none = refl
found-conn_state c (some x) = refl

-- A read leaves all but the receive buffer and its counters.
pub record SameWork (c c' : Conn) : Type 0 where
  pub work : c'.work_state ≡ c.work_state
  pub command : c'.cmd ≡ c.cmd
  pub header : c'.binary_header ≡ c.binary_header
  pub batching : c'.in_batch_get ≡ c.in_batch_get
  pub bufs : c'.batch_ret_vector ≡ c.batch_ret_vector
  pub count : c'.batch_count ≡ c.batch_count
  pub num : c'.batch_num ≡ c.batch_num
  pub fd : c'.sfd ≡ c.sfd
  pub ret_buf : c'.ret_buf ≡ c.ret_buf
  pub ret_size : c'.ret_buf_size ≡ c.ret_buf_size
  pub ret_offset : c'.ret_buf_offset ≡ c.ret_buf_offset
  pub ret_bytes : c'.ret_bytes ≡ c.ret_bytes

received-SameWork : (c : Conn) (r : ReadReply) → SameWork c (received c r).1
unfolding received
received-SameWork c (got []) = ground arith
received-SameWork c (got (b ∷ bytes)) = ground arith
received-SameWork c (failed errno) = ground arith

compact-SameWork : (c : Conn) → SameWork c (compact c)
unfolding compact
compact-SameWork c = ground arith

pub try_read_network-SameWork :
    {Net : Type 0} (os : Os Net) (c : Conn) (net : Net) → SameWork c (try_read_network os c net).1
unfolding try_read_network
try_read_network-SameWork os c net =
    let c' = compact c in
    ground (
      arith,
      compact-SameWork c,
      received-SameWork c' (os.read net c'.sfd (c'.read_buf_size - c'.remaining_bytes)).0,
    )

after_read-IsSound :
    (res : TryReadResult) (c c' c'' : Conn)
    → IsSound c
    → c.conn_state ≡ conn_read
    → SameWork c c'
    → IsBuffered c'
    → after_read res c' ≡ ok c''
    → IsSound c''
unfolding after_read
after_read-IsSound read_memory_error c c' c'' v cs w b e = cc
after_read-IsSound _ c c' c'' v cs w b e = ground arith

wait-IsSound :
    (c : Conn) (w : WorkState)
    → IsSound c
    → c.conn_state ≡ conn_waiting
    → c.work_state ≡ w
    → IsSound (wait c w)
unfolding wait
wait-IsSound c parse_head v cs ws = ground arith
wait-IsSound c _ v cs ws = ground arith

reset-IsSound : (c : Conn) → IsSound c → c.conn_state ≡ conn_new_cmd → IsSound (reset_cmd_handler c)
unfolding reset_cmd_handler
reset-IsSound c v cs = ground arith

module _ {Net Map : Type 0} (os : Os Net) (ht : HashTable Map) (laws : OsLaws os) where
  deal_with-IsSound :
      (w : WorkState) (c : Conn) (net : Net) (m : Map) (r : Conn × Net × Map)
      → c.work_state ≡ w
      → c.conn_state ≡ conn_deal_with
      → IsSound c
      → deal_with os ht w c net m ≡ ok r
      → IsSound r.0
  unfolding deal_with stored
  deal_with-IsSound parse_head c net m r ws cs v e = ground (arith, deal_head-IsSound c r.0)
  deal_with-IsSound read_key_value c net m r ws cs v e =
      ground (arith, try_read_key_value-IsSound c)
  deal_with-IsSound store_kvobj c net m r ws cs v e = ground arith
  deal_with-IsSound query_key c net m r ws cs v e =
      let o = ht.find m c.key in
      ground (arith, con_ret_buf-IsSound (found c o) r.0, found-IsSound c o, found-conn_state c o)
  deal_with-IsSound write_bcak c net m r ws cs v e =
      ground (arith, send_batch-IsSound os c net (r.0, r.1), write_back-IsSound os c net (r.0, r.1))

  pub round-IsSound :
      (s : ConnState) (t t' : Turn Net Map)
      → t.conn.conn_state ≡ s
      → IsSound t.conn
      → round os ht s t ≡ ok t'
      → IsSound t'.conn
  unfolding round
  round-IsSound conn_read t t' cs v e =
      let (res, c', net') = try_read_network os t.conn t.net in
      ground (
        arith,
        try_read_network-SameWork os t.conn t.net,
        try_read_network-IsBuffered os laws t.conn t.net v.buffered,
        after_read-IsSound res t.conn c' t'.conn,
      )
  round-IsSound conn_new_cmd t t' cs v e = ground (arith, reset-IsSound t.conn)
  round-IsSound conn_deal_with t t' cs v e =
      ground (
        arith,
        deal_with-IsSound t.conn.work_state t.conn t.net t.table (t'.conn, t'.net, t'.table),
      )
  round-IsSound conn_waiting t t' cs v e = ground (arith, wait-IsSound t.conn t.conn.work_state)
  round-IsSound conn_closing t t' cs v e = ground arith
  round-IsSound _ t t' cs v e = ground arith

  process_loop-IsSound :
      (n : ℕ) (t t' : Turn Net Map)
      → IsSound t.conn
      → process_loop os ht n t ≡ ok t'
      → IsSound t'.conn
  unfolding process_loop
  process_loop-IsSound zero t t' v e = ground arith
  process_loop-IsSound (suc n) t t' v e = elim (Bool-cases t.stop) [
    | inl stopped ↦ ground (arith, process_loop_stopped os ht (suc n) t stopped)
    | inr running ↦
        let (u, first, rest) =
          >>=-eq-ok (round os ht t.conn.conn_state t) (λ u. process_loop os ht n u)
            (sym (process_loop_running os ht n t running) ∙ e) in
        process_loop-IsSound n u t' (round-IsSound t.conn.conn_state t u refl v first) rest
  ]

  -- Over sockets that keep `OsLaws`, a call of `event_handler` on a sound connection, when it
  -- returns, leaves the connection sound, whatever was received, however far it got and whichever
  -- way it ended the loop.
  pub event_handler-IsSound :
      (rounds fd : ℕ) (c : Conn) (net : Net) (m : Map) (t : Turn Net Map)
      → IsSound c
      → event_handler os ht rounds fd c net m ≡ ok t
      → IsSound t.conn
  unfolding event_handler process_func
  event_handler-IsSound rounds fd c net m t v e =
      ground (arith, process_loop-IsSound rounds (start_turn os ht c net m) t)
