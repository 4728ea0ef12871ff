-- ===== src/Connection/Limits/Oversized.antt =====
-- server.cpp: a SET whose body is larger than the receive buffer.
use multiport_network.Base.{ℕ, zero, suc, ◌<◌, ◌≡◌, refl, sym, ◌∙◌, inl, inr, arith, Bool-cases}
use multiport_network.Interfaces.{Os, OsLaws, HashTable}
use multiport_network.Protocol.{cmd_set}
use multiport_network.Connection.{
  Conn, ConnState, conn_deal_with, conn_new_cmd, conn_waiting, conn_read, conn_closing, WorkState,
  parse_head, read_key_value, store_kvobj, query_key, write_bcak, ok, init_read_buf_size, >>=-eq-ok,
}
use multiport_network.Connection.Input.{TryReadResult, try_read_network, read_memory_error}
use multiport_network.Connection.Parse.{try_read_key_value}
use multiport_network.Connection.Process.{
  Turn, after_read, after_key_value, wait, deal_with, round, process_loop, process_func, start_turn,
  event_handler, process_loop_running, process_loop_stopped,
}
use multiport_network.Connection.Sound.{IsSound}
use multiport_network.Connection.Sound.Rounds.{SameWork, try_read_network-SameWork, round-IsSound}

pub record IsOversized (c : Conn) : Type 0 where
  pub sound : IsSound c
  pub reading : c.work_state ≡ read_key_value
  pub setting : c.cmd ≡ cmd_set
  pub large : init_read_buf_size < c.binary_header.totalbodylen

oversized_waits :
    (c : Conn)
    → IsOversized c
    → c.conn_state ≡ conn_deal_with
    → ((after_key_value (try_read_key_value c)).work_state ≡ read_key_value)
      × ((after_key_value (try_read_key_value c)).cmd ≡ cmd_set)
      × (init_read_buf_size < (after_key_value (try_read_key_value c)).binary_header.totalbodylen)
unfolding try_read_key_value after_key_value
oversized_waits c v cs = ground arith

module _ {Net Map : Type 0} (os : Os Net) (ht : HashTable Map) (laws : OsLaws os) where
  -- A round, with the table.
  record Waits (c c' : Conn) (m m' : Map) : Type 0 where
    reading : c'.work_state ≡ read_key_value
    setting : c'.cmd ≡ cmd_set
    large : init_read_buf_size < c'.binary_header.totalbodylen
    table : m' ≡ m

  deal_with-Waits :
      (w : WorkState) (c : Conn) (net : Net) (m : Map) (r : Conn × Net × Map)
      → c.work_state ≡ w
      → c.conn_state ≡ conn_deal_with
      → IsOversized c
      → deal_with os ht w c net m ≡ ok r
      → Waits c r.0 m r.2
  unfolding deal_with
  deal_with-Waits read_key_value c net m r ws cs v e = ground (arith, oversized_waits c v cs)
  deal_with-Waits parse_head c net m r ws cs v e = cc v.reading
  deal_with-Waits store_kvobj c net m r ws cs v e = cc v.reading
  deal_with-Waits query_key c net m r ws cs v e = cc v.reading
  deal_with-Waits write_bcak c net m r ws cs v e = cc v.reading

  after_read-Waits :
      (res : TryReadResult) (c c' c'' : Conn) (m : Map)
      → IsOversized c
      → SameWork c c'
      → after_read res c' ≡ ok c''
      → Waits c c'' m m
  unfolding after_read
  after_read-Waits read_memory_error c c' c'' m v s e = cc
  after_read-Waits _ c c' c'' m v s e = ground arith

  wait-Waits :
      (c : Conn) (w : WorkState) (m : Map)
      → c.work_state ≡ w
      → IsOversized c
      → Waits c (wait c w) m m
  unfolding wait
  wait-Waits c read_key_value m ws v = ground arith
  wait-Waits c _ m ws v = cc v.reading

  round-Waits :
      (s : ConnState) (t t' : Turn Net Map)
      → t.conn.conn_state ≡ s
      → IsOversized t.conn
      → round os ht s t ≡ ok t'
      → Waits t.conn t'.conn t.table t'.table
  unfolding round
  round-Waits conn_read t t' cs v e =
      let (res, c', net') = try_read_network os t.conn t.net in
      ground (
        arith,
        try_read_network-SameWork os t.conn t.net,
        after_read-Waits res t.conn c' t'.conn t.table,
      )
  round-Waits conn_deal_with t t' cs v e =
      ground
        (arith, deal_with-Waits t.conn.work_state t.conn t.net t.table (t'.conn, t'.net, t'.table))
  round-Waits conn_waiting t t' cs v e =
      ground (arith, wait-Waits t.conn t.conn.work_state t.table refl v)
  round-Waits conn_new_cmd t t' cs v e = ground arith
  round-Waits conn_closing t t' cs v e = ground arith
  round-Waits _ t t' cs v e = ground arith

  process_loop-IsOversized :
      (n : ℕ) (t t' : Turn Net Map)
      → IsOversized t.conn
      → process_loop os ht n t ≡ ok t'
      → IsOversized t'.conn × (t'.table ≡ t.table)
  unfolding process_loop
  process_loop-IsOversized zero t t' v e = ground arith
  process_loop-IsOversized (suc n) t t' v e = elim (Bool-cases t.stop) [
    | inl stopped ↦ ground (arith, process_loop_stopped os ht (suc n) t stopped)
    | inr running ↦
        let (u, first, rest) =
          >>=-eq-ok (round os ht t.conn.conn_state t) (λ u. process_loop os ht n u)
            (sym (process_loop_running os ht n t running) ∙ e) in
        let w = round-Waits t.conn.conn_state t u refl v first in
        let (v', same) =
          process_loop-IsOversized n u t'
            (record {
              sound = round-IsSound os ht laws t.conn.conn_state t u refl v.sound first;
              reading = w.reading;
              setting = w.setting;
              large = w.large;
            })
            rest in
        (v', same ∙ w.table)
  ]

  -- Over sockets that keep `OsLaws`, a connection that reads the body of a SET larger than the
  -- receive buffer stays so in every call of its handler that returns, and stores nothing.
  pub event_handler-IsOversized :
      (rounds fd : ℕ) (c : Conn) (net : Net) (m : Map) (t : Turn Net Map)
      → IsOversized c
      → event_handler os ht rounds fd c net m ≡ ok t
      → IsOversized t.conn × (t.table ≡ m)
  unfolding event_handler process_func
  event_handler-IsOversized rounds fd c net m t v e =
      ground (arith, process_loop-IsOversized rounds (start_turn os ht c net m) t)
