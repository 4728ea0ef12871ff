-- ===== src/Connection/Termination/Loop.antt =====
-- The measure in the rounds of `process_func`.
use multiport_network.Base.{
  ℕ, zero, suc, ◌≤◌, ◌<◌, ◌≡◌, refl, ap, ◌∙◌, true, false, ◌⊎◌, inl, inr, Option, none, some, List,
  arith, Bool-cases,
}
use multiport_network.Interfaces.{Os, OsLaws, HashTable}
use multiport_network.Connection.{
  Conn, ConnState, conn_deal_with, conn_new_cmd, conn_waiting, conn_read, conn_closing, WorkState,
  parse_head, read_key_value, store_kvobj, query_key, write_bcak, Outcome, ok, exits, fault, ◌>>=◌,
}
use multiport_network.Connection.Input.{TryReadResult, try_read_network, read_memory_error}
use multiport_network.Connection.Batch.{count_request, send_batch}
use multiport_network.Connection.Process.{
  Turn, after_read, found, stored, deal_with, round, process_loop, process_func, start_turn,
  process_loop_running, process_loop_stopped,
}
use multiport_network.Connection.Buffered.{try_read_network-IsBuffered}
use multiport_network.Connection.Sound.{IsSound}
use multiport_network.Connection.Sound.Rounds.{SameWork, try_read_network-SameWork, round-IsSound}
use multiport_network.Connection.Termination.{measure, IsStuck, Ends, enough_rounds}
use multiport_network.Connection.Termination.Progress.{
  deal_head-progress, read_key_value-progress, con_ret_buf-Replied, reset-progress,
  send_batch-progress, write_back-progress,
}

-- What one round does to the measure.
abbrev Advances : {Net Map : Type 0} → Turn Net Map → Turn Net Map → Type 0
Advances t t' = (t'.stop ≡ true) ⊎ ((measure t'.conn < measure t.conn) ⊎ IsStuck t.conn)

found_keeps :
    (c : Conn) (o : Option (List ℕ))
    → ((found c o).conn_state ≡ c.conn_state) × ((found c o).remaining_bytes ≡ c.remaining_bytes)
unfolding found
found_keeps c none = (refl, refl)
found_keeps c (some x) = (refl, refl)

after_read-progress :
    (res : TryReadResult) (c c' c'' : Conn)
    → IsSound c
    → c.conn_state ≡ conn_read
    → SameWork c c'
    → c'.remaining_bytes ≤ 1000
    → after_read res c' ≡ ok c''
    → measure c'' < measure c
unfolding after_read
after_read-progress read_memory_error c c' c'' v cs w b e = cc
after_read-progress _ c c' c'' v cs w b e = ground arith

measure-lt-enough_rounds : (c : Conn) → IsSound c → measure c < enough_rounds
measure-lt-enough_rounds c v = ground arith

module _ {Net Map : Type 0} (os : Os Net) (ht : HashTable Map) (laws : OsLaws os) where
  deal_with-progress :
      (w : WorkState) (c : Conn) (net : Net) (m : Map) (r : Conn × Net × Map)
      → c.work_state ≡ w
      → c.conn_state ≡ conn_deal_with
      → deal_with os ht w c net m ≡ ok r
      → (measure r.0 < measure c) ⊎ IsStuck c
  unfolding deal_with stored
  deal_with-progress parse_head c net m r ws cs e = ground (arith, deal_head-progress c r.0)
  deal_with-progress read_key_value c net m r ws cs e = ground (arith, read_key_value-progress c)
  deal_with-progress store_kvobj c net m r ws cs e = ground arith
  deal_with-progress query_key c net m r ws cs e =
      let o = ht.find m c.key in
      ground (arith, con_ret_buf-Replied (found c o) r.0, found_keeps c o)
  deal_with-progress write_bcak c net m r ws cs e = ground (
    arith,
    send_batch-progress os laws c net (r.0, r.1) cs ws,
    write_back-progress os laws c net (r.0, r.1) cs ws,
  )

  round-Advances :
      (s : ConnState) (t t' : Turn Net Map)
      → t.conn.conn_state ≡ s
      → IsSound t.conn
      → round os ht s t ≡ ok t'
      → Advances t t'
  unfolding round
  round-Advances conn_read t t' cs v e =
      let (res, c', net') = try_read_network os t.conn t.net in
      ground (
        arith,
        try_read_network-SameWork os t.conn t.net,
        try_read_network-IsBuffered os laws t.conn t.net v.buffered,
        after_read-progress res t.conn c' t'.conn,
      )
  round-Advances conn_new_cmd t t' cs v e = ground (arith, reset-progress t.conn)
  round-Advances conn_deal_with t t' cs v e =
      ground (
        arith,
        deal_with-progress t.conn.work_state t.conn t.net t.table (t'.conn, t'.net, t'.table),
      )
  round-Advances conn_waiting t t' cs v e = ground arith
  round-Advances conn_closing t t' cs v e = ground arith
  round-Advances _ t t' cs v e = ground arith

  count_request-IsStuck : (c : Conn) → IsStuck c → IsStuck (count_request c)
  unfolding count_request
  count_request-IsStuck c k = ground arith

  deal_with-IsStuck :
      (w : WorkState) (c : Conn) (net : Net) (m : Map)
      → c.work_state ≡ w
      → IsStuck c
      → deal_with os ht w c net m ≡ ok (count_request c, net, m)
  unfolding deal_with send_batch
  deal_with-IsStuck write_bcak c net m ws k = ground arith
  deal_with-IsStuck parse_head c net m ws k = cc k.writing
  deal_with-IsStuck read_key_value c net m ws k = cc k.writing
  deal_with-IsStuck store_kvobj c net m ws k = cc k.writing
  deal_with-IsStuck query_key c net m ws k = cc k.writing

  round-IsStuck :
      (s : ConnState) (t : Turn Net Map)
      → t.conn.conn_state ≡ s
      → IsStuck t.conn
      → round os ht s t ≡ ok (record t { conn = count_request t.conn })
  unfolding round
  round-IsStuck conn_deal_with t cs k =
      ground (arith, deal_with-IsStuck t.conn.work_state t.conn t.net t.table)
  round-IsStuck _ t cs k = cc k.dealing

  -- A stuck batch is never left: after any number of rounds the loop still runs.
  pub process_loop-IsStuck :
      (n : ℕ) (t : Turn Net Map)
      → t.stop ≡ false
      → IsStuck t.conn
      → (t' : Turn Net Map) × (process_loop os ht n t ≡ ok t') × (t'.stop ≡ false) × IsStuck t'.conn
  unfolding process_loop
  process_loop-IsStuck zero t running k = (t, refl, running, k)
  process_loop-IsStuck (suc n) t running k =
      let (t', e, r, k') =
        process_loop-IsStuck n (record t { conn = count_request t.conn }) running
          (count_request-IsStuck t.conn k) in
      (
        t',
        process_loop_running os ht n t running
            ∙ ap (λ x. x >>= λ u. process_loop os ht n u) (round-IsStuck t.conn.conn_state t refl k)
            ∙ e,
        r,
        k',
      )

  Ends-bind :
      (o : Outcome (Turn Net Map)) (f : Turn Net Map → Outcome (Turn Net Map))
      → ((u : Turn Net Map) → o ≡ ok u → Ends (f u))
      → Ends (o >>= f)
  Ends-bind (ok u) f h = h u refl
  Ends-bind exits f h = tt
  Ends-bind fault f h = tt

  round-stop :
      (t u : Turn Net Map)
      → IsStuck t.conn
      → round os ht t.conn.conn_state t ≡ ok u
      → (u.stop ≡ t.stop) × IsStuck u.conn
  round-stop t u k e =
      ground (arith, round-IsStuck t.conn.conn_state t refl k, count_request-IsStuck t.conn k)

  process_loop-Ends :
      (n : ℕ) (t : Turn Net Map)
      → IsSound t.conn
      → measure t.conn < n
      → Ends (process_loop os ht n t)
  process_loop-Ends zero t v h = absurd (omega arith)
  process_loop-Ends (suc n) t v h = elim (Bool-cases t.stop) [
    | inl stopped ↦ rw (process_loop_stopped os ht (suc n) t stopped) (inl stopped)
    | inr running ↦ rw (process_loop_running os ht n t running) (
        Ends-bind (round os ht t.conn.conn_state t) (λ u. process_loop os ht n u)
          λ u e. elim (round-Advances t.conn.conn_state t u refl v e) [
            | inl stops ↦ rw (process_loop_stopped os ht n u stops) (inl stops)
            | inr (inl less) ↦
                process_loop-Ends n u (round-IsSound os ht laws t.conn.conn_state t u refl v e)
                  (omega arith)
            | inr (inr k) ↦
                let (same, k') = round-stop t u k e in
                let (t', e', r, k'') = process_loop-IsStuck n u (same ∙ running) k' in
                rw e' (inr k'')
          ])
  ]

  -- Over sockets that keep `OsLaws`, a handler that is called on a sound connection ends within
  -- `enough_rounds` rounds of its loop: it returns, the process exits or faults, or the
  -- connection is a stuck batch.
  pub process_func-Ends :
      (c : Conn) (net : Net) (m : Map) → IsSound c → Ends (process_func os ht enough_rounds c net m)
  unfolding process_func
  process_func-Ends c net m v =
      process_loop-Ends enough_rounds (start_turn os ht c net m) v (measure-lt-enough_rounds c v)

  -- From a stuck batch the handler never returns, however many rounds it is given.
  pub process_func_never_stops :
      (c : Conn) (net : Net) (m : Map) (rounds : ℕ)
      → IsStuck c
      → (t : Turn Net Map) × (process_func os ht rounds c net m ≡ ok t) × (t.stop ≡ false)
  unfolding process_func
  process_func_never_stops c net m rounds k =
      let (t, e, r, _) = process_loop-IsStuck rounds (start_turn os ht c net m) refl k in (t, e, r)
