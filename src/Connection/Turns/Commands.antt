-- ===== src/Connection/Turns/Commands.antt =====
-- server.cpp: from one command of a connection to the next, also over the end of a call and where
-- nothing of the next command has come.
use mathlib.Core.Path.{subst}
use multiport_network.Base.{
  ℕ, ◌+◌, ◌<◌, ◌≡◌, refl, sym, true, false, inl, inr, List, length, arith, ltb, Bool-cases,
}
use multiport_network.Interfaces.{Os, OsLaws, HashTable, Feeds}
use multiport_network.Connection.{
  ConnState, conn_deal_with, conn_waiting, conn_new_cmd, parse_head, ok, reset_cmd_handler,
  round_num,
}
use multiport_network.Connection.Process.{Turn, round, start_turn}
use multiport_network.Connection.Buffered.{IsBuffered}
use multiport_network.Connection.Turns.{Runs, step, again, done}
use multiport_network.Connection.Turns.Reading.{stream, Reached, Reached-from, read_more}
use multiport_network.Connection.Turns.Gathering.{more_comes}

module _ {Net Map : Type 0} (os : Os Net) (ht : HashTable Map) where
  reset_running :
      (s : ConnState) (t : Turn Net Map)
      → s ≡ conn_new_cmd
      → ltb (t.inst_count + 1) round_num ≡ true
      → round os ht s t
        ≡ ok (record t { conn = reset_cmd_handler t.conn; inst_count = t.inst_count + 1 })
  unfolding round
  reset_running conn_new_cmd t e few = ground arith
  reset_running _ t e few = cc e

  reset_stopping :
      (s : ConnState) (t : Turn Net Map)
      → s ≡ conn_new_cmd
      → ltb (t.inst_count + 1) round_num ≡ false
      → round os ht s t ≡ ok (record t { inst_count = t.inst_count + 1; stop = true })
  unfolding round
  reset_stopping conn_new_cmd t e many = ground arith
  reset_stopping _ t e many = cc e

  abbrev next_turn : Turn Net Map → ℕ → Turn Net Map
  next_turn t i = record t { conn = reset_cmd_handler t.conn; inst_count = i }

  -- The next command is looked for at once, or in the next call, for which there is input.
  Runs-reset :
      (incoming : Net → ℕ → List ℕ) (t : Turn Net Map)
      → 0 < length (incoming t.net t.conn.sfd)
      → t.stop ≡ false
      → t.conn.conn_state ≡ conn_new_cmd
      → (i : ℕ) × ((v : Turn Net Map)
          → Runs os ht incoming (next_turn t i) v
          → Runs os ht incoming t v)
  Runs-reset incoming t readable running e = elim (Bool-cases (ltb (t.inst_count + 1) round_num)) [
    | inl few ↦ (
      t.inst_count + 1,
      λ v r.
          step t (next_turn t (t.inst_count + 1)) v running
            (reset_running t.conn.conn_state t e few) r,
    )
    | inr many ↦ (
      1,
      λ v r.
          step t (record t { inst_count = t.inst_count + 1; stop = true }) v running
            (reset_stopping t.conn.conn_state t e many)
            (again (record t { inst_count = t.inst_count + 1; stop = true }) v refl (λ c. cc)
              readable
              (step (start_turn os ht t.conn t.net t.table)
                (next_turn (start_turn os ht t.conn t.net t.table) 1) v refl
                (reset_running t.conn.conn_state (start_turn os ht t.conn t.net t.table) e
                  (ground arith))
                (subst (λ st. Runs os ht incoming (record (next_turn t 1) { stop = st }) v) running
                  r))),
    )
  ]

module _ {Net Map : Type 0} (os : Os Net) (ht : HashTable Map) (incoming sent : Net → ℕ → List ℕ)
    (laws : OsLaws os) (feeds : Feeds os incoming sent) where
  -- While there is more input than the buffer holds, the next command is come to.
  pub next_command :
      (t : Turn Net Map)
      → t.stop ≡ false
      → t.conn.conn_state ≡ conn_new_cmd
      → t.conn.work_state ≡ parse_head
      → IsBuffered t.conn
      → 1000 < length (stream os ht incoming sent t)
      → (u : Turn Net Map) × Reached os ht incoming sent t u
  unfolding reset_cmd_handler
  next_command t running e w v much_in =
      let readable = more_comes os ht incoming sent t v much_in in
      let (i, k) = Runs-reset os ht incoming t readable running e in
      elim (Bool-cases (ltb 0 t.conn.remaining_bytes)) [
        | inl more ↦
            let u = record t {
              conn = record t.conn { conn_state = conn_deal_with };
              inst_count = i;
            } in
            let same : next_turn os ht t i ≡ u = rw more in
            (
              u,
              record {
                runs = k u (subst (λ s. Runs os ht incoming s u) (sym same) (done u));
                running = running;
                dealing = refl;
                work = ground arith;
                buffered = record { size = v.size; held = v.held; fits = v.fits };
                same_stream = refl;
                same_sent = refl;
                same_table = refl;
              },
            )
        | inr none_left ↦
            let s = record t {
              conn = record t.conn { conn_state = conn_waiting };
              inst_count = i;
            } in
            let same : next_turn os ht t i ≡ s = rw none_left in
            let empty : t.conn.remaining_bytes ≡ 0 = ground arith in
            let size = v.size in
            let (u, q, fewer) =
              read_more os ht incoming sent laws feeds s running refl (inl w)
                (record { size = v.size; held = v.held; fits = v.fits }) (omega arith) readable in
            (
              u,
              Reached-from os ht incoming sent t u conn_waiting i t.stop
                  (k u (subst (λ x. Runs os ht incoming x u) (sym same) q.runs)) q,
            )
      ]
