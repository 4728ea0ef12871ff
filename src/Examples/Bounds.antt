-- ===== src/Examples/Bounds.antt =====
-- The theorems on batches, on limits and on the making of connections, at the connections of
-- `Fixtures`, and those on the header and on `KVOBJ`.
use multiport_network.Base.{◌≡◌, refl, true, false, inl, [], ◌∷◌, ◌++◌, arith, drop}
use multiport_network.Base.Buffers.{slice}
use multiport_network.Protocol.{store_header}
use multiport_network.Interfaces.Reference.{Wire, wire_os, wire_laws, wire_write, assoc_table}
use multiport_network.Connection.Buffered.{IsBuffered}
use multiport_network.Connection.{Conn, ConnState, ok, fault, conn_waiting}
use multiport_network.Connection.Reply.{con_ret_buf, back, answer}
use multiport_network.Connection.Batch.{send_batch, flush_front, wrote_batch, count_request}
use multiport_network.Connection.Process.{Turn, process_func, event_handler}
use multiport_network.Connection.Termination.{IsStuck}
use multiport_network.Connection.Termination.Loop.{process_func_never_stops}
use multiport_network.Connection.Outbox.{Appends, AllFilled, unsent}
use multiport_network.Connection.Outbox.Flow.{
  con_ret_buf_fits-Appends, con_ret_buf_hit_fits, con_ret_buf_miss_overflows, send_batch-unsent,
}
use multiport_network.Connection.Limits.{con_ret_buf-IsStuck}
use multiport_network.Connection.Limits.Oversized.{IsOversized, event_handler-IsOversized}
use multiport_network.Connection.Create.{
  init_conns, conn_new, IsFresh, allocate, reset_conn, conn_new-IsFresh,
}
use multiport_network.Kvobj.{create_kvobj, create_kvobj_overflows}
use multiport_network.Examples.Runs.{oversized_served}
use multiport_network.Examples.Fixtures.{
  length-zeros, zeros, at_set, idle_wire, empty_table, turn_of, sample_key, sample_value, in_batch,
  complete_buf, complete_batch, empty_batch, oversized,
}

full_buffer : (s : ConnState) → IsBuffered (record at_set { conn_state = s })
unfolding store_header
full_buffer s = record { size = refl; held = omega (arith, length-zeros 979); fits = omega arith }

complete_done : (r : Conn × Wire) × (send_batch wire_os complete_batch idle_wire ≡ ok r)
unfolding send_batch flush_front wrote_batch count_request wire_write
complete_done = (_, refl)

con_ret_buf_fits-Appends_example :
    (c : Conn) × (con_ret_buf (in_batch 10) ≡ ok c) × Appends (in_batch 10) c
unfolding zeros answer
con_ret_buf_fits-Appends_example =
    con_ret_buf_fits-Appends (in_batch 10) refl (omega arith)
      (record { held = refl; sent = omega arith; fits = omega arith }, tt) (omega arith)
      (omega arith)

con_ret_buf_miss_overflows_example :
    con_ret_buf (record (in_batch 999985) { value = []; query_hit = false }) ≡ fault
unfolding back
con_ret_buf_miss_overflows_example =
    con_ret_buf_miss_overflows (record (in_batch 999985) { value = []; query_hit = false })
      (record { buf = zeros 999985; datalen = 999985; offset = 0 }) refl refl refl (omega arith)
      (omega arith)

oversized-IsOversized : IsOversized oversized
oversized-IsOversized = record {
  sound = record {
    buffered = record {
      size = refl;
      held = (full_buffer conn_waiting).held;
      fits = (full_buffer conn_waiting).fits;
    };
    phase = tt;
    command = inl (refl, omega arith, omega arith);
    batching = tt;
  };
  reading = refl;
  setting = refl;
  large = omega arith;
}

event_handler-IsOversized_example :
    IsOversized
      (turn_of (event_handler wire_os assoc_table 8 7 oversized idle_wire empty_table)).conn
    × ((turn_of (event_handler wire_os assoc_table 8 7 oversized idle_wire empty_table)).table
        ≡ empty_table)
event_handler-IsOversized_example =
    event_handler-IsOversized wire_os assoc_table wire_laws 8 7 oversized idle_wire empty_table
      (turn_of (event_handler wire_os assoc_table 8 7 oversized idle_wire empty_table))
      oversized-IsOversized oversized_served

send_batch-unsent_example :
    (slice complete_buf.buf 1 2 ++ unsent [] ≡ unsent (complete_buf ∷ []))
    × (complete_done.0.1 ≡ (wire_write idle_wire 7 (slice complete_buf.buf 1 2)).1)
    × (unsent complete_done.0.0.batch_ret_vector
        ≡ drop
            (wire_write idle_wire 7 (slice complete_buf.buf 1 2)).0.count
            (unsent (complete_buf ∷ [])))
    × AllFilled complete_done.0.0.batch_ret_vector
send_batch-unsent_example =
    send_batch-unsent wire_os wire_laws complete_batch idle_wire complete_buf [] complete_done.0
      refl (record { held = refl; sent = omega arith; fits = omega arith }, tt) refl complete_done.1

empty_done : (c : Conn) × (con_ret_buf empty_batch ≡ ok c)
empty_done = con_ret_buf_hit_fits empty_batch refl (omega arith) refl (omega arith)

con_ret_buf-IsStuck_example : IsStuck empty_done.0
con_ret_buf-IsStuck_example =
    con_ret_buf-IsStuck empty_batch empty_done.0 refl refl (omega arith) (omega arith) empty_done.1

process_func_never_stops_example :
    (t : Turn _ _) × (process_func wire_os assoc_table 5000 empty_done.0 idle_wire empty_table
      ≡ ok t)
    × (t.stop ≡ false)
process_func_never_stops_example =
    process_func_never_stops wire_os assoc_table wire_laws empty_done.0 idle_wire empty_table 5000
      con_ret_buf-IsStuck_example

abbrev raw : Conn
raw = record at_set { read_buf = zeros 1000; ret_buf_offset = 3 }

conn_new-IsFresh_example :
    (init_conns ≡ init_conns)
    × IsFresh (reset_conn (allocate raw) 5 2)
    × ((reset_conn (allocate raw) 5 2).sfd ≡ 5)
    × ((reset_conn (allocate raw) 5 2).thread_index ≡ 2)
unfolding conn_new init_conns
conn_new-IsFresh_example =
    conn_new-IsFresh raw (reset_conn (allocate raw) 5 2) init_conns 5 2 true
      (record { read_size = length-zeros 1000; ret_size = length-zeros 1000 }) refl

create_kvobj_overflows_example : create_kvobj 1 sample_key 8 sample_value ≡ fault
create_kvobj_overflows_example = create_kvobj_overflows 1 8 sample_key sample_value
