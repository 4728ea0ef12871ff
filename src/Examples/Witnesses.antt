-- ===== src/Examples/Witnesses.antt =====
-- The theorems at the connections of `Fixtures`, with the wire and the table of
-- `Interfaces.Reference`.
use multiport_network.Base.{ℕ, suc, ◌≡◌, refl, [], ◌∷◌, ◌++◌, arith}
use multiport_network.Base.Buffers.{slice}
use multiport_network.Interfaces.{got}
use multiport_network.Interfaces.Reference.{
  Wire, wire_os, wire_laws, wire_read, wire_write, Assoc, assoc_table, assoc_table_find,
}
use multiport_network.Protocol.{swap16, store_header}
use multiport_network.Connection.{conn_new_cmd, parse_head, pending}
use multiport_network.Connection.Input.{try_read_network}
use multiport_network.Connection.Process.{Turn, event_handler, process_func, process_loop}
use multiport_network.Connection.Buffered.{Reads, try_read_network-Reads}
use multiport_network.Connection.Sound.{IsSound}
use multiport_network.Connection.Sound.Rounds.{event_handler-IsSound}
use multiport_network.Connection.Termination.{Ends, enough_rounds}
use multiport_network.Connection.Termination.Loop.{process_func-Ends}
use multiport_network.Connection.Service.Store.{set_stores}
use multiport_network.Connection.Service.Query.Replies.{get_hit, get_miss, hit_packet, miss_packet}
use multiport_network.Examples.Runs.{at_set_served}
use multiport_network.Examples.Fixtures.{
  at_set, at_get, idle_wire, empty_table, full_table, turn_at, turn_of, sample_key, sample_value,
  set_header, get_header, at_set-AtRequest, at_get-AtGet,
}

at_set-IsSound : IsSound at_set
at_set-IsSound = record {
  buffered = at_set-AtRequest.buffered;
  phase = tt;
  command = tt;
  batching = tt;
}

event_handler-IsSound_example :
    IsSound (turn_of (event_handler wire_os assoc_table 8 7 at_set idle_wire empty_table)).conn
event_handler-IsSound_example =
    event_handler-IsSound wire_os assoc_table wire_laws 8 7 at_set idle_wire empty_table
      (turn_of (event_handler wire_os assoc_table 8 7 at_set idle_wire empty_table)) at_set-IsSound
      at_set_served

process_func-Ends_example :
    Ends (process_func wire_os assoc_table enough_rounds at_set idle_wire empty_table)
process_func-Ends_example =
    process_func-Ends wire_os assoc_table wire_laws at_set idle_wire empty_table at_set-IsSound

set_stores_example :
    (t : Turn Wire Assoc) × ((n : ℕ)
      → process_loop wire_os assoc_table (suc (suc (suc n))) (turn_at at_set empty_table)
        ≡ process_loop wire_os assoc_table n t)
    × (t.table ≡ full_table)
    × (t.net ≡ idle_wire)
    × (pending t.conn ≡ [])
    × (t.conn.conn_state ≡ conn_new_cmd)
    × (t.conn.work_state ≡ parse_head)
unfolding swap16
set_stores_example =
    set_stores wire_os assoc_table (turn_at at_set empty_table) set_header sample_key sample_value
      [] refl at_set-AtRequest refl (omega arith) (omega arith)

get_hit_example :
    (t : Turn Wire Assoc) × ((n : ℕ)
      → process_loop wire_os assoc_table (suc (suc (suc (suc n)))) (turn_at at_get full_table)
        ≡ process_loop wire_os assoc_table n t)
    × (t.net ≡ (wire_write idle_wire 7 (hit_packet sample_key sample_value)).1)
    × (t.table ≡ full_table)
    × (t.conn.conn_state ≡ conn_new_cmd)
    × (t.conn.work_state ≡ parse_head)
    × (pending t.conn ≡ [])
unfolding wire_write assoc_table_find hit_packet store_header
get_hit_example =
    get_hit wire_os assoc_table (turn_at at_get full_table) get_header sample_key [] refl
      at_get-AtGet sample_value refl (omega arith) refl

try_read_network-Reads_example : Reads (pending at_set) (got (1 ∷ 2 ∷ [])) (
    let (res, c, net) =
      try_read_network wire_os at_set (record idle_wire { inbound = got (1 ∷ 2 ∷ []) ∷ [] }) in
    (res, c))
unfolding wire_read
try_read_network-Reads_example =
    try_read_network-Reads wire_os wire_laws at_set
      (record idle_wire { inbound = got (1 ∷ 2 ∷ []) ∷ [] }) at_set-AtRequest.buffered

get_miss_example :
    (t : Turn Wire Assoc) × ((n : ℕ)
      → process_loop wire_os assoc_table (suc (suc (suc (suc n)))) (turn_at at_get empty_table)
        ≡ process_loop wire_os assoc_table n t)
    × (t.net ≡ (wire_write idle_wire 7 (miss_packet sample_key [] ++ slice at_get.ret_buf 21 21)).1)
    × (t.table ≡ empty_table)
unfolding assoc_table_find
get_miss_example =
    get_miss wire_os assoc_table (turn_at at_get empty_table) get_header sample_key [] refl
      at_get-AtGet refl (omega arith)
