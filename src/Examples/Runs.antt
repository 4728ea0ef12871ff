-- ===== src/Examples/Runs.antt =====
-- Calls of `event_handler` at the connections of `Fixtures`, run to their ends.
use multiport_network.Base.{◌≡◌, refl}
use multiport_network.Base.Buffers.{patch}
use multiport_network.Interfaces.Reference.{wire_os, wire_read, assoc_table}
use multiport_network.Protocol.{store_header, swap16, swap32, load_header}
use multiport_network.Connection.{ok, reset_cmd_handler}
use multiport_network.Connection.Input.{try_read_network, compact, received}
use multiport_network.Connection.Parse.{
  try_read_head_binary, take_head, skip_head, dispatch_bin_command, host_header, try_read_key_value,
  read_set, skip_body, begin_batch,
}
use multiport_network.Connection.Process.{
  event_handler, process_func, process_loop, round, deal_with, deal_head, after_head,
  after_key_value, after_read, stored, wait,
}
use multiport_network.Examples.Fixtures.{zeros, at_set, oversized, idle_wire, empty_table, turn_of}

-- A whole SET, and then no more input.
pub at_set_served :
    event_handler wire_os assoc_table 8 7 at_set idle_wire empty_table
    ≡ ok (turn_of (event_handler wire_os assoc_table 8 7 at_set idle_wire empty_table))
unfolding event_handler process_func process_loop round deal_with deal_head store_header
    try_read_head_binary take_head skip_head dispatch_bin_command host_header swap32 load_header
    swap16 after_key_value try_read_key_value stored reset_cmd_handler patch try_read_network
    compact received begin_batch read_set skip_body after_head after_read wait wire_read zeros
at_set_served = refl

pub process_func-at_set :
    process_func wire_os assoc_table 8 at_set idle_wire empty_table
    ≡ ok (turn_of (event_handler wire_os assoc_table 8 7 at_set idle_wire empty_table))
unfolding event_handler
process_func-at_set = at_set_served

pub oversized_served :
    event_handler wire_os assoc_table 8 7 oversized idle_wire empty_table
    ≡ ok (turn_of (event_handler wire_os assoc_table 8 7 oversized idle_wire empty_table))
unfolding event_handler process_func process_loop round wait
oversized_served = refl
