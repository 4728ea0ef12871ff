-- ===== src/Examples/Clients.antt =====
-- The theorems on the clients at small databases.
use multiport_network.Base.{
  ℕ, suc, ◌<◌, ◌≡◌, refl, inl, inr, Bool, false, true, ◌==◌, List, [], ◌∷◌, ◌++◌, arith, length,
  replicate, length-replicate,
}
use multiport_network.Interfaces.{Os, ReadReply, got, failed, eagain}
use multiport_network.Interfaces.Reference.{
  assoc_laws, wire_os, Wire, Assoc, assoc_table, tape_sockets,
}
use multiport_network.Protocol.{store_header, swap16, swap32}
use multiport_network.Connection.{Conn, ok, exits, conn_new_cmd, parse_head, pending}
use multiport_network.Connection.Process.{Turn, process_loop}
use multiport_network.Connection.Requests.Refused.{get_longer_exits}
use multiport_network.MicroTest.Package.{get, set, con_database, sprintf_d}
use multiport_network.MicroTest.Package.Layout.{
  make_package-package_of, package_header, package_of, packages_of, key_of, value_of,
  con_database-packages_of,
}
use multiport_network.MicroTest.Package.Served.{AtBytes, set_package_stored}
use multiport_network.MicroTest.Sender.{init, fetch_and_send, send_all}
use multiport_network.MicroTest.Sender.Flow.{
  Fetches, init-IsSender, fetch_and_send-Fetches, gathered,
}
use multiport_network.MicroTest.Sender.Delivery.{Delivers, send_all-Delivers, concat}
use multiport_network.MicroTest.Dispatch.{start_work}
use multiport_network.MicroTest.Dispatch.Cover.{take_works, all_handed, repeated, take_works-whole}
use multiport_network.GetBatch.Send.{Lane, lane_step}
use multiport_network.GetBatch.Send.Lanes.{IsLane}
use multiport_network.GetBatch.Send.Steps.{IsBounded, Steps, lane_step-Steps}
use multiport_network.DoubleBuf.{Inbox, recv_loop}
use multiport_network.DoubleBuf.Receiving.{Has, IsTransient, recv_loop_spins}
use multiport_network.LocalTest.{Database, pre_insert, run_rounds}
use multiport_network.LocalTest.Found.{pre_insert_found}
use multiport_network.Examples.Fixtures.{
  sample_key, sample_value, zeros, length-zeros, conn_with, idle_wire, empty_table, turn_at,
}

abbrev some_package : List ℕ
some_package = replicate 28 1

fetch_and_send-Fetches_example :
    Fetches tape_sockets
      (init 0 7)
      some_package
      []
      (fetch_and_send tape_sockets (init 0 7) some_package [])
fetch_and_send-Fetches_example =
    fetch_and_send-Fetches tape_sockets (init 0 7) some_package [] (init-IsSender 0 7)
      (length-replicate {A = ℕ} 28 1)

send_all-Delivers_example :
    Delivers
      (λ (net : List ℕ) (fd : ℕ). net)
      (init 0 7).fd
      ([] ++ (gathered (init 0 7) ++ concat (some_package ∷ some_package ∷ [])))
      (send_all tape_sockets (init 0 7) (some_package ∷ some_package ∷ []) [])
send_all-Delivers_example =
    send_all-Delivers tape_sockets (λ net fd. net)
      (record { takes = λ net fd bytes. refl; logs = λ net fd bytes. refl })
      (some_package ∷ some_package ∷ []) (init 0 7) [] (init-IsSender 0 7)
      (length-replicate {A = ℕ} 28 1, (length-replicate {A = ℕ} 28 1, tt))

take_works-whole_example :
    ((take_works 60000 4 (start_work 1)).1.stop ≡ true)
    × (all_handed (zeros 728000) (take_works 60000 4 (start_work 1)).0 ≡ repeated 1 (zeros 728000))
take_works-whole_example =
    take_works-whole 4 (omega arith) (omega arith) (zeros 728000) (length-zeros 728000) 1 60000
      (omega arith) (omega arith) (omega arith)

con_database-packages_of_example :
    con_database length 2 set (5 ∷ 31 ∷ []) ≡ ok (packages_of length 2 set (5 ∷ 31 ∷ []))
con_database-packages_of_example =
    con_database-packages_of length 2 set (5 ∷ 31 ∷ []) (omega arith, (omega arith, tt))
      (omega arith)

-- The server at a SET package of the client, and the pair `0fffffff` and `0ggggggg`.
abbrev at_set_package : Conn
at_set_package = conn_with (package_of length 2 set 5 ++ zeros 972) 28

abbrev at_get_longer : Conn
at_get_longer = conn_with (store_header (package_header 1 0) ++ (b'k' ∷ zeros 987)) 13

at_set_package-AtBytes : AtBytes at_set_package (package_of length 2 set 5 ++ [])
unfolding store_header sprintf_d
at_set_package-AtBytes = record {
  buffered = record { size = refl; held = omega (arith, length-zeros 972); fits = omega arith };
  dealing = refl;
  parsing = refl;
  single = refl;
  input = refl;
}

set_package_stored_example :
    (t : Turn Wire Assoc) × ((n : ℕ)
      → process_loop wire_os assoc_table (suc (suc (suc n))) (turn_at at_set_package empty_table)
        ≡ process_loop wire_os assoc_table n t)
    × (t.table ≡ (key_of 5, value_of 5) ∷ [])
    × (t.net ≡ idle_wire)
    × (pending t.conn ≡ [])
    × (t.conn.conn_state ≡ conn_new_cmd)
    × (t.conn.work_state ≡ parse_head)
set_package_stored_example =
    set_package_stored wire_os assoc_table length 2 5 (omega arith) (omega arith)
      (turn_at at_set_package empty_table) [] refl (package_of length 2 set 5)
      (make_package-package_of length 2 set 5 (omega arith) (omega arith)) at_set_package-AtBytes

get_longer_exits_example :
    process_loop wire_os assoc_table (suc (suc 3)) (turn_at at_get_longer empty_table) ≡ exits
unfolding store_header swap16 swap32
get_longer_exits_example =
    get_longer_exits wire_os assoc_table (turn_at at_get_longer empty_table) (package_header 1 0)
      b'k' [] refl
      (record { size = refl; held = omega (arith, length-zeros 987); fits = omega arith }) refl refl
      (record {
        keylen_fits = omega arith;
        batchnum_fits = omega arith;
        totalbodylen_fits = omega arith;
      })
      refl refl refl (omega arith) refl (omega arith) 3

-- A thread with two batches of three bytes, the first sent up to its second byte.
abbrev two_batches : Lane
two_batches = record {
  fd = 7;
  batches =
      record { buf = 10 ∷ 11 ∷ 12 ∷ []; offset = 1; datalen = 3; num = 0 }
      ∷ record { buf = 20 ∷ 21 ∷ 22 ∷ []; offset = 0; datalen = 3; num = 0 }
      ∷ [];
  working_list = 0;
  work_len = 2;
  working_offset = 0;
  finish_send = false;
  sent_bytes = 0;
  recv_bytes = 0;
}

two_batches-IsLane : IsLane two_batches
two_batches-IsLane = record {
  within = omega arith;
  reached = omega arith;
  last = inl (omega arith);
  small = omega arith;
  ready = (
    record { held = refl; begun = omega arith },
    (record { held = refl; begun = omega arith }, tt),
  );
}

tape-IsBounded : IsBounded tape_sockets
tape-IsBounded = record { write_bound = λ net fd bytes n e. ground arith }

lane_step-Steps_example : Steps tape_sockets two_batches [] (lane_step tape_sockets two_batches [])
lane_step-Steps_example =
    lane_step-Steps tape_sockets tape-IsBounded two_batches [] two_batches-IsLane

-- A wire that takes one byte in a write.
abbrev narrow_wire : Wire
narrow_wire = record idle_wire { window = 1 }

-- The peer has closed the connection of descriptor 7; on the others nothing comes.
abbrev closed_reply : Bool → ReadReply
closed_reply true = got []
closed_reply false = failed eagain

abbrev closed_os : Os Wire
closed_os = record wire_os { read = λ net fd n. (closed_reply (fd == 7), net) }

closed-IsTransient : (b : Bool) → IsTransient (closed_reply b)
closed-IsTransient true = tt
closed-IsTransient false = inr refl

abbrev waiting_inbox : Inbox
waiting_inbox = record { fd = 7; recved_bytes = 100; target_recv_bytes = 2800 }

abbrev waiting_inboxes : List Inbox
waiting_inboxes =
    record { fd = 6; recved_bytes = 2800; target_recv_bytes = 2800 }
    ∷ waiting_inbox
    ∷ record { fd = 8; recved_bytes = 0; target_recv_bytes = 2800 }
    ∷ []

recv_loop_spins_example :
    (k : ℕ) × (inboxes : List Inbox) × (net : Wire) × (recv_loop closed_os 1000 0 waiting_inboxes
        idle_wire
      ≡ ok (k, inboxes, net))
    × (k < length inboxes)
    × Has waiting_inbox inboxes
recv_loop_spins_example =
    recv_loop_spins closed_os waiting_inbox (λ net. Unit) (λ net fd c. tt)
      (λ net fd c. closed-IsTransient (fd == 7)) (λ net c. refl) (omega arith) (omega arith) 1000
      waiting_inboxes idle_wire 0 tt (inr (inl refl)) (omega arith)

-- The same pair for every thread.
abbrev local_database : Database
local_database tid = record { key = sample_key; value = sample_value; prehash = tid } ∷ []

pre_insert_found_example :
    (len : ℕ) × (run_rounds assoc_table 3 get
        (local_database 1)
        (pre_insert assoc_table local_database 2 0 [])
        0
      ≡ ok (pre_insert assoc_table local_database 2 0 [], len))
pre_insert_found_example =
    pre_insert_found assoc_table assoc_laws local_database 2 1 3 [] (omega arith)
