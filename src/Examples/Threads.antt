-- ===== src/Examples/Threads.antt =====
-- double_buf_get and the start of the server at concrete values.
use mathlib.Core.Path.{subst}
use multiport_network.Base.{
  ℕ, ◌+◌, ◌*◌, ◌/◌, ◌%◌, ◌<◌, ◌≡◌, refl, true, none, some, List, [], ◌∷◌, ◌++◌, arith, length,
  replicate,
}
use multiport_network.Protocol.{store_header, u64}
use multiport_network.Interfaces.Reference.{Post, post_os, post_laws, post-Moves}
use multiport_network.Connection.{ok}
use multiport_network.MicroTest.Package.{sprintf_d, digits}
use multiport_network.MicroTest.Package.Layout.{key_of}
use multiport_network.GetBatch.{BatchObj, get_package}
use multiport_network.GetBatch.Packed.{sealed}
use multiport_network.GetBatch.Packed.Whole.{keys_for}
use multiport_network.DoubleBuf.Database.{draw_numbers, con_get_database, Made}
use multiport_network.DoubleBuf.Database.Packs.{InBatches, con_get_database-InBatches}
use multiport_network.DoubleBuf.Database.Again.{con_get_database_again}
use multiport_network.DoubleBuf.Tracer.{Tracer, Timeval, laps, laps_add_up}
use multiport_network.DoubleBuf.Threads.{send_thread, for_ports, open_lane}
use multiport_network.DoubleBuf.Threads.Whole.{lanes_from}
use multiport_network.GetBatch.Send.Loop.{total}
use multiport_network.DoubleBuf.Threads.Keys.{packed-IsShared, Asks, send_thread-Asks}
use multiport_network.Server.Setup.{Platform}
use multiport_network.Server.Setup.Calls.{Call, watches, starts, binds, listens}
use multiport_network.Server.Setup.Serves.{Serves}

-- Every call succeeds: descriptors and such are counted up, and the calls are logged.
record Counted : Type 0 where
  next : ℕ
  log : List Call

abbrev up : Counted → Counted
up s = record s { next = s.next + 1 }

abbrev logged : Counted → Call → Counted
logged s c = record s { log = s.log ++ c ∷ [] }

abbrev counting : Platform Counted
counting = record {
  pipe = λ s. (some (s.next, s.next + 1), up (up s));
  event_base_new = λ s. (some s.next, up s);
  event_base_new_nolock = λ s. (some s.next, up s);
  event_new = λ s base fd h. (some (record { base = base; fd = fd; handler = h }), s);
  event_add = λ s e. (true, logged s (watches e));
  event_base_loop = λ s base. s;
  event_base_free = λ s base. s;
  pthread_create = λ s tid. (some s.next, up (logged s (starts tid)));
  ignore_sigpipe = λ s. s;
  socket = λ s. (some s.next, up s);
  make_socket_nonblocking = λ s fd. s;
  bind = λ s fd port. (true, logged s (binds fd port));
  listen = λ s fd backlog. (true, logged s (listens fd backlog));
}

abbrev booted : Counted
booted = record { next = 3; log = [] }

-- One port, two batches of the key of 0.
abbrev pub one_group : List (List ℕ)
one_group = replicate 100 (key_of 0)

abbrev pub one_database : ℕ → List BatchObj
one_database p = sealed 0 one_group ∷ sealed 0 one_group ∷ []

pub one_keys : keys_for (λ key. 0) 1 0 (draw_numbers (λ i. 0) 200 0) ≡ replicate 200 (key_of 0)
unfolding draw_numbers sprintf_d digits
one_keys = refl

one_packed_at : InBatches 0 (keys_for (λ key. 0) 1 0 (draw_numbers (λ i. 0) 200 0)) (one_database 0)
unfolding draw_numbers sprintf_d digits
one_packed_at = record {
  groups = one_group ∷ one_group ∷ [];
  rest = [];
  same = one_keys;
  full = (refl, (refl, tt));
  few = omega arith;
  in_database = refl;
}

pub one_packed :
    (p : ℕ)
    → p < 1
    → InBatches p (keys_for (λ key. 0) 1 p (draw_numbers (λ i. 0) 200 0)) (one_database p)
one_packed p less =
    let e : 0 ≡ p = omega arith in
    subst
      (λ q. InBatches q (keys_for (λ key. 0) 1 q (draw_numbers (λ i. 0) 200 0)) (one_database q)) e
      one_packed_at

abbrev pub noon : Timeval
noon = record { tv_sec = 43200; tv_usec = 999999 }

abbrev pub stopped_watch : Tracer
stopped_watch = record { beg_time = noon; end_time = noon; duration = 0 }

laps_add_up_example :
    (u64 (
        (laps stopped_watch (record { tv_sec = 43201; tv_usec = 0 } ∷ [])).0
        + (43200 * 1000000 + 999999))
      ≡ u64 (43201 * 1000000 + 0))
    × ((laps stopped_watch (record { tv_sec = 43201; tv_usec = 0 } ∷ [])).1.beg_time
        ≡ record { tv_sec = 43201; tv_usec = 0 })
laps_add_up_example =
    laps_add_up stopped_watch (record { tv_sec = 43201; tv_usec = 0 } ∷ [])
      (record { seconds = omega arith; below_second = omega arith })
      (record { seconds = omega arith; below_second = omega arith }, tt)

abbrev pub post : Post
post = record { log = λ fd. []; refusals = 3; window = 700 }

pub one_enough :
    total (
        lanes_from 1 0 1
          (λ i. i + 7)
          one_database
          (omega arith)
          (packed-IsShared
            (λ key. 0)
            200
            (λ i. 0)
            (λ i. omega arith)
            1
            0
            1
            (λ i. i + 7)
            one_database
            one_packed
            (λ i less. omega arith)
            (λ i less. omega arith)
            (omega arith)
            (λ i j h k e. omega arith))
          (λ i j h k e. omega arith)
          1
          0)
      + 3
    < 4028
unfolding for_ports open_lane sprintf_d digits store_header get_package
one_enough = omega arith

send_thread-Asks_example :
    Asks
      (λ key. 0)
      200
      (λ i. 0)
      (λ i. omega arith)
      1
      0
      1
      (λ i. i + 7)
      one_database
      one_packed
      (λ i less. omega arith)
      (λ i less. omega arith)
      (omega arith)
      (λ i j h k e. omega arith)
      (λ p. p.log)
      (λ p. p.refusals)
      post
      (send_thread post_os 4028 1 0
        (λ i. i + 7)
        (λ i. length (one_database i) / 1)
        one_database
        stopped_watch
        noon
        post)
send_thread-Asks_example =
    send_thread-Asks (λ key. 0) 200 (λ i. 0) (λ i. omega arith) 1 0 1 (λ i. i + 7) one_database
      one_packed (λ i less. omega arith) (λ i less. omega arith) (omega arith)
      (λ i j h k e. omega arith) (λ p. p.log) (λ p. p.refusals) post post_os post_laws post-Moves
      4028 stopped_watch noon one_enough

con_get_database-InBatches_example :
    (r : Made) × (con_get_database length 2 3 0 none (λ i. i % 7) ≡ ok r)
    × ((p : ℕ) → InBatches p (keys_for length 2 p (draw_numbers (λ i. i % 7) 3 0)) (r.database p))
con_get_database-InBatches_example =
    con_get_database-InBatches length 2 3 0 (λ i. i % 7) (λ i. omega arith) (omega arith)

con_get_database_again_example :
    con_get_database length 2 3 0
      (some
        (con_get_database-InBatches length 2 3 0
          (λ i. i % 7)
          (λ i. omega arith)
          (omega arith)).0.file)
      (λ i. 5)
    ≡ ok (con_get_database-InBatches length 2 3 0 (λ i. i % 7) (λ i. omega arith) (omega arith)).0
con_get_database_again_example =
    con_get_database_again length 2 3 0 (λ i. i % 7) (λ i. 5)
      (con_get_database-InBatches length 2 3 0 (λ i. i % 7) (λ i. omega arith) (omega arith)).0
      (λ i. omega arith)
      (con_get_database-InBatches length 2 3 0 (λ i. i % 7) (λ i. omega arith) (omega arith)).1
