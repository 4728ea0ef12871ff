-- ===== src/Examples/Served.antt =====
-- What the clients send at the server, at concrete values.
use mathlib.Core.Path.{subst}
use multiport_network.Base.{
  ℕ, zero, suc, ◌-◌, ap, take, drop, ◌+◌, ◌/◌, ◌≡◌, refl, sym, true, false, List, [], ◌∷◌, ◌++◌,
  arith, length, replicate, append-nil,
}
use multiport_network.Interfaces.Reference.{
  Post, post_os, post_laws, post-Moves, Assoc, assoc_table, assoc_table_find,
}
use multiport_network.Interfaces.Line.{Line, line_os, line_laws, line-Moves, line-Feeds}
use multiport_network.Connection.{Conn, Outcome, ok, exits, fault}
use multiport_network.Connection.Create.{
  IsFresh, init_conns, conn_new, allocate, reset_conn, conn_new-IsFresh,
}
use multiport_network.Connection.Process.{Turn, start_turn}
use multiport_network.Connection.Turns.{Runs}
use multiport_network.Connection.Batched.Writing.{IsDelivered}
use multiport_network.MicroTest.Package.{sprintf_d, digits}
use multiport_network.MicroTest.Package.Layout.{key_of}
use multiport_network.GetBatch.Packed.{batch_bytes}
use multiport_network.GetBatch.Packed.Whole.{keys_for}
use multiport_network.GetBatch.Send.{Lane}
use multiport_network.GetBatch.Served.{Found}
use multiport_network.GetBatch.Served.One.{AtStream}
use multiport_network.GetBatch.Served.Whole.{all_replies, batches_served}
use multiport_network.DoubleBuf.Database.{draw_numbers}
use multiport_network.DoubleBuf.Database.Bytes.{groups_bytes}
use multiport_network.DoubleBuf.Tracer.{Tracer}
use multiport_network.DoubleBuf.Threads.{send_thread}
use multiport_network.DoubleBuf.Threads.Parts.{part}
use multiport_network.DoubleBuf.Threads.Keys.{Asks, send_thread-Asks}
use multiport_network.DoubleBuf.Served.Asked.{asked_answered}
use multiport_network.Protocol.{swap16, swap32}
use multiport_network.Connection.{conn_new_cmd, parse_head}
use multiport_network.Connection.Session.{
  Request, set, get, requests_bytes, table_after, replies, Takes, InSession,
}
use multiport_network.Connection.Session.Store.{store_served}
use multiport_network.Examples.Fixtures.{
  set_header, get_header, sample_key, empty_table, at_set-AtRequest, at_get-AtGet, zeros,
  length-zeros, conn_with, at_set, sample_value,
}
use multiport_network.Examples.Threads.{
  one_group, one_database, one_packed, one_keys, one_enough, noon, stopped_watch, post,
}

abbrev one_value : List ℕ → List ℕ
one_value key = sample_value

abbrev one_table : Assoc
one_table = (key_of 0, sample_value) ∷ []

Found-replicate :
    (n : ℕ) (keys : List (List ℕ))
    → Found assoc_table one_table one_value keys
    → Found assoc_table one_table one_value (replicate n (key_of 0) ++ keys)
unfolding assoc_table_find sprintf_d digits
Found-replicate zero keys h = h
Found-replicate (suc n) keys h = (refl, refl, omega arith, Found-replicate n keys h)

abbrev quick : Post
quick = record { log = λ fd. []; refusals = 2; window = 900 }

-- A connection on which one batch is coming.
abbrev coming : Turn Line Assoc
coming = record {
  conn = conn_with (zeros 1000) 0;
  net = record { post = quick; inbound = batch_bytes 0 one_group ++ zeros 1001; pace = 600 };
  table = one_table;
  inst_count = 0;
  stop = false;
}

coming-AtStream :
    AtStream line_os assoc_table
      (λ l fd. l.inbound)
      (λ l. l.post.log)
      (groups_bytes 0 (one_group ∷ []) ++ zeros 1001)
      coming
coming-AtStream = record {
  running = refl;
  dealing = refl;
  parsing = refl;
  buffered = record { size = refl; held = length-zeros 1000; fits = omega arith };
  single = refl;
  no_bufs = refl;
  input = ap (λ xs. xs ++ zeros 1001) (sym (append-nil (batch_bytes 0 one_group)));
}

batches_served_example :
    (u : Turn Line Assoc) × Runs line_os assoc_table (λ l fd. l.inbound) coming u
    × IsDelivered line_os assoc_table
        (λ l fd. l.inbound)
        (λ l. l.post.log)
        7
        one_table
        ([] ++ all_replies one_value (one_group ∷ []))
        (zeros 1001)
        u
batches_served_example =
    batches_served line_os assoc_table (λ l fd. l.inbound) (λ l. l.post.log) line_laws line-Feeds
      (λ l. l.post.refusals) line-Moves 0 one_value one_group [] (zeros 1001) coming (refl, tt)
      coming-AtStream (Found-replicate 100 [] tt, tt) (omega (arith, length-zeros 1001))

-- The thread of `send_thread-Asks`, and what it ends with.
abbrev one_run : Outcome (List Lane × Tracer × Post)
one_run =
    send_thread post_os 4028 1 0 (λ i. i + 7) (λ i. length (one_database i) / 1) one_database
      stopped_watch noon post

abbrev OneAsks : Outcome (List Lane × Tracer × Post) → Type 0
OneAsks =
    Asks (λ key. 0) 200 (λ i. 0) (λ i. omega arith) 1 0 1 (λ i. i + 7) one_database one_packed
      (λ i less. omega arith) (λ i less. omega arith) (omega arith) (λ i j h k e. omega arith)
      (λ p. p.log) (λ p. p.refusals) post

abbrev ended : Outcome (List Lane × Tracer × Post) → List Lane × Tracer × Post
ended (ok r) = r
ended exits = ([], stopped_watch, post)
ended fault = ([], stopped_watch, post)

ended-eq :
    (o : Outcome (List Lane × Tracer × Post))
    → OneAsks o
    → o ≡ ok ((ended o).0, (ended o).1, (ended o).2)
ended-eq (ok (lanes, tracer, net)) h = refl
ended-eq exits h = absurd h
ended-eq fault h = absurd h

one_run_ends : one_run ≡ ok ((ended one_run).0, (ended one_run).1, (ended one_run).2)
one_run_ends = ended-eq one_run (
    send_thread-Asks (λ key. 0) 200 (λ i. 0) (λ i. omega arith) 1 0 1 (λ i. i + 7) one_database
      one_packed (λ i less. omega arith) (λ i less. omega arith) (omega arith)
      (λ i j h k e. omega arith) (λ p. p.log) (λ p. p.refusals) post post_os post_laws post-Moves
      4028 stopped_watch noon one_enough)

-- The server's end of the connection.
abbrev blank : Conn
blank = record at_set { read_buf = zeros 1000 }

abbrev accepted : Conn
accepted = reset_conn (allocate blank) 5 2

accepted-IsFresh : IsFresh accepted
unfolding conn_new init_conns
accepted-IsFresh =
    (conn_new-IsFresh blank accepted init_conns 5 2 true
      (record { read_size = length-zeros 1000; ret_size = length-zeros 1000 }) refl).1

abbrev server_end : Line
server_end = record { post = quick; inbound = (ended one_run).2.log 7; pace = 600 }

one-Found :
    Found assoc_table one_table one_value (keys_for (λ key. 0) 1 0 (draw_numbers (λ i. 0) 200 0))
one-Found = subst (Found assoc_table one_table one_value) (sym one_keys) (Found-replicate 200 [] tt)

asked_answered_example :
    (u : Turn Line Assoc) × Runs line_os assoc_table
      (λ l fd. l.inbound)
      (start_turn line_os assoc_table accepted server_end one_table)
      u
    × IsDelivered line_os assoc_table
        (λ l fd. l.inbound)
        (λ l. l.post.log)
        accepted.sfd
        one_table
        (server_end.post.log accepted.sfd
          ++ all_replies one_value (
              take
                (length (part 1 0 (one_packed 0 (omega arith)).groups) - 1)
                (part 1 0 (one_packed 0 (omega arith)).groups)))
        (groups_bytes 0 (
          drop
            (length (part 1 0 (one_packed 0 (omega arith)).groups) - 1)
            (part 1 0 (one_packed 0 (omega arith)).groups)))
        u
asked_answered_example =
    asked_answered (λ key. 0) 200 (λ i. 0) (λ i. omega arith) 1 0 1 (λ i. i + 7) one_database
      one_packed (λ i less. omega arith) (λ i less. omega arith) (omega arith)
      (λ i j h k e. omega arith) post_os (λ p. p.log) (λ p. p.refusals) post_laws post-Moves post
      (ended one_run).2 4028 stopped_watch (ended one_run).1 noon (ended one_run).0 one_enough
      one_run_ends line_os assoc_table (λ l fd. l.inbound) (λ l. l.post.log) (λ l. l.post.refusals)
      line_laws line-Feeds line-Moves one_value accepted server_end one_table accepted-IsFresh 0
      (omega arith) refl refl one-Found (omega arith)

-- A SET and then a GET of its key, on a new connection and an empty table.
abbrev set_and_get : List Request
set_and_get = set set_header sample_key sample_value ∷ get get_header sample_key ∷ []

abbrev asking_end : Line
asking_end = record { post = quick; inbound = requests_bytes set_and_get ++ zeros 1001; pace = 9 }

set_and_get-Takes : Takes assoc_table empty_table set_and_get
unfolding assoc_table_find swap16 swap32
set_and_get-Takes = (
  record {
    is_header = at_set-AtRequest.is_header;
    magic = refl;
    op = refl;
    key = refl;
    body = refl;
  },
  omega arith,
  omega arith,
  omega arith,
  (
    record {
      is_header = at_get-AtGet.request.is_header;
      magic = refl;
      op = refl;
      key = refl;
      body = refl;
    },
    omega arith,
    omega arith,
    omega arith,
    tt,
  ),
)

store_served_example :
    (u : Turn Line Assoc) × Runs line_os assoc_table
      (λ l fd. l.inbound)
      (start_turn line_os assoc_table accepted asking_end empty_table)
      u
    × InSession line_os assoc_table
        (λ l fd. l.inbound)
        (λ l. l.post.log)
        conn_new_cmd
        parse_head
        accepted.sfd
        (table_after assoc_table empty_table set_and_get)
        (asking_end.post.log accepted.sfd ++ replies assoc_table empty_table set_and_get)
        (zeros 1001)
        u
store_served_example =
    store_served line_os assoc_table (λ l fd. l.inbound) (λ l. l.post.log) line_laws line-Feeds
      (λ l. l.post.refusals) line-Moves accepted asking_end empty_table
      (set set_header sample_key sample_value) (get get_header sample_key ∷ []) (zeros 1001)
      accepted-IsFresh refl set_and_get-Takes (omega (arith, length-zeros 1001))
