-- ===== src/Connection/Turns/Reading.antt =====
-- server.cpp: how a connection that has not enough input waits for more and reads it.
use multiport_network.Base.{
  ℕ, Bool, ◌-◌, ◌<◌, ◌≡◌, refl, sym, ap, ◌∙◌, true, false, ◌⊎◌, inl, inr, List, [], ◌∷◌, ◌++◌,
  length, length-append, append_assoc, arith,
}
use mathlib.Core.Path.{subst}
use multiport_network.Interfaces.{ReadReply, got, failed, Os, OsLaws, HashTable, Feeds}
use multiport_network.Connection.{
  Conn, ConnState, conn_deal_with, conn_waiting, conn_read, WorkState, parse_head, read_key_value,
  ok, pending,
}
use multiport_network.Connection.Input.{
  TryReadResult, read_data_received, try_read_network, compact,
}
use multiport_network.Connection.Process.{Turn, round, after_read, wait, start_turn}
use multiport_network.Connection.Buffered.{
  IsBuffered, Reads, try_read_network-IsBuffered, try_read_network-Reads,
}
use multiport_network.Connection.Sound.Rounds.{SameWork, try_read_network-SameWork}
use multiport_network.Connection.Turns.{Runs, step, again, done}

-- The two works that may wait for input.
abbrev pub Awaits : WorkState → Type 0
Awaits w = (w ≡ parse_head) ⊎ (w ≡ read_key_value)

-- The state of the connection is no part of that.
SameWork-state :
    (c d : Conn) (x : ConnState) → SameWork c d → SameWork c (record d { conn_state = x })
SameWork-state c d x w = ground arith

module _ {Net Map : Type 0} (os : Os Net) (ht : HashTable Map)
    (incoming sent : Net → ℕ → List ℕ) where
  -- The bytes of a connection that are not dealt with, received or not.
  abbrev pub stream : Turn Net Map → List ℕ
  stream t = pending t.conn ++ incoming t.net t.conn.sfd

  -- A turn at the inner switch that is reached by nothing but reads.
  pub record Reached (t u : Turn Net Map) : Type 0 where
    pub runs : Runs os ht incoming t u
    pub running : u.stop ≡ false
    pub dealing : u.conn.conn_state ≡ conn_deal_with
    pub work : SameWork t.conn u.conn
    pub buffered : IsBuffered u.conn
    pub same_stream : stream u ≡ stream t
    pub same_sent : sent u.net u.conn.sfd ≡ sent t.net t.conn.sfd
    pub same_table : u.table ≡ t.table

  -- What is reached from the same connection in another state, and from there.
  pub Reached-from :
      (t u : Turn Net Map) (x : ConnState) (i : ℕ) (b : Bool)
      → Runs os ht incoming t u
      → Reached (record t { conn = record t.conn { conn_state = x }; inst_count = i; stop = b }) u
      → Reached t u
  Reached-from t u x i b runs r = record {
    runs = runs;
    running = r.running;
    dealing = r.dealing;
    work = ground arith;
    buffered = r.buffered;
    same_stream = r.same_stream;
    same_sent = r.same_sent;
    same_table = r.same_table;
  }

module _ {Net : Type 0} (os : Os Net) (incoming sent : Net → ℕ → List ℕ) where
  -- What one read of some bytes leaves.
  record Fed (c : Conn) (net : Net) (r : TryReadResult × Conn × Net) : Type 0 where
    got_data : r.0 ≡ read_data_received
    whole : pending r.1 ++ incoming r.2 c.sfd ≡ pending c ++ incoming net c.sfd
    fewer : length (incoming r.2 c.sfd) < length (incoming net c.sfd)
    quiet : sent r.2 c.sfd ≡ sent net c.sfd

  Reads-Fed :
      (c : Conn) (net net' : Net) (reply : ReadReply) (bytes : List ℕ) (r : TryReadResult × Conn)
      → reply ≡ got bytes
      → Reads (pending c) reply r
      → 0 < length bytes
      → incoming net c.sfd ≡ bytes ++ incoming net' c.sfd
      → sent net' c.sfd ≡ sent net c.sfd
      → Fed c net (r.0, r.1, net')
  Reads-Fed c net net' (failed x) bytes r e reads some_bytes split quiet = cc
  Reads-Fed c net net' (got []) bytes r e reads some_bytes split quiet = absurd (ground arith)
  Reads-Fed c net net' (got (b ∷ bs)) bytes r e reads some_bytes split quiet =
      let same : b ∷ bs ≡ bytes = ground arith in
      record {
        got_data = reads.0;
        whole =
            ap (λ xs. xs ++ incoming net' c.sfd) reads.1
            ∙ append_assoc (pending c) (b ∷ bs) (incoming net' c.sfd)
            ∙ ap (◌++◌ (pending c)) (ap (λ xs. xs ++ incoming net' c.sfd) same ∙ sym split);
        fewer = omega (arith, ap length split, length-append bytes (incoming net' c.sfd));
        quiet = quiet;
      }

  net_of :
      (c : Conn) (net : Net)
      → (try_read_network os c net).2 ≡ (os.read net c.sfd (c.read_buf_size - c.remaining_bytes)).1
  unfolding try_read_network compact
  net_of c net = ground arith

  read-Fed :
      OsLaws os
      → Feeds os incoming sent
      → (c : Conn) (net : Net) → IsBuffered c
      → c.remaining_bytes < c.read_buf_size
      → 0 < length (incoming net c.sfd)
      → Fed c net (try_read_network os c net)
  read-Fed laws feeds c net v room some_in =
      let n = c.read_buf_size - c.remaining_bytes in
      let (bytes, e, some_bytes, split) = feeds.read_some net c.sfd n (omega arith) some_in in
      let r = try_read_network os c net in
      subst (λ net'. Fed c net (r.0, r.1, net')) (sym (net_of c net))
        (Reads-Fed c net (os.read net c.sfd n).1 (os.read net c.sfd n).0 bytes (r.0, r.1) e
          (try_read_network-Reads os laws c net v) some_bytes split (feeds.read_quiet net c.sfd n))

module _ {Net Map : Type 0} (os : Os Net) (ht : HashTable Map) (incoming sent : Net → ℕ → List ℕ)
    (laws : OsLaws os) (feeds : Feeds os incoming sent) where
  wait_round :
      (s : ConnState) (w : WorkState) (t : Turn Net Map)
      → s ≡ conn_waiting
      → t.conn.work_state ≡ w
      → Awaits w
      → round os ht s t
        ≡ ok (record t { conn = record t.conn { conn_state = conn_read }; stop = true })
  unfolding round wait
  wait_round conn_waiting w t e f (inl g) = ground arith
  wait_round conn_waiting w t e f (inr g) = ground arith
  wait_round _ w t e f g = cc e

  read_round_lem :
      (s : ConnState) (t : Turn Net Map)
      → s ≡ conn_read
      → (try_read_network os t.conn t.net).0 ≡ read_data_received
      → round os ht s t
        ≡ ok (record t {
          conn = record (try_read_network os t.conn t.net).1 { conn_state = conn_deal_with };
          net = (try_read_network os t.conn t.net).2;
        })
  unfolding round after_read
  read_round_lem conn_read t e f = ground arith
  read_round_lem _ t e f = cc e

  -- A connection that reads, and has room for input, reads some.
  pub read_now :
      (t : Turn Net Map)
      → t.stop ≡ false
      → t.conn.conn_state ≡ conn_read
      → IsBuffered t.conn
      → t.conn.remaining_bytes < t.conn.read_buf_size
      → 0 < length (incoming t.net t.conn.sfd)
      → (u : Turn Net Map) × Reached os ht incoming sent t u
        × (length (incoming u.net u.conn.sfd) < length (incoming t.net t.conn.sfd))
  read_now t running reads v room some_in =
      let fed = read-Fed os incoming sent laws feeds t.conn t.net v room some_in in
      let w = try_read_network-SameWork os t.conn t.net in
      let b = try_read_network-IsBuffered os laws t.conn t.net v in
      let r = try_read_network os t.conn t.net in
      let u = record t { conn = record r.1 { conn_state = conn_deal_with }; net = r.2 } in
      (
        u,
        record {
          runs =
              step t u u running (read_round_lem t.conn.conn_state t reads fed.got_data) (done u);
          running = running;
          dealing = refl;
          work = SameWork-state t.conn r.1 conn_deal_with w;
          buffered = record { size = b.size; held = b.held; fits = b.fits };
          same_stream = ap (λ fd. pending u.conn ++ incoming u.net fd) w.fd ∙ fed.whole;
          same_sent = ap (sent u.net) w.fd ∙ fed.quiet;
          same_table = refl;
        },
        subst (λ fd. length (incoming u.net fd) < length (incoming t.net t.conn.sfd)) (sym w.fd)
            fed.fewer,
      )

  -- So does one that waits for input.
  pub read_more :
      (t : Turn Net Map)
      → t.stop ≡ false
      → t.conn.conn_state ≡ conn_waiting
      → Awaits t.conn.work_state
      → IsBuffered t.conn
      → t.conn.remaining_bytes < t.conn.read_buf_size
      → 0 < length (incoming t.net t.conn.sfd)
      → (u : Turn Net Map) × Reached os ht incoming sent t u
        × (length (incoming u.net u.conn.sfd) < length (incoming t.net t.conn.sfd))
  read_more t running waits awaits v room some_in =
      let c = record t.conn { conn_state = conn_read } in
      let s = record t { conn = c; stop = true } in
      let (u, r, fewer) =
        read_now (start_turn os ht c t.net t.table) refl refl
          (record { size = v.size; held = v.held; fits = v.fits }) room some_in in
      (
        u,
        Reached-from os ht incoming sent t u conn_read 0 false
            (step t s u running (wait_round t.conn.conn_state t.conn.work_state t waits refl awaits)
              (again s u refl (λ e. cc) some_in r.runs))
            r,
        fewer,
      )
