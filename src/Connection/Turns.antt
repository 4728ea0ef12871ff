-- ===== src/Connection/Turns.antt =====
-- server.cpp: the rounds of `process_func` over several calls of `event_handler`.
pub mod Reading
pub mod Gathering
pub mod Commands
pub mod Writes
use multiport_network.Base.{ℕ, ◌<◌, ◌≡◌, ◌≢◌, true, false, List, length, arith}
use multiport_network.Interfaces.{Os, HashTable}
use multiport_network.Connection.{Conn, ConnState, conn_deal_with, conn_closing, WorkState, ok}
use multiport_network.Connection.Process.{Turn, round, deal_with, start_turn}

-- One round after the other. A call that has stopped with the connection open is followed by the
-- call of the next event, and the event, registered with EV_READ | EV_PERSIST, comes only while
-- there are bytes on the socket: `incoming` has some. The next call finds the connection as it was
-- left, and sockets and a table that no other connection has used in between.
pub data Runs {Net Map : Type 0} (os : Os Net) (ht : HashTable Map) (incoming : Net → ℕ → List ℕ)
    : Turn Net Map → Turn Net Map → Type 0 where
  done : (t : Turn Net Map) → Runs os ht incoming t t
  step :
      (t u v : Turn Net Map)
      → t.stop ≡ false
      → round os ht t.conn.conn_state t ≡ ok u
      → Runs os ht incoming u v
      → Runs os ht incoming t v
  again :
      (t v : Turn Net Map)
      → t.stop ≡ true
      → t.conn.conn_state ≢ conn_closing
      → 0 < length (incoming t.net t.conn.sfd)
      → Runs os ht incoming (start_turn os ht t.conn t.net t.table) v
      → Runs os ht incoming t v

module _ {Net Map : Type 0} (os : Os Net) (ht : HashTable Map) where
  pub round_deal :
      (s : ConnState) (w : WorkState) (t : Turn Net Map) (r : Conn × Net × Map)
      → s ≡ conn_deal_with
      → t.conn.work_state ≡ w
      → deal_with os ht w t.conn t.net t.table ≡ ok r
      → round os ht s t ≡ ok (record t { conn = r.0; net = r.1; table = r.2 })
  unfolding round
  round_deal conn_deal_with w t r cs ws e = ground arith
  round_deal _ w t r cs ws e = cc cs

module _ {Net Map : Type 0} (os : Os Net) (ht : HashTable Map) (incoming : Net → ℕ → List ℕ) where
  pub Runs-trans :
      (t u v : Turn Net Map)
      → Runs os ht incoming t u
      → Runs os ht incoming u v
      → Runs os ht incoming t v
  Runs-trans t u v (done _) r = r
  Runs-trans t u v (step _ s _ running e q) r = step t s v running e (Runs-trans s u v q r)
  Runs-trans t u v (again _ _ stopped open_still readable q) r =
      again t v stopped open_still readable
        (Runs-trans (start_turn os ht t.conn t.net t.table) u v q r)

  -- A round of the inner switch, and what follows it.
  pub Runs-deal :
      (w : WorkState) (t : Turn Net Map) (r : Conn × Net × Map) (v : Turn Net Map)
      → t.stop ≡ false
      → t.conn.conn_state ≡ conn_deal_with
      → t.conn.work_state ≡ w
      → deal_with os ht w t.conn t.net t.table ≡ ok r
      → Runs os ht incoming (record t { conn = r.0; net = r.1; table = r.2 }) v
      → Runs os ht incoming t v
  Runs-deal w t r v running cs ws e q =
      step t (record t { conn = r.0; net = r.1; table = r.2 }) v running
        (round_deal os ht t.conn.conn_state w t r cs ws e) q
