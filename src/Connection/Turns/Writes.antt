-- ===== src/Connection/Turns/Writes.antt =====
-- server.cpp: what a write leaves as it was, and how a connection waits to write on.
use multiport_network.Base.{ℕ, ◌<◌, List, ◌≡◌, refl, sym, ap, ◌∙◌, true, false, length, arith}
use mathlib.Core.Path.{ap₂}
use multiport_network.Base.Buffers.{slice}
use multiport_network.Interfaces.{Os, HashTable}
use multiport_network.Connection.{
  Conn, ConnState, conn_deal_with, conn_waiting, WorkState, write_bcak, ok, pending,
}
use multiport_network.Connection.Process.{Turn, round, wait, start_turn}
use multiport_network.Connection.Turns.{Runs, step, again}
use multiport_network.Connection.Buffered.{IsBuffered}

-- What a write does not touch.
pub record SameInput (c d : Conn) : Type 0 where
  pub fd : d.sfd ≡ c.sfd
  pub size : d.read_buf_size ≡ c.read_buf_size
  pub buf : d.read_buf ≡ c.read_buf
  pub working : d.working_buf ≡ c.working_buf
  pub remaining : d.remaining_bytes ≡ c.remaining_bytes

pub SameInput-IsBuffered : (c d : Conn) → SameInput c d → IsBuffered c → IsBuffered d
SameInput-IsBuffered c d k v = record {
  size = k.size ∙ v.size;
  held = ap length k.buf ∙ v.held ∙ sym k.size;
  fits = omega (arith, k.size, k.working, k.remaining, v.fits);
}

pub pending-SameInput : (c d : Conn) → SameInput c d → pending d ≡ pending c
pending-SameInput c d k =
    ap₂ (λ buf pos. slice buf pos d.remaining_bytes) k.buf k.working
    ∙ ap (slice c.read_buf c.working_buf) k.remaining

module _ {Net Map : Type 0} (os : Os Net) (ht : HashTable Map) where
  write_wait :
      (s : ConnState) (w : WorkState) (t : Turn Net Map)
      → s ≡ conn_waiting
      → t.conn.work_state ≡ w
      → w ≡ write_bcak
      → round os ht s t
        ≡ ok (record t { conn = record t.conn { conn_state = conn_deal_with }; stop = true })
  unfolding round wait
  write_wait conn_waiting write_bcak t e f g = ground arith
  write_wait conn_waiting _ t e f g = cc g
  write_wait _ w t e f g = cc e

  -- The turn of the next event, where the connection is held up.
  abbrev pub resumed : Turn Net Map → Turn Net Map
  resumed t = start_turn os ht (record t.conn { conn_state = conn_deal_with }) t.net t.table

  pub resume :
      (incoming : Net → ℕ → List ℕ) (t v : Turn Net Map)
      → 0 < length (incoming t.net t.conn.sfd)
      → t.stop ≡ false
      → t.conn.conn_state ≡ conn_waiting
      → t.conn.work_state ≡ write_bcak
      → Runs os ht incoming (resumed t) v
      → Runs os ht incoming t v
  resume incoming t v readable running waits w r =
      let s = record t { conn = record t.conn { conn_state = conn_deal_with }; stop = true } in
      step t s v running (write_wait t.conn.conn_state t.conn.work_state t waits refl w)
        (again s v refl (λ e. cc) readable r)
