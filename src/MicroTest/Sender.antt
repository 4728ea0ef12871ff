-- ===== src/MicroTest/Sender.antt =====
-- micro_test/Connection.h: a connection of the client, which gathers packages and writes them in
-- one call.
pub mod Flow
pub mod Delivery
use multiport_network.Base.{
  ℕ, ◌+◌, ◌*◌, Bool, true, false, Option, none, some, List, [], ◌∷◌, length, take, replicate, ltb,
  leb, ◌==◌, if◌then◌else◌,
}
use multiport_network.Base.Buffers.{patch}
use multiport_network.Protocol.{u32, u64}
use multiport_network.Interfaces.{Sockets}
use multiport_network.Connection.{Outcome, ok, exits, fault, ◌>>=◌}
use multiport_network.MicroTest.{package_len, send_batch_num}

-- class Connection
pub record Sender : Type 0 where
  pub con_id : ℕ
  pub fd : ℕ
  pub send_buf : List ℕ
  pub offset : ℕ
  pub op_count : ℕ
  pub send_bytes : ℕ

-- calloc(PACKAGE_LEN, SEND_BATCH + 100)
abbrev pub send_buf_size : ℕ
send_buf_size = package_len * (send_batch_num + 100)

-- The constructor and `init`, for the descriptor that `connect_server` has opened.
unfoldable pub init : ℕ → ℕ → Sender
init con_id fd = record {
  con_id = con_id;
  fd = fd;
  send_buf = replicate send_buf_size 0;
  offset = 0;
  op_count = 0;
  send_bytes = 0;
}

-- The copy of the package behind the gathered ones.
unfoldable pub gather : Sender → List ℕ → Sender
gather s p = record s {
  send_buf = patch s.send_buf s.offset p;
  offset = u32 (s.offset + length p);
  op_count = u32 (s.op_count + 1);
}

unfoldable pub flushed : Sender → Sender
flushed s = record s { send_bytes = u64 (s.send_bytes + s.offset); op_count = 0; offset = 0 }

-- The test of `ret` against `offset`.
unfoldable pub whole : Option ℕ → ℕ → Bool
whole none offset = false
whole (some ret) offset = ret == offset

module _ {Net : Type 0} (so : Sockets Net) where
  -- The `write` of all that is gathered; less than all ends the program.
  unfoldable pub flush : Sender → Net → Outcome (Sender × Net)
  flush s net =
      let (ret, net') = so.write net s.fd (take s.offset s.send_buf) in
      if whole ret s.offset then ok (flushed s, net') else exits

  -- The flag tells whether the gathered packages were written.
  unfoldable pub fetch_and_send : Sender → List ℕ → Net → Outcome (Bool × Sender × Net)
  fetch_and_send s p net =
      if ltb send_buf_size (s.offset + length p)
      then fault
      else (if leb send_batch_num (gather s p).op_count
          then (flush (gather s p) net >>= λ r. ok (true, r.0, r.1))
          else ok (false, gather s p, net))

  unfoldable pub clean : Sender → Net → Outcome (Sender × Net)
  unfolding flush
  clean s net = flush s net

  -- The packages of a thread for one connection, and the `clean` behind them.
  unfoldable pub send_all : Sender → List (List ℕ) → Net → Outcome (Sender × Net)
  send_all s [] net = clean s net
  send_all s (p ∷ ps) net = fetch_and_send s p net >>= λ r. send_all r.1 ps r.2
