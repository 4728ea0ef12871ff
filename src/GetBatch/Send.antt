-- ===== src/GetBatch/Send.antt =====
-- get_batch/get_batch_test.cpp: `fetch_and_send` over a blocking socket, and the loop of
-- `data_dispatch` in which one thread sends its batches on all ports.
pub mod Lanes
pub mod Steps
pub mod Loop
use multiport_network.Base.{
  ℕ, zero, suc, ◌+◌, ◌-◌, Bool, true, false, ◌&&◌, Option, none, some, List, [], ◌∷◌, ◌++◌, length,
  take, drop, ltb, leb, ◌==◌, if◌then◌else◌,
}
use multiport_network.Base.Buffers.{slice}
use multiport_network.Protocol.{u64}
use multiport_network.Interfaces.{Sockets}
use multiport_network.Connection.{Outcome, ok, exits, fault, ◌>>=◌}
use multiport_network.GetBatch.{BatchObj}

-- A thread's view of one port: the descriptor, `database[i]`, where the thread's part begins and
-- how long it is, how many batches of it are sent, and `finish_send[i]`.
pub record Lane : Type 0 where
  pub fd : ℕ
  pub batches : List BatchObj
  pub working_list : ℕ
  pub work_len : ℕ
  pub working_offset : ℕ
  pub finish_send : Bool
  pub sent_bytes : ℕ
  pub recv_bytes : ℕ

-- The batch once `write` took `ret` bytes of it.
unfoldable pub written_obj : BatchObj → ℕ → BatchObj
written_obj b ret =
    if ltb ret (b.datalen - b.offset)
    then record b { offset = b.offset + ret }
    else record b { offset = 0 }

-- The lane once `write` took `ret` bytes of the batch `b`, which stands between these others.
unfoldable pub after_write : Lane → List BatchObj → BatchObj → List BatchObj → ℕ → Lane
after_write l before b behind ret =
    let l' = record l { batches = before ++ written_obj b ret ∷ behind } in
    if ltb ret (b.datalen - b.offset) then record l' { finish_send = false } else record l' {
      finish_send = true;
      sent_bytes = u64 (l.sent_bytes + b.datalen);
      working_offset = u64 (l.working_offset + 1);
    }

unfoldable pub after_recv : Lane → Option (List ℕ) → Outcome Lane
after_recv l none = exits
after_recv l (some bytes) = ok (record l { recv_bytes = u64 (l.recv_bytes + length bytes) })

module _ {Net : Type 0} (so : Sockets Net) where
  -- The `read` behind the `write`.
  unfoldable pub receive : Lane → Net → Outcome (Lane × Net)
  receive l net = let (r, net') = so.read net l.fd 4000 in after_recv l r >>= λ l'. ok (l', net')

  -- A `write` that fails or takes nothing ends the program.
  unfoldable pub after_send :
      Lane → List BatchObj → BatchObj → List BatchObj → Option ℕ → Net → Outcome (Lane × Net)
  after_send l before b behind none net = exits
  after_send l before b behind (some zero) net = exits
  after_send l before b behind (some (suc n)) net =
      receive (after_write l before b behind (suc n)) net

  -- The call of `fetch_and_send` for the batch in front; there must be one.
  unfoldable pub fetch_and_send : Lane → List BatchObj → List BatchObj → Net → Outcome (Lane × Net)
  fetch_and_send l before [] net = fault
  fetch_and_send l before (b ∷ behind) net =
      let (ret, net') = so.write net l.fd (slice b.buf b.offset (b.datalen - b.offset)) in
      after_send l before b behind ret net'

  -- One port in the loop: whether it counts as stopped.
  unfoldable pub lane_step : Lane → Net → Outcome (Bool × Lane × Net)
  lane_step l net =
      let i = l.working_list + l.working_offset in
      if l.finish_send && leb l.work_len l.working_offset
      then ok (true, l, net)
      else (fetch_and_send l (take i l.batches) (drop i l.batches) net >>= λ r.
          ok (false, r.0, r.1))

  -- for(int i = 0; i < port_num; i++): the lanes, and `stop_count`.
  unfoldable pub sweep : List Lane → Net → Outcome (ℕ × List Lane × Net)
  sweep [] net = ok (0, [], net)
  sweep (l ∷ lanes) net = lane_step l net >>= λ r.
      sweep lanes r.2 >>= λ s. ok ((if r.0 then s.0 + 1 else s.0), r.1 ∷ s.1, s.2)

  -- while(stop_count != port_num), for at most `n` sweeps.
  unfoldable pub send_loop : ℕ → ℕ → List Lane → Net → Outcome (ℕ × List Lane × Net)
  send_loop zero stop_count lanes net = ok (stop_count, lanes, net)
  send_loop (suc n) stop_count lanes net = elim (stop_count == length lanes) [
    | true ↦ ok (stop_count, lanes, net)
    | false ↦ sweep lanes net >>= λ s. send_loop n s.0 s.1 s.2
  ]
