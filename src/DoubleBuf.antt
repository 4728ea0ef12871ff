-- ===== src/DoubleBuf.antt =====
-- double_buf_get/double_buf_get.cpp: `fetch_and_send` and the loop of `send_thread` over non-blocking
-- sockets, and `recv_and_count` and the loop of `recv_thread`. The two threads share the descriptors
-- only. `BATCH_OBJ` and the sending of a batch's rest are those of get_batch.
pub mod Sending
pub mod Receiving
pub mod Database
pub mod Tracer
pub mod Threads
pub mod Served
pub mod Main
use multiport_network.Base.{
  ℕ, zero, suc, ◌+◌, ◌-◌, ◌*◌, ◌/◌, Bool, true, false, ◌&&◌, ◌||◌, List, [], ◌∷◌, length, take,
  drop, ltb, leb, ◌==◌, if◌then◌else◌,
}
use multiport_network.Base.Buffers.{slice}
use multiport_network.Protocol.{u64}
use multiport_network.Interfaces.{Os, WriteReply, ReadReply, got, failed, eagain, ewouldblock}
use multiport_network.Connection.{Outcome, ok, exits, fault, ◌>>=◌}
use multiport_network.GetBatch.{BatchObj, batch_size}
use multiport_network.GetBatch.Send.{Lane, after_write}

-- What follows the call of `write` for the batch `b`.
unfoldable pub after_try_write :
    Lane → List BatchObj → BatchObj → List BatchObj → WriteReply → Outcome Lane
after_try_write l before b behind reply =
    if ltb 0 reply.count
    then ok (after_write l before b behind reply.count)
    else if reply.errno == ewouldblock || reply.errno == eagain
    then ok (record l { finish_send = false })
    else exits

-- The counters of `recv_thread` for one port.
pub record Inbox : Type 0 where
  pub fd : ℕ
  pub recved_bytes : ℕ
  pub target_recv_bytes : ℕ

-- RECV_PACKAGE_BYTES
abbrev pub recv_package_bytes : ℕ
recv_package_bytes = 28 * batch_size

-- The bytes that a thread waits for: those of all its batches but one, where it has more than one
-- (ROUND_SET is 1).
unfoldable pub target_bytes : ℕ → ℕ → ℕ
target_bytes database_size thread_num =
    let target = database_size / thread_num * recv_package_bytes in
    if ltb recv_package_bytes target then target - recv_package_bytes else target

-- What follows the call of `read`: whether to go on.
unfoldable pub counted : Inbox → ReadReply → Outcome (Bool × Inbox)
counted i (failed errno) = if errno == ewouldblock || errno == eagain then ok (true, i) else exits
counted i (got bytes) =
    let i' = record i { recved_bytes = u64 (i.recved_bytes + length bytes) } in
    ok (ltb i'.recved_bytes i.target_recv_bytes, i')

module _ {Net : Type 0} (os : Os Net) where
  unfoldable pub fetch_and_send : Lane → List BatchObj → List BatchObj → Net → Outcome (Lane × Net)
  fetch_and_send l before [] net = fault
  fetch_and_send l before (b ∷ behind) net =
      let (reply, net') = os.write net l.fd (slice b.buf b.offset (b.datalen - b.offset)) in
      after_try_write l before b behind reply >>= λ l'. ok (l', net')

  -- One port in the loop of `send_thread`: whether it counts as stopped.
  unfoldable pub send_step : Lane → Net → Outcome (Bool × Lane × Net)
  send_step l net =
      let i = l.working_list + l.working_offset in
      if l.finish_send && leb l.work_len l.working_offset
      then ok (true, l, net)
      else (fetch_and_send l (take i l.batches) (drop i l.batches) net >>= λ r.
          ok (false, r.0, r.1))

  unfoldable pub recv_and_count : Inbox → Net → Outcome (Bool × Inbox × Net)
  recv_and_count i net =
      if leb i.target_recv_bytes i.recved_bytes
      then ok (false, i, net)
      else (let (r, net') = os.read net i.fd 3000 in counted i r >>= λ c. ok (c.0, c.1, net'))

  -- for(int i = 0; i < port_num; i++) in `recv_thread`, with its `stop_count`.
  unfoldable pub recv_sweep : List Inbox → Net → Outcome (ℕ × List Inbox × Net)
  recv_sweep [] net = ok (0, [], net)
  recv_sweep (i ∷ inboxes) net = recv_and_count i net >>= λ r.
      recv_sweep inboxes r.2 >>= λ s. ok ((if r.0 then s.0 else s.0 + 1), r.1 ∷ s.1, s.2)

  -- while(stop_count < port_num), for at most `n` sweeps.
  unfoldable pub recv_loop : ℕ → ℕ → List Inbox → Net → Outcome (ℕ × List Inbox × Net)
  recv_loop zero stop_count inboxes net = ok (stop_count, inboxes, net)
  recv_loop (suc n) stop_count inboxes net = elim (ltb stop_count (length inboxes)) [
    | false ↦ ok (stop_count, inboxes, net)
    | true ↦ recv_sweep inboxes net >>= λ s. recv_loop n s.0 s.1 s.2
  ]
