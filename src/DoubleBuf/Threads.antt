-- ===== src/DoubleBuf/Threads.antt =====
-- double_buf_get/double_buf_get.cpp: the whole of `send_thread` and `recv_thread`, and the
-- connections that `data_dispatch` opens for the two.
pub mod Advance
pub mod Delivery
pub mod Parts
pub mod Whole
pub mod Keys
use multiport_network.Base.{
  ℕ, zero, suc, ◌+◌, ◌-◌, ◌*◌, ◌/◌, ◌^◌, Bool, true, false, Option, none, some, List, [], ◌∷◌, ◌++◌,
  length, ltb, leb, ◌==◌, if◌then◌else◌,
}
use multiport_network.Protocol.{u32, u64, swap16}
use multiport_network.Interfaces.{Os, Dialer}
use multiport_network.Connection.{Outcome, ok, exits, fault, ◌>>=◌}
use multiport_network.GetBatch.{BatchObj}
use multiport_network.GetBatch.Send.{Lane}
use multiport_network.DoubleBuf.{
  Inbox, recv_package_bytes, target_bytes, send_step, recv_sweep, recv_loop,
}
use multiport_network.DoubleBuf.Tracer.{Tracer, Timeval, start_time, get_run_time}

-- PORT_BASE
abbrev pub get_port_base : ℕ
get_port_base = 8033

-- ROUND_SET
abbrev pub round_set : ℕ
round_set = 1

-- The view that the thread `ftid` has of the port `i`, before its first round.
unfoldable pub open_lane : ℕ → (ℕ → ℕ) → (ℕ → ℕ) → (ℕ → List BatchObj) → ℕ → Lane
open_lane ftid fds work_len database i = record {
  fd = fds i;
  batches = database i;
  working_list = u64 (ftid * work_len i);
  work_len = work_len i;
  working_offset = 0;
  finish_send = true;
  sent_bytes = 0;
  recv_bytes = 0;
}

-- The loop over the ports at the beginning of a round.
unfoldable pub start_round : List Lane → List Lane
start_round [] = []
start_round (l ∷ lanes) = record l { working_offset = 0; finish_send = false } ∷ start_round lanes

-- The ports from the `i`-th on, `n` of them.
unfoldable pub for_ports {ℓ} : {A : Type ℓ} → (ℕ → A) → ℕ → ℕ → List A
for_ports f zero i = []
for_ports f (suc n) i = f i ∷ for_ports f n (i + 1)

unfoldable pub open_inbox : ℕ → (ℕ → ℕ) → (ℕ → List BatchObj) → ℕ → Inbox
open_inbox thread_num fds database i = record {
  fd = fds i;
  recved_bytes = 0;
  target_recv_bytes = target_bytes (length (database i)) thread_num;
}

module _ {Net : Type 0} (os : Os Net) where
  -- for(int i = 0; i < port_num; i++), with its `stop_count`.
  unfoldable pub send_sweep : List Lane → Net → Outcome (ℕ × List Lane × Net)
  send_sweep [] net = ok (0, [], net)
  send_sweep (l ∷ lanes) net = send_step os l net >>= λ r.
      send_sweep lanes r.2 >>= λ s. ok ((if r.0 then s.0 + 1 else s.0), r.1 ∷ s.1, s.2)

  -- while(stop_count != port_num), for at most `n` sweeps.
  unfoldable pub send_sweeps : ℕ → ℕ → List Lane → Net → Outcome (ℕ × List Lane × Net)
  send_sweeps zero stop_count lanes net = ok (stop_count, lanes, net)
  send_sweeps (suc n) stop_count lanes net = elim (stop_count == length lanes) [
    | true ↦ ok (stop_count, lanes, net)
    | false ↦ send_sweep lanes net >>= λ s. send_sweeps n s.0 s.1 s.2
  ]

  -- for(int k = 0; k < ROUND_SET; k++), each round of at most `n` sweeps.
  unfoldable pub send_rounds : ℕ → ℕ → List Lane → Net → Outcome (List Lane × Net)
  send_rounds n zero lanes net = ok (lanes, net)
  send_rounds n (suc k) lanes net =
      send_sweeps n 0 (start_round lanes) net >>= λ s. send_rounds n k s.1 s.2

  -- The thread `ftid`; it starts the watch at the time `now`.
  unfoldable pub send_thread :
      ℕ
      → (port_num ftid : ℕ) → (fds work_len : ℕ → ℕ) → (ℕ → List BatchObj)
      → Tracer
      → Timeval
      → Net
      → Outcome (List Lane × Tracer × Net)
  send_thread n port_num ftid fds work_len database t now net =
      send_rounds n round_set (for_ports (open_lane ftid fds work_len database) port_num 0) net
      >>= λ r. ok (r.0, start_time t now, r.1)

  -- close(fds[i]) for each port.
  unfoldable pub close_all : List Inbox → Net → Net
  close_all [] net = net
  close_all (i ∷ inboxes) net = close_all inboxes (os.close net i.fd)

  -- The receiving thread, for at most `n` sweeps; it reads the watch at the time `now` and adds
  -- what it shows to `timelist[ftid]`.
  unfoldable pub recv_thread :
      ℕ
      → (port_num thread_num : ℕ) → (fds : ℕ → ℕ) → (ℕ → List BatchObj)
      → (runtime : ℕ) → Tracer
      → Timeval
      → Net
      → Outcome (ℕ × Tracer × Net)
  recv_thread n port_num thread_num fds database runtime t now net =
      recv_loop os n 0 (for_ports (open_inbox thread_num fds database) port_num 0) net >>= λ s.
      let (passed, t') = get_run_time t now in ok (u64 (runtime + passed), t', close_all s.1 s.2)

-- The return value of `socket`, as an unsigned int.
abbrev pub connect_fd : Option ℕ → ℕ
connect_fd none = 2 ^ 32 - 1
connect_fd (some fd) = u32 fd

module _ {Net : Type 0} (dl : Dialer Net) where
  -- The connection to the port `i`, non-blocking: BLOCK is false. The test `connect_fd < 0` of an
  -- unsigned number never holds.
  unfoldable pub dial : ℕ → ℕ → Net → Option ℕ × Net
  dial ip i net =
      let (sock, net₁) = dl.socket net in
      let fd = connect_fd sock in
      let (connected, net₂) = dl.connect net₁ fd ip (swap16 (get_port_base + i)) in
      let (nonblocking, net₃) = dl.set_nonblocking net₂ fd in
      if ltb fd 0
      then (none, net₁)
      else if connected
      then (if nonblocking then (some fd, net₃) else (none, dl.close net₃ fd))
      else (none, dl.close net₂ fd)

  -- The loop of `data_dispatch`, over the `n` ports from the `i`-th on: the descriptors, in front
  -- of which those that are open stand, or none where it returns with no thread started.
  unfoldable pub dial_all : ℕ → ℕ → ℕ → List ℕ → Net → Option (List ℕ) × Net
  dial_all ip zero i fds net = (some fds, net)
  dial_all ip (suc n) i fds net =
      let (fd, net') = dial ip i net in
      elim fd [ none ↦ (none, net') | some x ↦ dial_all ip n (i + 1) (fds ++ x ∷ []) net' ]
