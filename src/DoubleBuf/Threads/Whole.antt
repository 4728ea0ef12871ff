-- ===== src/DoubleBuf/Threads/Whole.antt =====
-- `send_thread` of double_buf_get.cpp as a whole.
use mathlib.Core.Path.{subst}
use multiport_network.Base.{
  ℕ, zero, suc, ◌+◌, ◌/◌, ◌≤◌, ◌<◌, ◌≡◌, refl, sym, ap, ◌∙◌, ◌⊎◌, inl, inr, List, ◌∷◌, ◌++◌, arith,
  length,
}
use multiport_network.Interfaces.{Os, OsLaws, Moves}
use multiport_network.Connection.{Outcome, ok, exits, fault, ◌>>=◌}
use multiport_network.GetBatch.{BatchObj}
use multiport_network.GetBatch.Send.{Lane}
use multiport_network.GetBatch.Send.Lanes.{unsent_objs}
use multiport_network.GetBatch.Send.Loop.{AllLanes, total}
use multiport_network.DoubleBuf.Tracer.{Tracer, Timeval, start_time}
use multiport_network.DoubleBuf.Threads.{
  open_lane, start_round, for_ports, send_sweeps, send_rounds, send_thread,
}
use multiport_network.DoubleBuf.Threads.Parts.{
  part, IsShared, begin_lane, begin_lane-IsLane, begin_lane-sends,
}
use multiport_network.DoubleBuf.Threads.Delivery.{
  Without, AllDistinct, Delivered, targets_of, Delivers, send_sweeps-Delivers,
}

first_or_later : (i j : ℕ) → i ≤ j → (i ≡ j) ⊎ (i + 1 ≤ j)
first_or_later i j h = grind arith

module _ (t ftid port_num : ℕ) (fds : ℕ → ℕ) (database : ℕ → List BatchObj) (mine : ftid < t)
    (shared : (i : ℕ) → i < port_num → IsShared t (database i))
    (own : (i j : ℕ) → i < port_num → j < port_num → fds i ≡ fds j → i ≡ j) where
  -- The lanes of the ports from the `i`-th on.
  abbrev pub lanes_from : ℕ → ℕ → List Lane
  lanes_from n i = for_ports (begin_lane t ftid fds database) n i

  start_round_lem :
      (n i : ℕ)
      → start_round (for_ports (open_lane ftid fds (λ j. length (database j) / t) database) n i)
        ≡ lanes_from n i
  unfolding start_round for_ports
  start_round_lem zero i = refl
  start_round_lem (suc n) i =
      ap (◌∷◌ (begin_lane t ftid fds database i)) (start_round_lem n (i + 1))

  lanes-AllLanes : (n i : ℕ) → i + n ≤ port_num → AllLanes (lanes_from n i)
  unfolding for_ports
  lanes-AllLanes zero i h = tt
  lanes-AllLanes (suc n) i h = (
    begin_lane-IsLane t ftid fds database mine i (shared i (omega arith)),
    lanes-AllLanes n (i + 1) (omega arith),
  )

  module _ {Net : Type 0} (sent : Net → ℕ → List ℕ) (stalls : Net → ℕ) (net : Net) where
    lanes-Without :
        (j n i : ℕ)
        → j < i
        → i + n ≤ port_num
        → Without (fds j) (targets_of sent stalls net (lanes_from n i))
    unfolding for_ports open_lane
    lanes-Without j zero i below h = tt
    lanes-Without j (suc n) i below h = (
      λ e. absurd (omega (arith, own j i (omega arith) (omega arith) e)),
      lanes-Without j n (i + 1) (omega arith) (omega arith),
    )

    lanes-AllDistinct :
        (n i : ℕ) → i + n ≤ port_num → AllDistinct (targets_of sent stalls net (lanes_from n i))
    unfolding for_ports open_lane
    lanes-AllDistinct zero i h = tt
    lanes-AllDistinct (suc n) i h = (
      lanes-Without i n (i + 1) (omega arith) (omega arith),
      lanes-AllDistinct n (i + 1) (omega arith),
    )

    Delivered-port :
        (net' : Net) (n i j : ℕ)
        → i + n ≤ port_num
        → Delivered sent stalls net' (targets_of sent stalls net (lanes_from n i))
        → i ≤ j
        → j < i + n
        → sent net' (fds j) ≡ sent net (fds j) ++ unsent_objs (part t ftid (database j))
    unfolding for_ports open_lane
    Delivered-port net' zero i j h d from to = absurd (omega arith)
    Delivered-port net' (suc n) i j h (here, d) from to = elim (first_or_later i j from) [
      | inl e ↦
          let same =
            here
            ∙ ap (◌++◌ (sent net (fds i)))
                (begin_lane-sends t ftid fds database mine i (shared i (omega arith))) in
          subst
            (λ k. sent net' (fds k) ≡ sent net (fds k) ++ unsent_objs (part t ftid (database k))) e
            same
      | inr more ↦ Delivered-port net' n (i + 1) j (omega arith) d (omega arith) (omega arith)
    ]

    -- What the thread has sent on each port when it ends.
    abbrev pub Sends : Tracer → Outcome (List Lane × Tracer × Net) → Type 0
    Sends begun (ok (lanes, tracer, net')) =
        (tracer ≡ begun)
        × ((i : ℕ)
            → i < port_num
            → sent net' (fds i) ≡ sent net (fds i) ++ unsent_objs (part t ftid (database i)))
    Sends begun exits = ⊥
    Sends begun fault = ⊥

    round-Sends :
        (os : Os Net) (n : ℕ) (begun : Tracer) (o : Outcome (ℕ × List Lane × Net))
        → Delivers sent stalls net (lanes_from port_num 0) o
        → Sends begun ((o >>= λ s. send_rounds os n 0 s.1 s.2) >>= λ r. ok (r.0, begun, r.1))
    unfolding send_rounds
    round-Sends os n begun (ok (stop_count, lanes', net')) (s, d) = (
      refl,
      λ i less. Delivered-port net' port_num 0 i (omega arith) d (omega arith) (omega arith),
    )
    round-Sends os n begun exits d = d
    round-Sends os n begun fault d = d

    -- The thread `ftid` of `t`, whose connections are its own and move on, where each port has at
    -- least one batch for each thread: given as many sweeps as there are bytes to send and
    -- refusals to come, and one, it ends, and on the connection of each port it has sent just the
    -- bytes of its part of the port's batches, each once and in their order.
    pub send_thread-Sends :
        (os : Os Net)
        → OsLaws os
        → Moves os sent stalls
        → (n : ℕ) (tracer : Tracer) (now : Timeval) → total (lanes_from port_num 0) + stalls net < n
        → Sends (start_time tracer now) (
            send_thread os n port_num ftid fds
              (λ i. length (database i) / t)
              database
              tracer
              now
              net)
    unfolding send_thread send_rounds
    send_thread-Sends os laws moves n tracer now enough =
        let d =
          subst (λ ls. Delivers sent stalls net (lanes_from port_num 0) (send_sweeps os n 0 ls net))
            (sym (start_round_lem port_num 0))
            (send_sweeps-Delivers sent stalls os laws moves (lanes_from port_num 0) net n
              (lanes-AllLanes port_num 0 (omega arith)) (lanes-AllDistinct port_num 0 (omega arith))
              enough) in
        round-Sends os n (start_time tracer now) _ d
