-- ===== src/DoubleBuf/Threads/Keys.antt =====
-- The keys that a thread of double_buf_get.cpp asks for: `con_database` and `send_thread` together.
use mathlib.Core.Path.{subst}
use multiport_network.Base.{
  ℕ, ◌+◌, ◌*◌, ◌/◌, ◌^◌, ◌≤◌, ◌<◌, ◌≡◌, sym, ap, ◌∙◌, List, ◌++◌, length, take, drop,
}
use multiport_network.Interfaces.{Os, OsLaws, Moves}
use multiport_network.Connection.{Outcome, ok, exits, fault}
use multiport_network.GetBatch.{BatchObj}
use multiport_network.GetBatch.Packed.{all_sealed}
use multiport_network.GetBatch.Packed.Whole.{keys_for}
use multiport_network.GetBatch.Send.{Lane}
use multiport_network.GetBatch.Send.Lanes.{unsent_objs, AllReady}
use multiport_network.GetBatch.Send.Loop.{total}
use multiport_network.DoubleBuf.Database.{draw_numbers}
use multiport_network.DoubleBuf.Database.Packs.{key_range, InBatches}
use multiport_network.DoubleBuf.Database.Bytes.{
  groups_bytes, groups-AllGroups, all_sealed-AllReady, unsent-all_sealed, length-all_sealed,
  take-all_sealed, drop-all_sealed,
}
use multiport_network.DoubleBuf.Tracer.{Tracer, Timeval, start_time}
use multiport_network.DoubleBuf.Threads.{send_thread}
use multiport_network.DoubleBuf.Threads.Parts.{part, IsShared}
use multiport_network.DoubleBuf.Threads.Whole.{Sends, lanes_from, send_thread-Sends}

part-all_sealed :
    (t ftid port : ℕ) (groups : List (List (List ℕ)))
    → part t ftid (all_sealed port groups) ≡ all_sealed port (part t ftid groups)
part-all_sealed t ftid port groups =
    ap (λ n. take (n / t) (drop (ftid * (n / t)) (all_sealed port groups)))
      (length-all_sealed port groups)
    ∙ ap (take (length groups / t)) (drop-all_sealed port (ftid * (length groups / t)) groups)
    ∙ take-all_sealed port (length groups / t) (drop (ftid * (length groups / t)) groups)

module _ (hash_func : List ℕ → ℕ) (kv_num : ℕ) (draw : ℕ → ℕ)
    (ranged : (i : ℕ) → draw i ≤ key_range) (t ftid port_num : ℕ) (fds : ℕ → ℕ)
    (database : ℕ → List BatchObj)
    (packed : (p : ℕ)
      → p < port_num
      → InBatches p (keys_for hash_func port_num p (draw_numbers draw kv_num 0)) (database p))
    (many : (i : ℕ) → i < port_num → t ≤ length (database i))
    (small : (i : ℕ) → i < port_num → length (database i) < 2 ^ 63) (mine : ftid < t)
    (own : (i j : ℕ) → i < port_num → j < port_num → fds i ≡ fds j → i ≡ j) where
  pub packed-IsShared : (i : ℕ) → i < port_num → IsShared t (database i)
  packed-IsShared i less = record {
    many = many i less;
    small = small i less;
    ready = subst AllReady (sym (packed i less).in_database) (
        all_sealed-AllReady i (packed i less).groups (packed i less).full
          (groups-AllGroups hash_func port_num kv_num i draw (database i) ranged (packed i less)));
  }

  part-bytes :
      (i : ℕ) (less : i < port_num)
      → unsent_objs (part t ftid (database i)) ≡ groups_bytes i (part t ftid (packed i less).groups)
  part-bytes i less =
      ap (λ bs. unsent_objs (part t ftid bs)) (packed i less).in_database
      ∙ ap unsent_objs (part-all_sealed t ftid i (packed i less).groups)
      ∙ unsent-all_sealed i (part t ftid (packed i less).groups)

  module _ {Net : Type 0} (sent : Net → ℕ → List ℕ) (stalls : Net → ℕ) (net : Net) where
    -- The keys that the thread has asked for on each port when it ends.
    abbrev pub Asks : Outcome (List Lane × Tracer × Net) → Type 0
    Asks (ok (lanes, tracer, net')) =
        (i : ℕ) (less : i < port_num)
        → sent net' (fds i)
          ≡ sent net (fds i) ++ groups_bytes i (part t ftid (packed i less).groups)
    Asks exits = ⊥
    Asks fault = ⊥

    Sends-Asks :
        (begun : Tracer) (o : Outcome (List Lane × Tracer × Net))
        → Sends t ftid port_num fds database mine packed-IsShared own sent stalls net begun o
        → Asks o
    Sends-Asks begun (ok (lanes, tracer, net')) (e, h) =
        λ i less. h i less ∙ ap (◌++◌ (sent net (fds i))) (part-bytes i less)
    Sends-Asks begun exits h = h
    Sends-Asks begun fault h = h

    -- A thread of double_buf_get over connections of its own that move on, with the database that
    -- `con_database` made: where each port has a batch for each thread, it ends, given as many
    -- sweeps as there are bytes to send and refusals to come, and one; and on the connection of
    -- each port it has sent, behind what was sent before, just the protocol's bytes of its part of
    -- the batches of the keys that hash to that port.
    pub send_thread-Asks :
        (os : Os Net)
        → OsLaws os
        → Moves os sent stalls
        → (n : ℕ) (tracer : Tracer) (now : Timeval)
        → total (lanes_from t ftid port_num fds database mine packed-IsShared own port_num 0)
            + stalls net
          < n
        → Asks (
            send_thread os n port_num ftid fds
              (λ i. length (database i) / t)
              database
              tracer
              now
              net)
    send_thread-Asks os laws moves n tracer now enough = Sends-Asks (start_time tracer now) _ (
        send_thread-Sends t ftid port_num fds database mine packed-IsShared own sent stalls net os
          laws moves n tracer now enough)
