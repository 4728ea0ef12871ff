-- ===== src/DoubleBuf/Served/Asked.antt =====
-- From the numbers that double_buf_get draws to the last byte that the server answers.
use mathlib.Core.Path.{subst}
use multiport_network.Base.{
  ℕ, ◌-◌, ◌*◌, take, drop, length-take, length-drop, ◌+◌, ◌/◌, ◌^◌, ◌≤◌, ◌<◌, ◌≡◌, ap, ◌∙◌, List,
  [], ◌++◌, length, arith,
}
use multiport_network.Interfaces.{Os, OsLaws, HashTable, Feeds, Moves}
use multiport_network.Connection.{Conn, ok}
use multiport_network.Connection.Process.{Turn, start_turn}
use multiport_network.Connection.Create.{IsFresh}
use multiport_network.Connection.Turns.{Runs}
use multiport_network.Connection.Batched.Writing.{IsDelivered}
use multiport_network.GetBatch.Served.Whole.{all_replies}
use multiport_network.GetBatch.{BatchObj}
use multiport_network.GetBatch.Packed.{flat}
use multiport_network.GetBatch.Packed.Whole.{keys_for}
use multiport_network.GetBatch.Send.{Lane}
use multiport_network.GetBatch.Send.Loop.{total}
use multiport_network.GetBatch.Served.{Found}
use multiport_network.DoubleBuf.Database.{draw_numbers}
use multiport_network.DoubleBuf.Database.Packs.{key_range, InBatches}
use multiport_network.DoubleBuf.Database.Bytes.{groups_bytes, length-all_sealed}
use multiport_network.DoubleBuf.Tracer.{Tracer, Timeval}
use multiport_network.DoubleBuf.Threads.{send_thread}
use multiport_network.DoubleBuf.Threads.Parts.{part}
use multiport_network.DoubleBuf.Threads.Whole.{lanes_from}
use multiport_network.DoubleBuf.Threads.Keys.{packed-IsShared, Asks, send_thread-Asks}
use multiport_network.DoubleBuf.Served.{groups-Answered}
use multiport_network.DoubleBuf.Served.Kept.{
  Found-append_left, Found-flat, AllFound-take, AllFound-part, AllFull-take, AllFull-drop,
  AllFull-part, part_two, length-groups_bytes, groups_bytes_split,
}

-- The sender.
module _ (hash_func : List ℕ → ℕ) (kv_num : ℕ) (draw : ℕ → ℕ)
    (ranged : (i : ℕ) → draw i ≤ key_range) (t ftid port_num : ℕ) (fds : ℕ → ℕ)
    (database : ℕ → List BatchObj)
    (packed : (p : ℕ)
      → p < port_num
      → InBatches p (keys_for hash_func port_num p (draw_numbers draw kv_num 0)) (database p))
    (many : (i : ℕ) → i < port_num → t ≤ length (database i))
    (small : (i : ℕ) → i < port_num → length (database i) < 2 ^ 63) (mine : ftid < t)
    (own : (i j : ℕ) → i < port_num → j < port_num → fds i ≡ fds j → i ≡ j) where
  module _ {Net : Type 0} (os : Os Net) (sent : Net → ℕ → List ℕ) (stalls : Net → ℕ)
      (laws : OsLaws os) (moves : Moves os sent stalls) (net net' : Net) (rounds : ℕ)
      (tracer tracer' : Tracer) (now : Timeval) (lanes : List Lane)
      (enough : total (
            lanes_from t ftid port_num fds database mine
              (packed-IsShared hash_func kv_num draw ranged t ftid port_num fds database packed many
                small mine own)
              own
              port_num
              0)
          + stalls net
        < rounds)
      (ends : send_thread os rounds port_num ftid fds
          (λ i. length (database i) / t)
          database
          tracer
          now
          net
        ≡ ok (lanes, tracer', net')) where
    asked :
        (i : ℕ) (less : i < port_num)
        → sent net' (fds i)
          ≡ sent net (fds i) ++ groups_bytes i (part t ftid (packed i less).groups)
    asked =
        subst
          (Asks hash_func kv_num draw ranged t ftid port_num fds database packed many small mine own
            sent stalls net)
          ends
          (send_thread-Asks hash_func kv_num draw ranged t ftid port_num fds database packed many
            small mine own sent stalls net os laws moves rounds tracer now enough)

    -- What a thread of double_buf_get sends on the connection of a port, on which nothing was sent
    -- before, the server answers in full but for the last batch, of which nothing is claimed. The
    -- thread's sockets keep `OsLaws` and move on, its connections are its own, it ran for enough
    -- sweeps, and each port of the database that `con_database` made has a batch for each thread,
    -- this port two, and fewer than 2^63; the server's sockets keep `OsLaws`, deliver what is
    -- incoming (`Feeds`) and take what is sent (`Moves`), the connection was just created there, no
    -- other connection uses the sockets or the table meanwhile, and the table has values for all
    -- keys of the port, for which a reply fits a buffer. Then finitely many rounds, over calls of
    -- `event_handler` each of which but the first finds bytes to read on its socket, send, behind
    -- what was sent before, the replies to the keys of all batches of the thread's part but the
    -- last, in their order, each with its value and its number in its batch, and nothing else; the
    -- table is unchanged, just the last batch is left unread and no batch is under way.
    pub asked_answered :
        {Net' Map : Type 0} (os' : Os Net') (ht : HashTable Map)
        (incoming' sent' : Net' → ℕ → List ℕ) (stalls' : Net' → ℕ)
        → OsLaws os'
        → (feeds' : Feeds os' incoming' sent') (moves' : Moves os' sent' stalls')
        → (value : List ℕ → List ℕ) (c : Conn) (server : Net') (table : Map) → IsFresh c
        → (i : ℕ) (less : i < port_num) → sent net (fds i) ≡ []
        → incoming' server c.sfd ≡ sent net' (fds i)
        → Found ht table value (keys_for hash_func port_num i (draw_numbers draw kv_num 0))
        → 2 * t ≤ length (database i)
        → let groups = part t ftid (packed i less).groups in
          (u : Turn Net' Map) × Runs os' ht incoming' (start_turn os' ht c server table) u
          × IsDelivered os' ht incoming' sent' c.sfd table
              (sent' server c.sfd ++ all_replies value (take (length groups - 1) groups))
              (groups_bytes i (drop (length groups - 1) groups))
              u
    asked_answered os' ht incoming' sent' stalls' laws' feeds' moves' value c server table fresh i
          less none_before arrives found twice =
        let v = packed i less in
        let groups = part t ftid v.groups in
        let n = length groups - 1 in
        let full = AllFull-part t ftid v.groups v.full in
        let two =
          part_two t ftid v.groups mine
            (omega (arith, ap length v.in_database, length-all_sealed i v.groups)) in
        groups-Answered os' ht incoming' sent' laws' feeds' stalls' moves' i value c server table
          fresh (take n groups) (groups_bytes i (drop n groups))
          (omega (arith, length-take n groups)) (AllFull-take n groups full)
          (AllFound-take ht table value n groups (
            AllFound-part ht table value t ftid v.groups (
              Found-flat ht table value v.groups (
                Found-append_left ht table value (flat v.groups) v.rest
                  (subst (Found ht table value) v.same found)))))
          (arrives
            ∙ asked i less
            ∙ ap (λ xs. xs ++ groups_bytes i groups) none_before
            ∙ groups_bytes_split i n groups)
          (length-groups_bytes i (drop n groups) (AllFull-drop n groups full)
            (omega (arith, length-drop n groups)))
