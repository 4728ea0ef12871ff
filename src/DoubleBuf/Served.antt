-- ===== src/DoubleBuf/Served.antt =====
-- double_buf_get and the server together: what a thread asks for on a connection, and what the
-- server answers there.
pub mod Kept
pub mod Asked
use mathlib.Core.Path.{subst, subst₃}
use multiport_network.Base.{
  ℕ, zero, suc, ◌+◌, ◌*◌, ◌/◌, ◌^◌, ◌≤◌, ◌<◌, ◌≡◌, refl, sym, ap, ◌∙◌, false, Option, none, some,
  List, [], ◌∷◌, ◌++◌, length, arith, append-nil, take, drop, length-append, append_assoc,
}
use multiport_network.Interfaces.{Os, OsLaws, HashTable, Feeds, Moves}
use multiport_network.Protocol.{head_len}
use multiport_network.Connection.{Conn, Outcome, ok, exits, fault, batch_buf_size, pending}
use multiport_network.Connection.Process.{Turn, start_turn}
use multiport_network.Connection.Buffered.{IsBuffered}
use multiport_network.Connection.Create.{IsFresh}
use multiport_network.Connection.Turns.{Runs, Runs-trans}
use multiport_network.Connection.Turns.Reading.{Reached, read_now}
use multiport_network.Connection.Turns.Gathering.{length-pending}
use multiport_network.Connection.Batched.Writing.{IsDelivered}
use multiport_network.GetBatch.Packed.{AllFull, flat}
use multiport_network.GetBatch.Served.{Found}
use multiport_network.GetBatch.Served.One.{AtStream}
use multiport_network.GetBatch.Served.Whole.{all_replies, AllFound, batches_served}
use multiport_network.DoubleBuf.Database.Bytes.{groups_bytes}

module _ {Net Map : Type 0} (os : Os Net) (ht : HashTable Map) (incoming sent : Net → ℕ → List ℕ)
    (laws : OsLaws os) (feeds : Feeds os incoming sent) where
  -- A connection that was just created reads the first bytes that come.
  fresh_stream :
      (c : Conn) (net : Net) (table : Map)
      → IsFresh c
      → 0 < length (incoming net c.sfd)
      → (u : Turn Net Map) × Runs os ht incoming (start_turn os ht c net table) u
        × AtStream os ht incoming sent (incoming net c.sfd) u
        × (u.conn.sfd ≡ c.sfd)
        × (u.table ≡ table)
        × (sent u.net c.sfd ≡ sent net c.sfd)
  fresh_stream c net table f some_in =
      let v = f.sound.buffered in
      let (u, r, fewer) =
        read_now os ht incoming sent laws feeds (start_turn os ht c net table) refl f.reading v
          (omega (arith, v.size, length-pending c v, ap length f.no_input)) some_in in
      (
        u,
        r.runs,
        record {
          running = r.running;
          dealing = r.dealing;
          parsing = r.work.work ∙ f.parsing;
          buffered = r.buffered;
          single = r.work.batching ∙ f.no_batch;
          no_bufs = r.work.bufs ∙ f.no_bufs;
          input = r.same_stream ∙ ap (λ xs. xs ++ incoming net c.sfd) f.no_input;
        },
        r.work.fd,
        r.same_table,
        ap (sent u.net) (sym r.work.fd) ∙ r.same_sent,
      )

  -- The batches of a sender, on a new connection, with more input behind them.
  module _ (stalls : Net → ℕ) (moves : Moves os sent stalls) (port : ℕ) (value : List ℕ → List ℕ)
      (c : Conn) (net : Net) (table : Map) (fresh : IsFresh c) where
    abbrev pub Answered : List (List (List ℕ)) → List ℕ → Type 0
    Answered groups rest =
        (u : Turn Net Map) × Runs os ht incoming (start_turn os ht c net table) u
        × IsDelivered os ht incoming sent c.sfd table (sent net c.sfd ++ all_replies value groups)
            rest u

    pub groups-Answered :
        (groups : List (List (List ℕ))) (rest : List ℕ)
        → 0 < length groups
        → AllFull groups
        → AllFound ht table value groups
        → incoming net c.sfd ≡ groups_bytes port groups ++ rest
        → 1000 < length rest
        → Answered groups rest
    groups-Answered [] rest some_groups full found e much = absurd (omega arith)
    groups-Answered (group ∷ groups) rest some_groups full found e much =
        let bytes = groups_bytes port (group ∷ groups) in
        let (t, r, a, same_fd, same_table, same_sent) =
          fresh_stream c net table fresh (omega (arith, ap length e, length-append bytes rest)) in
        let (u, q, d) =
          batches_served os ht incoming sent laws feeds stalls moves port value group groups rest t
            full (subst (λ xs. AtStream os ht incoming sent xs t) e a)
            (subst (λ m. AllFound ht m value (group ∷ groups)) (sym same_table) found) much in
        (
          u,
          Runs-trans os ht incoming (start_turn os ht c net table) t u r q,
          subst₃
              (λ fd m xs.
                IsDelivered os ht incoming sent fd m (xs ++ all_replies value (group ∷ groups)) rest
                  u)
              same_fd same_table (ap (sent t.net) same_fd ∙ same_sent) d,
        )
