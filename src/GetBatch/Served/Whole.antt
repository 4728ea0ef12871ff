-- ===== src/GetBatch/Served/Whole.antt =====
-- Whole batches of `con_database`, from the first header on the connection to the last byte of the
-- replies.
use mathlib.Core.Path.{subst, subst₃}
use multiport_network.Base.{
  ℕ, ◌<◌, ◌≡◌, sym, ap, ◌∙◌, List, [], ◌∷◌, ◌++◌, length, length-append, append_assoc, append-nil,
  arith,
}
use multiport_network.Interfaces.{Os, OsLaws, HashTable, Feeds, Moves}
use multiport_network.Connection.Process.{Turn}
use multiport_network.Connection.Turns.{Runs, Runs-trans}
use multiport_network.Connection.Batched.Writing.{IsDelivered}
use multiport_network.GetBatch.Packed.{batch_bytes, AllFull}
use multiport_network.DoubleBuf.Database.Bytes.{groups_bytes}
use multiport_network.Connection.Turns.Commands.{next_command}
use multiport_network.GetBatch.Served.{replies_of, Found}
use multiport_network.GetBatch.Served.One.{AtStream, batch_served}

-- The replies to batches of these keys.
abbrev pub all_replies : (List ℕ → List ℕ) → List (List (List ℕ)) → List ℕ
all_replies value [] = []
all_replies value (group ∷ groups) = replies_of value 0 group ++ all_replies value groups

abbrev pub AllFound :
    {Map : Type 0} → HashTable Map → Map → (List ℕ → List ℕ) → List (List (List ℕ)) → Type 0
AllFound ht m value [] = Unit {0}
AllFound ht m value (group ∷ groups) = Found ht m value group × AllFound ht m value groups

module _ {Net Map : Type 0} (os : Os Net) (ht : HashTable Map) (incoming sent : Net → ℕ → List ℕ)
    (laws : OsLaws os) (feeds : Feeds os incoming sent) (stalls : Net → ℕ)
    (moves : Moves os sent stalls) (port : ℕ) (value : List ℕ → List ℕ) where
  -- From one batch to the next.
  next_stream :
      (fd : ℕ) (table : Map) (total bytes : List ℕ) (t : Turn Net Map)
      → IsDelivered os ht incoming sent fd table total bytes t
      → 1000 < length bytes
      → (u : Turn Net Map) × Runs os ht incoming t u
        × AtStream os ht incoming sent bytes u
        × (u.conn.sfd ≡ fd)
        × (u.table ≡ table)
        × (sent u.net fd ≡ total)
  next_stream fd table total bytes t d more =
      let o = d.over in
      let (u, r) =
        next_command os ht incoming sent laws feeds t d.running o.next o.work d.buffered
          (omega (arith, ap length d.input_is)) in
      let same = r.work.fd ∙ d.fd_is in
      (
        u,
        r.runs,
        record {
          running = r.running;
          dealing = r.dealing;
          parsing = r.work.work ∙ o.work;
          buffered = r.buffered;
          single = r.work.batching ∙ o.batching;
          no_bufs = r.work.bufs ∙ o.no_bufs;
          input = r.same_stream ∙ d.input_is;
        },
        same,
        r.same_table ∙ d.table_is,
        ap (sent u.net) (sym same) ∙ r.same_sent ∙ ap (sent t.net) d.fd_is ∙ d.total_is,
      )

  -- One or more batches of the client, one behind the other, for keys that are in the table of
  -- the server with values for which a reply fits a buffer, on a connection outside a batch, with
  -- more than 1000 bytes of input behind them, over sockets that keep `OsLaws`, deliver what is
  -- incoming (`Feeds`) and take what is sent (`Moves`), while no other connection uses the table or
  -- the sockets: however the bytes arrive and are accepted, finitely many rounds, over calls of
  -- `event_handler` each of which but the first finds bytes to read on its socket, send, behind
  -- what was sent before, the replies to all of the keys in the order of the batches, each with its
  -- value and its number in its batch, and nothing else; the table is unchanged, no batch is under
  -- way and its buffers are gone, what follows the batches in the input is unread, and the next
  -- command is due.
  pub batches_served :
      (group : List (List ℕ)) (groups : List (List (List ℕ))) (rest : List ℕ) (t : Turn Net Map)
      → AllFull (group ∷ groups)
      → AtStream os ht incoming sent (groups_bytes port (group ∷ groups) ++ rest) t
      → AllFound ht t.table value (group ∷ groups)
      → 1000 < length rest
      → (u : Turn Net Map) × Runs os ht incoming t u
        × IsDelivered os ht incoming sent t.conn.sfd t.table
            (sent t.net t.conn.sfd ++ all_replies value (group ∷ groups))
            rest
            u
  batches_served group [] rest t full a h much =
      let (u, r, d) =
        batch_served os ht incoming sent laws feeds stalls moves port value group rest t full.0
          (subst (λ xs. AtStream os ht incoming sent (xs ++ rest) t)
            (append-nil (batch_bytes port group)) a)
          h.0 much in
      (
        u,
        r,
        subst
            (λ xs.
              IsDelivered os ht incoming sent t.conn.sfd t.table (sent t.net t.conn.sfd ++ xs) rest
                u)
            (sym (append-nil (replies_of value 0 group))) d,
      )
  batches_served group (next ∷ groups) rest t full a h much =
      let more = groups_bytes port (next ∷ groups) in
      let fd = t.conn.sfd in
      let before = sent t.net fd in
      let (u, r, d) =
        batch_served os ht incoming sent laws feeds stalls moves port value group (more ++ rest) t
          full.0
          (subst (λ xs. AtStream os ht incoming sent xs t)
            (append_assoc (batch_bytes port group) more rest) a)
          h.0 (omega (arith, length-append more rest)) in
      let (v, q, b, same_fd, same_table, same_sent) =
        next_stream fd t.table (before ++ replies_of value 0 group) (more ++ rest) u d
          (omega (arith, length-append more rest)) in
      let (x, s, e) =
        batches_served next groups rest v full.1 b
          (subst (λ m. AllFound ht m value (next ∷ groups)) (sym same_table) h.1) much in
      (
        x,
        Runs-trans os ht incoming t u x r (Runs-trans os ht incoming u v x q s),
        subst₃ (λ n m xs. IsDelivered os ht incoming sent n m xs rest x) same_fd same_table
            (ap (λ xs. xs ++ all_replies value (next ∷ groups))
                (ap (sent v.net) same_fd ∙ same_sent)
              ∙ append_assoc before (replies_of value 0 group) (all_replies value (next ∷ groups)))
            e,
      )
