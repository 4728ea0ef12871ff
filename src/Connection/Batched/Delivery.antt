-- ===== src/Connection/Batched/Delivery.antt =====
-- server.cpp: all replies of a complete batch reach their connection.
use mathlib.Core.Path.{subst, ap₂}
use multiport_network.Base.{
  ℕ, zero, suc, ◌+◌, ◌<◌, refl, sym, ap, ◌∙◌, inl, inr, List, ◌∷◌, ◌++◌, length, append-nil, arith,
}
use multiport_network.Interfaces.{Os, OsLaws, HashTable, Feeds, Moves}
use multiport_network.Connection.{BatchBuf, write_bcak}
use multiport_network.Connection.Process.{Turn}
use multiport_network.Connection.Outbox.{AllFilled, unsent}
use multiport_network.Connection.Outbox.Queue.{Loaded, Queued-some}
use multiport_network.Connection.Turns.{Runs, done, Runs-deal}
use multiport_network.Connection.Turns.Gathering.{more_comes}
use multiport_network.Connection.Turns.Writes.{resumed, resume}
use multiport_network.Connection.Batched.{Frame, IsAnswered}
use multiport_network.Connection.Batched.Flush.{some_front}
use multiport_network.Connection.Batched.Writing.{
  IsWriting, IsDelivered, after, left, kept, after-IsBuffered, after_total, after_input, fewer,
  cases, sends,
}

module _ {Net Map : Type 0} (os : Os Net) (ht : HashTable Map) (incoming sent : Net → ℕ → List ℕ)
    (laws : OsLaws os) (stalls : Net → ℕ) (moves : Moves os sent stalls)
    (feeds : Feeds os incoming sent) where
  pub deliver :
      (k : ℕ) (table : Map) (total input : List ℕ) (b : BatchBuf) (rest : List BatchBuf)
      (t : Turn Net Map)
      → IsWriting os ht incoming sent table total input b rest t
      → 1000 < length input
      → length (unsent (b ∷ rest)) + stalls t.net < k
      → (u : Turn Net Map) × Runs os ht incoming t u
        × IsDelivered os ht incoming sent t.conn.sfd table total input u
  deliver zero table total input b rest t w much bound = absurd (omega arith)
  deliver (suc k) table total input b rest t w much enough =
      let x = after os ht incoming sent laws stalls moves feeds table total input b rest t w in
      let same = kept os ht incoming sent laws stalls moves feeds table total input b rest t w in
      let v =
        after-IsBuffered os ht incoming sent laws stalls moves feeds table total input b rest t w in
      let (remains, filled) =
        left os ht incoming sent laws stalls moves feeds table total input b rest t w in
      let run : (u : Turn Net Map) → Runs os ht incoming x u → Runs os ht incoming t u = λ u r.
        Runs-deal os ht incoming write_bcak t (x.conn, x.net, t.table) u w.running w.dealing w.work
          (sends os ht incoming sent laws stalls moves feeds table total input b rest t w) r in
      elim (cases os ht incoming sent laws stalls moves feeds table total input b rest t w) [
        | inl held ↦
            let (b', rest', vec) = some_front x.conn.batch_ret_vector held.some_left in
            let (u, r, d) =
              deliver k table total input b' rest' (resumed os ht x)
                (record {
                  running = refl;
                  dealing = refl;
                  work = held.work ∙ w.work;
                  buffered = record { size = v.size; held = v.held; fits = v.fits };
                  batching = held.batching ∙ w.batching;
                  full = held.count ∙ w.full ∙ sym held.num;
                  bufs = vec;
                  filled = subst AllFilled vec filled;
                  loaded = subst Loaded vec held.loaded;
                  total_is =
                      ap (λ bufs. sent x.net x.conn.sfd ++ unsent bufs) (sym vec)
                      ∙ after_total os ht incoming sent laws stalls moves feeds table total input b
                          rest t w;
                  input_is =
                      after_input os ht incoming sent laws stalls moves feeds table total input b
                        rest t w;
                  table_is = w.table_is;
                })
                much
                (omega (
                  arith,
                  fewer os ht incoming sent laws stalls moves feeds table total input b rest t w,
                  ap (λ bufs. length (unsent bufs)) vec,
                )) in
            (
              u,
              run u (
                  resume os ht incoming x u
                    (more_comes os ht incoming sent x v (
                      omega (
                        arith,
                        ap length (
                            after_input os ht incoming sent laws stalls moves feeds table total
                              input b rest t w),
                      )))
                    w.running held.waits (held.work ∙ w.work) r),
              subst (λ fd. IsDelivered os ht incoming sent fd table total input u) same.fd d,
            )
        | inr over ↦ (
          x,
          run x (done x),
          record {
            running = w.running;
            buffered = v;
            fd_is = same.fd;
            over = over;
            total_is =
                ap (sent x.net) (sym same.fd)
                ∙ sym (append-nil (sent x.net x.conn.sfd))
                ∙ ap (λ bufs. sent x.net x.conn.sfd ++ unsent bufs) (sym over.no_bufs)
                ∙ after_total os ht incoming sent laws stalls moves feeds table total input b rest t
                    w;
            input_is =
                after_input os ht incoming sent laws stalls moves feeds table total input b rest t
                  w;
            table_is = w.table_is;
          },
        )
      ]

  -- A complete batch that waits to be written is delivered.
  pub deliver_answered :
      (f : Frame Map) (replies input : List ℕ) (t : Turn Net Map)
      → IsAnswered os ht incoming sent f f.num replies input t
      → 1000 < length input
      → (u : Turn Net Map) × Runs os ht incoming t u
        × IsDelivered os ht incoming sent f.fd f.table (f.wrote ++ replies) input u
  deliver_answered f replies input t a much =
      let d = a.batch in
      let (b, rest, vec) =
        some_front t.conn.batch_ret_vector (Queued-some t.conn.batch_ret_vector d.queued) in
      let (u, r, e) =
        deliver (suc (length (unsent (b ∷ rest)) + stalls t.net)) f.table (f.wrote ++ replies) input
          b rest t
          (record {
            running = d.running;
            dealing = d.dealing;
            work = a.work;
            buffered = d.buffered;
            batching = d.batching;
            full = d.count_is ∙ sym d.num_is;
            bufs = vec;
            filled = subst AllFilled vec d.filled;
            loaded = subst Loaded vec a.loaded;
            total_is = ap₂ (λ xs ys. xs ++ ys) d.sent_is (ap unsent (sym vec) ∙ d.replies_are);
            input_is = d.input_is;
            table_is = d.table_is;
          })
          much (omega arith) in
      (
        u,
        r,
        subst (λ fd. IsDelivered os ht incoming sent fd f.table (f.wrote ++ replies) input u)
            d.fd_is e,
      )
