-- ===== src/GetBatch/Served/One.antt =====
-- One batch of `con_database`, from its header on the connection to the last byte of its replies.
use mathlib.Core.Path.{subst, ap₂}
use multiport_network.Base.{
  ℕ, ◌<◌, ◌≡◌, refl, sym, ap, ◌∙◌, false, inl, List, [], ◌∷◌, ◌++◌, length, length-append,
  append_assoc, arith,
}
use multiport_network.Interfaces.{Os, OsLaws, HashTable, Feeds, Moves}
use multiport_network.Protocol.{Header, store_header}
use multiport_network.Protocol.RoundTrip.{length-store_header}
use multiport_network.Connection.{conn_deal_with, parse_head, ok, ◌>>=◌, pending}
use multiport_network.Connection.Parse.{new_batchbuf}
use multiport_network.Connection.Process.{Turn, deal_with}
use multiport_network.Connection.Buffered.{IsBuffered}
use multiport_network.Connection.Requests.Begun.{
  IsBatchHeader, begun, deal_head-begun, begun-IsBegun,
}
use multiport_network.Connection.Outbox.{AllFilled, unsent}
use multiport_network.Connection.Outbox.Queue.{Queued}
use multiport_network.Connection.Turns.{Runs, done, Runs-trans, Runs-deal}
use multiport_network.Connection.Turns.Reading.{stream, Reached}
use multiport_network.Connection.Turns.Gathering.{gather, starve_head, length-pending}
use multiport_network.Connection.Batched.{Frame, InBatch}
use multiport_network.Connection.Batched.Heads.{front_come}
use multiport_network.Connection.Batched.Writing.{IsDelivered}
use multiport_network.Connection.Batched.Delivery.{deliver_answered}
use multiport_network.GetBatch.{batch_size, batch_head}
use multiport_network.GetBatch.Packed.{packages, batch_bytes}
use multiport_network.GetBatch.Served.{replies_of, Found, keys_served, batch_head-IsBatchHeader}

module _ {Net Map : Type 0} (os : Os Net) (ht : HashTable Map)
    (incoming sent : Net → ℕ → List ℕ) where
  -- A connection outside a batch at the inner switch, with these bytes to come.
  pub record AtStream (bytes : List ℕ) (t : Turn Net Map) : Type 0 where
    pub running : t.stop ≡ false
    pub dealing : t.conn.conn_state ≡ conn_deal_with
    pub parsing : t.conn.work_state ≡ parse_head
    pub buffered : IsBuffered t.conn
    pub single : t.conn.in_batch_get ≡ false
    pub no_bufs : t.conn.batch_ret_vector ≡ []
    pub input : stream os ht incoming sent t ≡ bytes

  start : (t : Turn Net Map) (bytes : List ℕ) → AtStream bytes t → Reached os ht incoming sent t t
  start t bytes a = record {
    runs = done t;
    running = a.running;
    dealing = a.dealing;
    work = ground arith;
    buffered = a.buffered;
    same_stream = refl;
    same_sent = refl;
    same_table = refl;
  }

  abbrev frame : Turn Net Map → ℕ → Frame Map
  frame t num = record {
    fd = t.conn.sfd;
    num = num;
    wrote = sent t.net t.conn.sfd;
    table = t.table;
  }

  module _ (laws : OsLaws os) (feeds : Feeds os incoming sent) where
    batch_begun :
        (t : Turn Net Map) (h : Header) (num : ℕ) (body : List ℕ)
        → AtStream (store_header h ++ body) t
        → IsBatchHeader h num
        → (u : Turn Net Map) × Runs os ht incoming t u
          × InBatch os ht incoming sent (frame t num) 0 [] body u
          × (u.conn.work_state ≡ parse_head)
    unfolding deal_with
    batch_begun t h num body a g =
        let (u, r, enough) =
          gather os ht incoming sent laws feeds (length (incoming t.net t.conn.sfd)) t t 12
            (start t (store_header h ++ body) a) (inl a.parsing) (omega arith)
            (omega (
              arith,
              ap length a.input,
              length-append (store_header h) body,
              length-store_header h,
            ))
            (starve_head os ht incoming sent t h body a.parsing a.input g.magic) (omega arith) in
        let (rest, come, left) =
          front_come (pending u.conn) (store_header h) (incoming u.net u.conn.sfd) body
            (r.same_stream ∙ a.input)
            (omega (arith, length-pending u.conn r.buffered, length-store_header h)) in
        let single = r.work.batching ∙ a.single in
        let k = begun-IsBegun u.conn r.buffered h num g rest come single in
        let v = record u { conn = begun u.conn h } in
        let bufs : v.conn.batch_ret_vector ≡ new_batchbuf ∷ [] =
          k.bufs ∙ ap (λ xs. xs ++ new_batchbuf ∷ []) (r.work.bufs ∙ a.no_bufs) in
        (
          v,
          Runs-trans os ht incoming t u v r.runs (
              Runs-deal os ht incoming parse_head u (begun u.conn h, u.net, u.table) v r.running
                r.dealing (r.work.work ∙ a.parsing)
                (ap (λ x. x >>= λ c'. ok (c', u.net, u.table))
                  (deal_head-begun u.conn r.buffered h num g rest come single))
                (done v)),
          record {
            running = r.running;
            dealing = k.dealing ∙ r.dealing;
            buffered = k.buffered;
            fd_is = k.fd ∙ r.work.fd;
            batching = k.batching;
            count_is = k.count;
            num_is = k.num_is;
            filled = subst AllFilled (sym bufs) (omega arith, tt);
            queued = subst Queued (sym bufs) refl;
            replies_are = ap unsent bufs;
            input_is = ap₂ (λ xs fd. xs ++ incoming u.net fd) k.input_left k.fd ∙ left;
            sent_is = ap (sent u.net) k.fd ∙ r.same_sent;
            table_is = r.same_table;
          },
          k.parsing,
        )

    -- One batch: all its replies are sent.
    pub batch_served :
        (stalls : Net → ℕ) (moves : Moves os sent stalls) (port : ℕ) (value : List ℕ → List ℕ)
        (keys : List (List ℕ)) (rest : List ℕ) (t : Turn Net Map)
        → length keys ≡ batch_size
        → AtStream (batch_bytes port keys ++ rest) t
        → Found ht t.table value keys
        → 1000 < length rest
        → (u : Turn Net Map) × Runs os ht incoming t u
          × IsDelivered os ht incoming sent t.conn.sfd t.table
              (sent t.net t.conn.sfd ++ replies_of value 0 keys)
              rest
              u
    batch_served stalls moves port value [] rest t len a h much = absurd (omega arith)
    batch_served stalls moves port value (key ∷ keys) rest t len a h much =
        let body = packages port 0 (key ∷ keys) ++ rest in
        let f = frame t batch_size in
        let (u, r, b, w) =
          batch_begun t (batch_head port) batch_size body
            (subst (λ xs. AtStream xs t)
              (append_assoc (store_header (batch_head port)) (packages port 0 (key ∷ keys)) rest) a)
            (batch_head-IsBatchHeader port) in
        let (v, q, c) =
          keys_served os ht incoming sent laws feeds f port (omega arith) value key keys 0 [] rest u
            b w (omega (arith, len)) h much in
        let (x, s, d) =
          deliver_answered os ht incoming sent laws stalls moves feeds f
            (replies_of value 0 (key ∷ keys)) rest v c much in
        (x, Runs-trans os ht incoming t u x r (Runs-trans os ht incoming u v x q s), d)
