-- ===== src/Connection/Batched/Answers.antt =====
-- server.cpp: within a batch, a GET whose key is in the table is answered, and the next one is come
-- to.
use mathlib.Core.Path.{subst, ap₂}
use multiport_network.Base.{
  ℕ, ◌+◌, ◌≤◌, ◌<◌, ◌≡◌, refl, sym, ap, ◌∙◌, true, some, List, ◌++◌, length, arith, if◌then◌else◌,
}
use multiport_network.Interfaces.{Os, OsLaws, HashTable, Feeds}
use multiport_network.Protocol.{Header, head_len, swap16, store_header, u16}
use multiport_network.Connection.{
  Conn, parse_head, query_key, write_bcak, conn_new_cmd, ok, ◌>>=◌, pending, batch_buf_size,
}
use multiport_network.Connection.Process.{Turn, deal_with, found, write_back}
use multiport_network.Connection.Buffered.{IsBuffered}
use multiport_network.Connection.Reply.{
  con_ret_buf, packet, resp_head, answer, appended, count_miss,
}
use multiport_network.Connection.Batch.{send_batch, count_request}
use multiport_network.Connection.Outbox.{AllFilled, unsent}
use multiport_network.Connection.Outbox.Flow.{con_ret_buf-Appends}
use multiport_network.Connection.Outbox.Queue.{Queued, Loaded, con_ret_buf-Answers}
use multiport_network.Connection.Service.Answers.{reply_header}
use multiport_network.Connection.Service.Store.Session.{IsGetHeader}
use multiport_network.Connection.Turns.{Runs, done, Runs-trans, Runs-deal}
use multiport_network.Connection.Turns.Commands.{next_command}
use multiport_network.Connection.Batched.{Frame, InBatch, AtQuery, IsAnswered}
use multiport_network.Connection.Batched.Heads.{head_taken, key_taken}

-- The reply to the request of this number in a batch: that of the protocol, but for the number,
-- which is in the byte order of the host.
unfoldable pub batch_packet : ℕ → List ℕ → List ℕ → List ℕ
batch_packet count key value =
    store_header (record (reply_header (length key) (length value)) { batchnum = count })
    ++ (key ++ value)

module _ {Net : Type 0} (os : Os Net) where
  send_batch_early :
      (c : Conn) (net : Net)
      → c.batch_count < c.batch_num
      → send_batch os c net
        ≡ ok (record (count_request c) { work_state = parse_head; conn_state = conn_new_cmd }, net)
  unfolding send_batch count_request
  send_batch_early c net few = ground arith

module _ {Net Map : Type 0} (os : Os Net) (ht : HashTable Map)
    (incoming sent : Net → ℕ → List ℕ) where
  module _ (f : Frame Map) (count : ℕ) (replies : List ℕ) where
    packet_of :
        (c : Conn) (key value : List ℕ)
        → c.key ≡ key
        → c.in_batch_get ≡ true
        → c.batch_count ≡ count
        → packet (record c { value = value; query_hit = true }) ≡ batch_packet count key value
    unfolding packet resp_head answer batch_packet reply_header
    packet_of c key value k b n = ground arith

    key-IsAnswered :
        (t : Turn Net Map) (key value rest : List ℕ)
        → AtQuery os ht incoming sent f count replies key rest t
        → ht.find f.table key ≡ some value
        → head_len + length key + length value ≤ batch_buf_size
        → (u : Turn Net Map) × Runs os ht incoming t u
          × IsAnswered os ht incoming sent f
              (u16 (count + 1))
              (replies ++ batch_packet count key value)
              rest
              u
    unfolding deal_with found appended count_miss
    key-IsAnswered t key value rest a finds fits =
        let b = a.batch in
        let c = record t.conn { value = value; query_hit = true } in
        let (c', k) =
          con_ret_buf-Answers c b.batching b.queued refl (omega (arith, ap length a.key_is)) in
        let same = k.same in
        let added = con_ret_buf-Appends c c' b.batching b.filled k.returns in
        let v = record t { conn = c' } in
        let asked : found t.conn (ht.find t.table t.conn.key) ≡ c =
          ap (found t.conn) (ap₂ ht.find b.table_is a.key_is ∙ finds) in
        let still = b.buffered in
        (
          v,
          Runs-deal os ht incoming query_key t (c', t.net, t.table) v b.running b.dealing a.work
              (ap (λ x. con_ret_buf x >>= λ c''. ok (c'', t.net, t.table)) asked
                ∙ ap (λ x. x >>= λ c''. ok (c'', t.net, t.table)) k.returns)
              (done v),
          record {
            batch = record {
              running = b.running;
              dealing = ap (λ (x : Conn). x.conn_state) same ∙ b.dealing;
              buffered =
                  subst IsBuffered (sym same)
                    (record { size = still.size; held = still.held; fits = still.fits });
              fd_is = ap (λ (x : Conn). x.sfd) same ∙ b.fd_is;
              batching = ap (λ (x : Conn). x.in_batch_get) same ∙ b.batching;
              count_is = added.one_more ∙ ap (λ n. u16 (n + 1)) b.count_is;
              num_is = ap (λ (x : Conn). x.batch_num) same ∙ b.num_is;
              filled = added.filled;
              queued = subst Queued (sym (ap (λ (x : Conn). x.batch_ret_vector) same)) k.queued;
              replies_are =
                  added.added
                  ∙ ap₂ (λ xs ys. xs ++ ys) b.replies_are
                      (packet_of t.conn key value a.key_is b.batching b.count_is);
              input_is = ap (λ (x : Conn). pending x ++ incoming t.net x.sfd) same ∙ b.input_is;
              sent_is = ap (λ (x : Conn). sent t.net x.sfd) same ∙ b.sent_is;
              table_is = b.table_is;
            };
            work = ap (λ (x : Conn). x.work_state) same;
            loaded = subst Loaded (sym (ap (λ (x : Conn). x.batch_ret_vector) same)) k.loaded;
          },
        )

  module _ (laws : OsLaws os) (feeds : Feeds os incoming sent) (f : Frame Map) (count : ℕ)
      (replies : List ℕ) where
    -- A GET that is not yet there whole, in its turn.
    pub get-IsAnswered :
        (t : Turn Net Map) (h : Header) (key value rest : List ℕ)
        → InBatch os ht incoming sent f count replies (store_header h ++ (key ++ rest)) t
        → t.conn.work_state ≡ parse_head
        → IsGetHeader h (length key)
        → 0 < length key
        → length key ≤ 1000
        → count ≡ swap16 h.batchnum
        → ht.find f.table key ≡ some value
        → head_len + length key + length value ≤ batch_buf_size
        → (u : Turn Net Map) × Runs os ht incoming t u
          × IsAnswered os ht incoming sent f
              (u16 (count + 1))
              (replies ++ batch_packet count key value)
              rest
              u
    get-IsAnswered t h key value rest b w g some_key short turn finds fits =
        let (u, p, a) =
          head_taken os ht incoming sent laws feeds f count replies t h (length key) (key ++ rest) b
            w g some_key turn in
        let (v, q, c) =
          key_taken os ht incoming sent laws feeds f count replies u key rest a short in
        let (x, r, d) = key-IsAnswered f count replies v key value rest c finds fits in
        (x, Runs-trans os ht incoming t u x p (Runs-trans os ht incoming u v x q r), d)

    -- While more than a buffer of input is to come, nothing is written, and the next one is come to.
    pub next_of_batch :
        (t : Turn Net Map) (input : List ℕ)
        → IsAnswered os ht incoming sent f count replies input t
        → count < f.num
        → 1000 < length input
        → (u : Turn Net Map) × Runs os ht incoming t u
          × InBatch os ht incoming sent f count replies input u
          × (u.conn.work_state ≡ parse_head)
    unfolding deal_with count_request
    next_of_batch t input a few more =
        let b = a.batch in
        let still = b.buffered in
        let c = record (count_request t.conn) {
          work_state = parse_head;
          conn_state = conn_new_cmd;
        } in
        let s = record t { conn = c } in
        let (u, r) =
          next_command os ht incoming sent laws feeds s b.running refl refl
            (record { size = still.size; held = still.held; fits = still.fits })
            (omega (arith, ap length b.input_is)) in
        let sends : deal_with os ht write_bcak t.conn t.net t.table ≡ ok (c, t.net, t.table) =
          ap
            (λ x. (if x then send_batch os t.conn t.net else write_back os t.conn t.net) >>= λ y.
              ok (y.0, y.1, t.table))
            b.batching
          ∙ ap (λ x. x >>= λ y. ok (y.0, y.1, t.table))
              (send_batch_early os t.conn t.net (omega (arith, b.count_is, b.num_is))) in
        (
          u,
          Runs-deal os ht incoming write_bcak t (c, t.net, t.table) u b.running b.dealing a.work
              sends r.runs,
          record {
            running = r.running;
            dealing = r.dealing;
            buffered = r.buffered;
            fd_is = r.work.fd ∙ b.fd_is;
            batching = r.work.batching ∙ b.batching;
            count_is = r.work.count ∙ b.count_is;
            num_is = r.work.num ∙ b.num_is;
            filled = subst AllFilled (sym r.work.bufs) b.filled;
            queued = subst Queued (sym r.work.bufs) b.queued;
            replies_are = ap unsent r.work.bufs ∙ b.replies_are;
            input_is = r.same_stream ∙ b.input_is;
            sent_is = r.same_sent ∙ b.sent_is;
            table_is = r.same_table ∙ b.table_is;
          },
          r.work.work,
        )
