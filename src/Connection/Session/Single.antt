-- ===== src/Connection/Session/Single.antt =====
-- server.cpp: one SET and one GET outside a batch, from the first byte of the request to the last
-- byte of the reply.
use mathlib.Core.Path.{subst, ap₂}
use multiport_network.Base.{
  ℕ, suc, ◌+◌, ◌≤◌, ◌<◌, ◌≡◌, refl, ap, ◌∙◌, true, false, inl, inr, some, List, ◌++◌, length, arith,
}
use multiport_network.Base.Buffers.{slice, patch, slice-patch, length-patch}
use multiport_network.Interfaces.{Os, OsLaws, HashTable, Feeds, Moves}
use multiport_network.Protocol.{Header, head_len, cmd_get, cmd_set, store_header}
use multiport_network.Connection.{
  Conn, conn_deal_with, conn_new_cmd, parse_head, query_key, store_kvobj, init_ret_buf_size, ok,
  ◌>>=◌,
}
use multiport_network.Connection.Process.{Turn, deal_with, found, stored}
use multiport_network.Connection.Reply.{
  con_ret_buf, packet, packet_len, answer, resp_head, count_miss,
}
use multiport_network.Connection.Limits.{reply_unsent}
use multiport_network.Connection.Service.Answers.{
  reply_header, single_answer, con_ret_buf_single, length-packet,
}
use multiport_network.Connection.Service.Query.Replies.{hit_packet}
use multiport_network.Connection.Service.Store.Session.{IsGetHeader}
use multiport_network.Connection.Turns.{Runs, done, Runs-trans, Runs-deal}
use multiport_network.Connection.Session.{InSession, IsSetHeader}
use multiport_network.Connection.Session.Heads.{AtBody, head_read, get_read, set_read}
use multiport_network.Connection.Session.Replying.{IsReplying, reply_sent}

-- The packet of a reply to a hit.
packet-found :
    (c : Conn) (key value : List ℕ)
    → c.key ≡ key
    → c.in_batch_get ≡ false
    → packet (record c { value = value; query_hit = true }) ≡ hit_packet key value
unfolding packet hit_packet resp_head answer reply_header
packet-found c key value k s = ground arith

module _ {Net Map : Type 0} (os : Os Net) (ht : HashTable Map) (incoming sent : Net → ℕ → List ℕ)
    (laws : OsLaws os) (feeds : Feeds os incoming sent) (fd : ℕ) (table : Map)
    (before : List ℕ) where
  pub set_done :
      (t : Turn Net Map) (h : Header) (key value rest : List ℕ)
      → InSession os ht incoming sent conn_deal_with parse_head fd table before
          (store_header h ++ ((key ++ value) ++ rest))
          t
      → IsSetHeader h (length key) (length value)
      → 0 < length key
      → 8 ≤ length value
      → length key + length value ≤ 1000
      → (u : Turn Net Map) × Runs os ht incoming t u
        × InSession os ht incoming sent conn_new_cmd parse_head fd
            (ht.insert_or_assign table key value)
            before
            rest
            u
  unfolding deal_with stored
  set_done t h key value rest b g some_key some_value short =
      let (u, r, a) =
        head_read os ht incoming sent laws feeds fd table before t h ((key ++ value) ++ rest) b
          g.is_header g.magic (inl (g.op, omega (arith, g.key), omega (arith, g.key, g.body))) in
      let body : AtBody os ht incoming sent laws feeds fd table before cmd_set (length key)
          (length key + length value) ((key ++ value) ++ rest) u =
        record {
          session = a.session;
          cmd_is = a.cmd_is ∙ g.op;
          keylen_is = a.keylen_is ∙ g.key;
          bodylen_is = a.bodylen_is ∙ g.body;
        } in
      let (v, q, d, k, val) =
        set_read os ht incoming sent laws feeds fd table before u key value rest body short in
      let c = stored v.conn in
      let x = record v { conn = c; table = ht.insert_or_assign v.table v.conn.key v.conn.value } in
      let still = d.buffered in
      (
        x,
        Runs-trans os ht incoming t u x r (
            Runs-trans os ht incoming u v x q (
              Runs-deal os ht incoming store_kvobj v (c, v.net, x.table) x d.running d.state d.work
                refl (done x))),
        record {
          running = d.running;
          state = refl;
          work = refl;
          buffered = record { size = still.size; held = still.held; fits = still.fits };
          fd_is = d.fd_is;
          single = d.single;
          start = d.start;
          unused = d.unused;
          held = d.held;
          room = d.room;
          input_is = d.input_is;
          sent_is = d.sent_is;
          table_is =
              ap₂ (λ m ks. ht.insert_or_assign m ks v.conn.value) d.table_is k
              ∙ ap (ht.insert_or_assign table key) val;
        },
      )

  module _ (stalls : Net → ℕ) (moves : Moves os sent stalls) where
    -- The table is asked, and the reply is due.
    query_answered :
        (t : Turn Net Map) (key value rest : List ℕ)
        → InSession os ht incoming sent conn_deal_with query_key fd table before rest t
        → t.conn.key ≡ key
        → ht.find table key ≡ some value
        → head_len + length key + length value ≤ init_ret_buf_size
        → (u : Turn Net Map) × Runs os ht incoming t u
          × IsReplying os ht incoming sent table (before ++ hit_packet key value) rest u
          × (u.conn.sfd ≡ fd)
    unfolding deal_with single_answer count_miss packet_len answer found
    query_answered t key value rest d k finds fits =
        let a = record t.conn { value = value; query_hit = true } in
        let c = single_answer a in
        let x = record t { conn = c } in
        let still = d.buffered in
        let asked : found t.conn (ht.find t.table t.conn.key) ≡ a =
          ap (found t.conn) (ap₂ ht.find d.table_is k ∙ finds) in
        let len : packet_len a ≡ head_len + length key + length value =
          omega (arith, ap length k) in
        let size = length-packet a in
        (
          x,
          Runs-deal os ht incoming query_key t (c, t.net, t.table) x d.running d.state d.work
              (ap (λ y. con_ret_buf y >>= λ c'. ok (c', t.net, t.table)) asked
                ∙ ap (λ y. y >>= λ c'. ok (c', t.net, t.table))
                    (con_ret_buf_single a d.single d.start (omega (arith, len, d.room))))
              (done x),
          record {
            running = d.running;
            dealing = d.state;
            work = refl;
            buffered = record { size = still.size; held = still.held; fits = still.fits };
            single = d.single;
            held =
                length-patch t.conn.ret_buf 0 (packet a) (omega (arith, size, len, d.held, d.room))
                ∙ d.held;
            room = d.room;
            inside = omega (arith, d.start, d.unused, len, d.room);
            some_left = omega (arith, len);
            total_is =
                ap₂ (λ xs ys. xs ++ ys) d.sent_is
                  (ap₂ (λ pos m. slice (patch t.conn.ret_buf 0 (packet a)) pos m) d.start
                      (omega (arith, d.unused, size))
                    ∙ slice-patch t.conn.ret_buf 0 (packet a) (omega arith)
                    ∙ packet-found t.conn key value k d.single);
            input_is = d.input_is;
            table_is = d.table_is;
          },
          d.fd_is,
        )

    pub get_done :
        (t : Turn Net Map) (h : Header) (key value rest : List ℕ)
        → InSession os ht incoming sent conn_deal_with parse_head fd table before
            (store_header h ++ (key ++ rest))
            t
        → IsGetHeader h (length key)
        → 0 < length key
        → length key ≤ 1000
        → ht.find table key ≡ some value
        → head_len + length key + length value ≤ init_ret_buf_size
        → 1000 < length rest
        → (u : Turn Net Map) × Runs os ht incoming t u
          × InSession os ht incoming sent conn_new_cmd parse_head fd table
              (before ++ hit_packet key value)
              rest
              u
    get_done t h key value rest b g some_key short finds fits much =
        let (u, r, a) =
          head_read os ht incoming sent laws feeds fd table before t h (key ++ rest) b g.is_header
            g.magic (inr (g.op, omega (arith, g.key), omega (arith, g.key, g.body))) in
        let body : AtBody os ht incoming sent laws feeds fd table before cmd_get (length key)
            (length key) (key ++ rest) u =
          record {
            session = a.session;
            cmd_is = a.cmd_is ∙ g.op;
            keylen_is = a.keylen_is ∙ g.key;
            bodylen_is = a.bodylen_is ∙ g.body;
          } in
        let (v, q, d, k) =
          get_read os ht incoming sent laws feeds fd table before u key rest (length key) body
            short in
        let (x, s, e, same_fd) = query_answered v key value rest d k finds fits in
        let (y, p, f) =
          reply_sent os ht incoming sent laws stalls moves feeds
            (suc (length (reply_unsent x.conn) + stalls x.net)) table
            (before ++ hit_packet key value) rest x e much (omega arith) in
        (
          y,
          Runs-trans os ht incoming t u y r
              (Runs-trans os ht incoming u v y q (Runs-trans os ht incoming v x y s p)),
          subst
              (λ n.
                InSession os ht incoming sent conn_new_cmd parse_head n table
                  (before ++ hit_packet key value) rest y)
              same_fd f,
        )
