-- ===== src/Connection/Session/Heads.antt =====
-- server.cpp: the header and the body of a request outside a batch, however they arrive.
use mathlib.Core.Path.{subst, ap₂}
use multiport_network.Base.{
  ℕ, ◌+◌, ◌≤◌, ◌≡◌, refl, sym, ap, ◌∙◌, inl, inr, List, ◌++◌, length, length-append, arith,
  append_assoc,
}
use multiport_network.Interfaces.{Os, OsLaws, HashTable, Feeds}
use multiport_network.Protocol.{
  Header, protocol_binary_req, cmd_get, cmd_set, swap16, swap32, store_header,
}
use multiport_network.Protocol.RoundTrip.{IsHeader, length-store_header}
use multiport_network.Connection.{
  conn_deal_with, WorkState, parse_head, read_key_value, store_kvobj, query_key, ok, ◌>>=◌, pending,
}
use multiport_network.Connection.Process.{Turn, deal_with, after_key_value}
use multiport_network.Connection.Parse.{skip_body}
use multiport_network.Connection.Buffered.{pending-skip_body, skip_body-IsBuffered}
use multiport_network.Connection.Sound.{Command}
use multiport_network.Connection.Requests.{
  fetched, fetched-IsFetched, deal_head-fetched, read_get_body, read_set_body,
}
use multiport_network.Connection.Turns.{Runs, done, Runs-trans, Runs-deal}
use multiport_network.Connection.Turns.Reading.{Reached}
use multiport_network.Connection.Turns.Gathering.{
  gather, starve_head, starve_body, starve_set, length-pending,
}
use multiport_network.Connection.Batched.Heads.{front_come}
use multiport_network.Connection.Session.{InSession, Reached-InSession}

module _ {Net Map : Type 0} (os : Os Net) (ht : HashTable Map) (incoming sent : Net → ℕ → List ℕ)
    (laws : OsLaws os) (feeds : Feeds os incoming sent) (fd : ℕ) (table : Map)
    (wrote : List ℕ) where
  here :
      {w : WorkState} {input : List ℕ} (t : Turn Net Map)
      → InSession os ht incoming sent conn_deal_with w fd table wrote input t
      → Reached os ht incoming sent t t
  here t b = record {
    runs = done t;
    running = b.running;
    dealing = b.state;
    work = ground arith;
    buffered = b.buffered;
    same_stream = refl;
    same_sent = refl;
    same_table = refl;
  }

  -- The body of a request is due.
  pub record AtBody (cmd keylen bodylen : ℕ) (input : List ℕ) (t : Turn Net Map) : Type 0 where
    pub session : InSession os ht incoming sent conn_deal_with read_key_value fd table wrote input t
    pub cmd_is : t.conn.cmd ≡ cmd
    pub keylen_is : t.conn.binary_header.keylen ≡ keylen
    pub bodylen_is : t.conn.binary_header.totalbodylen ≡ bodylen

  pub head_read :
      (t : Turn Net Map) (h : Header) (body : List ℕ)
      → InSession os ht incoming sent conn_deal_with parse_head fd table wrote
          (store_header h ++ body)
          t
      → IsHeader h
      → h.magic ≡ protocol_binary_req
      → Command read_key_value h.opcode (swap16 h.keylen) (swap32 h.totalbodylen)
      → (u : Turn Net Map) × Runs os ht incoming t u
        × AtBody h.opcode (swap16 h.keylen) (swap32 h.totalbodylen) body u
  unfolding deal_with
  head_read t h body b is_header magic accepted =
      let (u, r, enough) =
        gather os ht incoming sent laws feeds (length (incoming t.net t.conn.sfd)) t t 12 (here t b)
          (inl b.work) (omega arith)
          (omega (
            arith,
            ap length b.input_is,
            length-append (store_header h) body,
            length-store_header h,
          ))
          (starve_head os ht incoming sent t h body b.work b.input_is magic) (omega arith) in
      let d = Reached-InSession os ht incoming sent t u b r in
      let (rest, come, left) =
        front_come (pending u.conn) (store_header h) (incoming u.net u.conn.sfd) body d.input_is
          (omega (arith, length-pending u.conn d.buffered, length-store_header h)) in
      let k = fetched-IsFetched u.conn h rest d.buffered is_header come in
      let v = record u { conn = fetched u.conn h } in
      (
        v,
        Runs-trans os ht incoming t u v r.runs (
            Runs-deal os ht incoming parse_head u (fetched u.conn h, u.net, u.table) v r.running
              r.dealing d.work
              (ap (λ x. x >>= λ c'. ok (c', u.net, u.table))
                (deal_head-fetched u.conn d.buffered h is_header rest come magic accepted
                  (inl d.single)))
              (done v)),
        record {
          session = record {
            running = d.running;
            state = k.dealing ∙ r.dealing;
            work = k.reading;
            buffered = k.buffered;
            fd_is = k.sfd ∙ d.fd_is;
            single = k.in_batch ∙ d.single;
            start = k.ret_offset ∙ d.start;
            unused = k.ret_bytes ∙ d.unused;
            held = ap length k.ret_buf ∙ d.held ∙ sym k.ret_size;
            room = k.ret_size ∙ d.room;
            input_is = ap₂ (λ xs fd. xs ++ incoming u.net fd) k.input k.sfd ∙ left;
            sent_is = ap (sent u.net) k.sfd ∙ d.sent_is;
            table_is = d.table_is;
          };
          cmd_is = k.cmd;
          keylen_is = k.keylen;
          bodylen_is = k.bodylen;
        },
      )

  -- These bytes are taken from the front of the input.
  taken :
      (t : Turn Net Map) (w : WorkState) (xs key value more rest : List ℕ)
      → InSession os ht incoming sent t.conn.conn_state read_key_value fd table wrote (xs ++ rest) t
      → t.conn.conn_state ≡ conn_deal_with
      → pending t.conn ≡ xs ++ more
      → more ++ incoming t.net t.conn.sfd ≡ rest
      → length xs ≤ t.conn.remaining_bytes
      → InSession os ht incoming sent conn_deal_with w fd table wrote rest (record t {
        conn = record (skip_body t.conn (length xs)) { key = key; value = value; work_state = w };
      })
  unfolding skip_body
  taken t w xs key value more rest d dealing come left enough =
      let s = skip_body-IsBuffered t.conn (length xs) d.buffered enough in
      record {
        running = d.running;
        state = dealing;
        work = refl;
        buffered = record { size = s.size; held = s.held; fits = s.fits };
        fd_is = d.fd_is;
        single = d.single;
        start = d.start;
        unused = d.unused;
        held = d.held;
        room = d.room;
        input_is =
            ap (λ ys. ys ++ incoming t.net t.conn.sfd)
              (pending-skip_body t.conn xs more (length xs) d.buffered come refl)
            ∙ left;
        sent_is = d.sent_is;
        table_is = d.table_is;
      }

  -- A GET has its key.
  pub get_read :
      (t : Turn Net Map) (key rest : List ℕ) (bodylen : ℕ)
      → AtBody cmd_get (length key) bodylen (key ++ rest) t
      → length key ≤ 1000
      → (u : Turn Net Map) × Runs os ht incoming t u
        × InSession os ht incoming sent conn_deal_with query_key fd table wrote rest u
        × (u.conn.key ≡ key)
  unfolding deal_with after_key_value skip_body
  get_read t key rest bodylen a short =
      let b = a.session in
      let (u, r, enough) =
        gather os ht incoming sent laws feeds (length (incoming t.net t.conn.sfd)) t t
          t.conn.binary_header.keylen (here t b) (inr b.work) (omega (arith, a.keylen_is))
          (omega (arith, ap length b.input_is, length-append key rest, a.keylen_is))
          (starve_body os ht incoming sent t b.work a.cmd_is) (omega arith) in
      let d = Reached-InSession os ht incoming sent t u b r in
      let (more, come, left) =
        front_come (pending u.conn) key (incoming u.net u.conn.sfd) rest d.input_is
          (omega (arith, length-pending u.conn d.buffered, a.keylen_is)) in
      let c = record (skip_body u.conn (length key)) { key = key; work_state = query_key } in
      let v = record u { conn = c } in
      (
        v,
        Runs-trans os ht incoming t u v r.runs (
            Runs-deal os ht incoming read_key_value u (c, u.net, u.table) v r.running r.dealing
              d.work
              (ap (λ x. ok (after_key_value x, u.net, u.table))
                (read_get_body u.conn d.buffered key more
                  (ap (λ (h : Header). h.keylen) r.work.header ∙ a.keylen_is) come
                  (r.work.command ∙ a.cmd_is)))
              (done v)),
        taken u query_key key key u.conn.value more rest d r.dealing come left
            (omega (arith, a.keylen_is)),
        refl,
      )

  -- A SET has its key and its value.
  pub set_read :
      (t : Turn Net Map) (key value rest : List ℕ)
      → AtBody cmd_set (length key) (length key + length value) ((key ++ value) ++ rest) t
      → length key + length value ≤ 1000
      → (u : Turn Net Map) × Runs os ht incoming t u
        × InSession os ht incoming sent conn_deal_with store_kvobj fd table wrote rest u
        × (u.conn.key ≡ key)
        × (u.conn.value ≡ value)
  unfolding deal_with after_key_value skip_body
  set_read t key value rest a short =
      let b = a.session in
      let size = length-append key value in
      let (u, r, enough) =
        gather os ht incoming sent laws feeds (length (incoming t.net t.conn.sfd)) t t
          t.conn.binary_header.totalbodylen (here t b) (inr b.work) (omega (arith, a.bodylen_is))
          (omega
            (arith, ap length b.input_is, length-append (key ++ value) rest, size, a.bodylen_is))
          (starve_set os ht incoming sent t b.work a.cmd_is) (omega arith) in
      let d = Reached-InSession os ht incoming sent t u b r in
      let (more, come, left) =
        front_come (pending u.conn) (key ++ value) (incoming u.net u.conn.sfd) rest d.input_is
          (omega (arith, length-pending u.conn d.buffered, size, a.bodylen_is)) in
      let c = record (skip_body u.conn (length key + length value)) {
        key = key;
        value = value;
        work_state = store_kvobj;
      } in
      let v = record u { conn = c } in
      (
        v,
        Runs-trans os ht incoming t u v r.runs (
            Runs-deal os ht incoming read_key_value u (c, u.net, u.table) v r.running r.dealing
              d.work
              (ap (λ x. ok (after_key_value x, u.net, u.table))
                (read_set_body u.conn d.buffered key more
                  (ap (λ (h : Header). h.keylen) r.work.header ∙ a.keylen_is) value
                  (come ∙ append_assoc key value more)
                  (ap (λ (h : Header). h.totalbodylen) r.work.header ∙ a.bodylen_is)
                  (r.work.command ∙ a.cmd_is)))
              (done v)),
        subst
            (λ n.
              InSession os ht incoming sent conn_deal_with store_kvobj fd table wrote rest
                (record u {
                  conn = record (skip_body u.conn n) {
                    key = key;
                    value = value;
                    work_state = store_kvobj;
                  };
                }))
            size
            (taken u store_kvobj (key ++ value) key value more rest d r.dealing come left
              (omega (arith, a.bodylen_is, size))),
        refl,
        refl,
      )
