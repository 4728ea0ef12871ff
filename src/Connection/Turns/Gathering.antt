-- ===== src/Connection/Turns/Gathering.antt =====
-- server.cpp: a connection whose next header or key has not come whole reads until it has.
use multiport_network.Base.{
  ℕ, suc, zero, ◌≤◌, ◌<◌, ◌≡◌, refl, sym, ap, ◌∙◌, inl, inr, List, [], ◌∷◌, ◌++◌, length,
  length-append, arith, drop, get_or, get_or-take, leb, Bool-cases,
}
use mathlib.Core.Path.{subst}
use multiport_network.Base.Buffers.{length-slice, byte_at}
use multiport_network.Interfaces.{Os, OsLaws, HashTable, Feeds}
use multiport_network.Protocol.{Header, protocol_binary_req, cmd_get, cmd_set, store_header}
use multiport_network.Connection.{
  Conn, conn_waiting, WorkState, parse_head, read_key_value, ok, ◌>>=◌, pending,
}
use multiport_network.Connection.Parse.{try_read_head_binary, try_read_key_value}
use multiport_network.Connection.Process.{Turn, deal_with, deal_head, after_head, after_key_value}
use multiport_network.Connection.Buffered.{IsBuffered}
use multiport_network.Connection.Sound.Rounds.{SameWork}
use multiport_network.Connection.Turns.{Runs-trans, Runs-deal}
use multiport_network.Connection.Turns.Reading.{Awaits, stream, Reached, Reached-from, read_more}

pub length-pending : (c : Conn) → IsBuffered c → length (pending c) ≡ c.remaining_bytes
length-pending c v = length-slice c.read_buf c.working_buf c.remaining_bytes (omega arith)

SameWork-trans : (c d e : Conn) → SameWork c d → SameWork d e → SameWork c e
SameWork-trans c d e v w = ground arith

-- The first byte of a request is in the buffer as soon as there is one.
front-eq :
    (xs ys zs : List ℕ) (h : Header)
    → xs ++ ys ≡ store_header h ++ zs
    → 0 < length xs
    → get_or xs 0 0 ≡ h.magic
unfolding store_header
front-eq [] ys zs h e some_in = absurd (omega arith)
front-eq (x ∷ xs) ys zs h e some_in = ground arith

first_of :
    (c : Conn) (ys zs : List ℕ) (h : Header)
    → IsBuffered c
    → pending c ++ ys ≡ store_header h ++ zs
    → 0 < c.remaining_bytes
    → byte_at (drop c.working_buf c.read_buf) 0 ≡ h.magic
first_of c ys zs h v e some_in =
    sym (get_or-take c.remaining_bytes 0 (drop c.working_buf c.read_buf) 0 some_in)
    ∙ front-eq (pending c) ys zs h e (omega (arith, length-pending c v))

-- A part of a header waits for the rest.
deal_head_short :
    (c : Conn) (ys zs : List ℕ) (h : Header)
    → IsBuffered c
    → pending c ++ ys ≡ store_header h ++ zs
    → h.magic ≡ protocol_binary_req
    → c.remaining_bytes < 12
    → deal_head c ≡ ok (record c { conn_state = conn_waiting })
unfolding deal_head after_head try_read_head_binary
deal_head_short c ys zs h v e magic short = ground (arith, first_of c ys zs h v e)

-- So does a part of the key of a GET.
read_get_short :
    (c : Conn)
    → c.cmd ≡ cmd_get
    → c.remaining_bytes < c.binary_header.keylen
    → after_key_value (try_read_key_value c) ≡ record c { conn_state = conn_waiting }
unfolding after_key_value try_read_key_value
read_get_short c get short = ground arith

-- And a part of the body of a SET.
read_set_short :
    (c : Conn)
    → c.cmd ≡ cmd_set
    → c.remaining_bytes < c.binary_header.totalbodylen
    → after_key_value (try_read_key_value c) ≡ record c { conn_state = conn_waiting }
unfolding after_key_value try_read_key_value
read_set_short c put short = ground arith

module _ {Net Map : Type 0} (os : Os Net) (ht : HashTable Map)
    (incoming sent : Net → ℕ → List ℕ) where
  -- What the receive buffer cannot hold is still to be read.
  pub more_comes :
      (t : Turn Net Map)
      → IsBuffered t.conn
      → 1000 < length (stream os ht incoming sent t)
      → 0 < length (incoming t.net t.conn.sfd)
  more_comes t v much_in =
      let size = v.size in
      omega (
        arith,
        length-append (pending t.conn) (incoming t.net t.conn.sfd),
        length-pending t.conn v,
        v.fits,
      )

  pub Reached-trans :
      (t u v : Turn Net Map)
      → Reached os ht incoming sent t u
      → Reached os ht incoming sent u v
      → Reached os ht incoming sent t v
  Reached-trans t u v p q = record {
    runs = Runs-trans os ht incoming t u v p.runs q.runs;
    running = q.running;
    dealing = q.dealing;
    work = SameWork-trans t.conn u.conn v.conn p.work q.work;
    buffered = q.buffered;
    same_stream = q.same_stream ∙ p.same_stream;
    same_sent = q.same_sent ∙ p.same_sent;
    same_table = q.same_table ∙ p.same_table;
  }

  -- In the turns behind `t`, fewer than `need` bytes are not enough.
  abbrev Starves : Turn Net Map → ℕ → Type 0
  Starves t need =
      (u : Turn Net Map)
      → Reached os ht incoming sent t u
      → u.conn.remaining_bytes < need
      → deal_with os ht u.conn.work_state u.conn u.net u.table
        ≡ ok (record u.conn { conn_state = conn_waiting }, u.net, u.table)

  head_waits :
      (w : WorkState) (u : Turn Net Map)
      → w ≡ parse_head
      → deal_head u.conn ≡ ok (record u.conn { conn_state = conn_waiting })
      → deal_with os ht w u.conn u.net u.table
        ≡ ok (record u.conn { conn_state = conn_waiting }, u.net, u.table)
  unfolding deal_with
  head_waits parse_head u e d = ap (λ x. x >>= λ c'. ok (c', u.net, u.table)) d
  head_waits _ u e d = cc e

  body_waits :
      (w : WorkState) (u : Turn Net Map)
      → w ≡ read_key_value
      → after_key_value (try_read_key_value u.conn) ≡ record u.conn { conn_state = conn_waiting }
      → deal_with os ht w u.conn u.net u.table
        ≡ ok (record u.conn { conn_state = conn_waiting }, u.net, u.table)
  unfolding deal_with
  body_waits read_key_value u e d = ap (λ c'. ok (c', u.net, u.table)) d
  body_waits _ u e d = cc e

  pub starve_head :
      (t : Turn Net Map) (h : Header) (rest : List ℕ)
      → t.conn.work_state ≡ parse_head
      → stream os ht incoming sent t ≡ store_header h ++ rest
      → h.magic ≡ protocol_binary_req
      → Starves t 12
  starve_head t h rest w e magic u r short = head_waits u.conn.work_state u (r.work.work ∙ w) (
      deal_head_short u.conn (incoming u.net u.conn.sfd) rest h r.buffered (r.same_stream ∙ e) magic
        short)

  pub starve_body :
      (t : Turn Net Map)
      → t.conn.work_state ≡ read_key_value
      → t.conn.cmd ≡ cmd_get
      → Starves t t.conn.binary_header.keylen
  starve_body t w get u r short = body_waits u.conn.work_state u (r.work.work ∙ w) (
      read_get_short u.conn (r.work.command ∙ get)
        (omega (arith, ap (λ (h : Header). h.keylen) r.work.header)))

  pub starve_set :
      (t : Turn Net Map)
      → t.conn.work_state ≡ read_key_value
      → t.conn.cmd ≡ cmd_set
      → Starves t t.conn.binary_header.totalbodylen
  starve_set t w put u r short = body_waits u.conn.work_state u (r.work.work ∙ w) (
      read_set_short u.conn (r.work.command ∙ put)
        (omega (arith, ap (λ (h : Header). h.totalbodylen) r.work.header)))

module _ {Net Map : Type 0} (os : Os Net) (ht : HashTable Map) (incoming sent : Net → ℕ → List ℕ)
    (laws : OsLaws os) (feeds : Feeds os incoming sent) where
  after_waiting :
      (t u : Turn Net Map)
      → Reached os ht incoming sent t u
      → Awaits t.conn.work_state
      → u.conn.remaining_bytes < u.conn.read_buf_size
      → 0 < length (incoming u.net u.conn.sfd)
      → deal_with os ht u.conn.work_state u.conn u.net u.table
        ≡ ok (record u.conn { conn_state = conn_waiting }, u.net, u.table)
      → (v : Turn Net Map) × Reached os ht incoming sent t v
        × (length (incoming v.net v.conn.sfd) < length (incoming u.net u.conn.sfd))
  after_waiting t u r awaits room some_in waits =
      let v = r.buffered in
      let s = record u { conn = record u.conn { conn_state = conn_waiting } } in
      let (x, q, fewer) =
        read_more os ht incoming sent laws feeds s r.running refl
          (subst Awaits (sym r.work.work) awaits)
          (record { size = v.size; held = v.held; fits = v.fits }) room some_in in
      (
        x,
        Reached-trans os ht incoming sent t u x r (
            Reached-from os ht incoming sent u x conn_waiting u.inst_count u.stop
              (Runs-deal os ht incoming u.conn.work_state u
                (record u.conn { conn_state = conn_waiting }, u.net, u.table) x r.running r.dealing
                refl waits q.runs)
              q),
        fewer,
      )

  -- Reads until `need` bytes are there.
  pub gather :
      (n : ℕ) (t u : Turn Net Map) (need : ℕ)
      → Reached os ht incoming sent t u
      → Awaits t.conn.work_state
      → need ≤ 1000
      → need ≤ length (stream os ht incoming sent t)
      → Starves os ht incoming sent t need
      → length (incoming u.net u.conn.sfd) ≤ n
      → (v : Turn Net Map) × Reached os ht incoming sent t v × (need ≤ v.conn.remaining_bytes)
  gather zero t u need r awaits small enough starves bound = (
    u,
    r,
    omega (
      arith,
      ap length r.same_stream,
      length-append (pending u.conn) (incoming u.net u.conn.sfd),
      length-pending u.conn r.buffered,
    ),
  )
  gather (suc n) t u need r awaits small enough starves bound =
      elim (Bool-cases (leb need u.conn.remaining_bytes)) [
        | inl e ↦ (u, r, ground arith)
        | inr e ↦
            let short : u.conn.remaining_bytes < need = ground arith in
            let size = r.buffered.size in
            let some_in : 0 < length (incoming u.net u.conn.sfd) = omega (
              arith,
              ap length r.same_stream,
              length-append (pending u.conn) (incoming u.net u.conn.sfd),
              length-pending u.conn r.buffered,
            ) in
            let (v, q, fewer) =
              after_waiting t u r awaits (omega arith) some_in (starves u r short) in
            gather n t v need q awaits small enough starves (omega arith)
      ]
