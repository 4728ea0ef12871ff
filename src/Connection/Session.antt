-- ===== src/Connection/Session.antt =====
-- server.cpp as a key-value store: the SETs and GETs that come on a connection outside of batches,
-- and what the store owes to them.
pub mod Heads
pub mod Replying
pub mod Single
pub mod Store
use multiport_network.Base.{
  ℕ, ◌+◌, ◌≤◌, ◌<◌, ◌≡◌, refl, sym, ap, ◌∙◌, false, Option, none, some, List, [], ◌∷◌, ◌++◌, length,
  arith,
}
use multiport_network.Interfaces.{HashTable, Os}
use multiport_network.Protocol.{
  Header, head_len, protocol_binary_req, cmd_set, swap16, swap32, store_header,
}
use multiport_network.Protocol.RoundTrip.{IsHeader}
use multiport_network.Connection.{Conn, ConnState, WorkState, init_ret_buf_size, pending}
use multiport_network.Connection.Process.{Turn}
use multiport_network.Connection.Buffered.{IsBuffered}
use multiport_network.Connection.Sound.Rounds.{SameWork}
use multiport_network.Connection.Service.Query.Replies.{hit_packet}
use multiport_network.Connection.Service.Store.Session.{IsGetHeader}
use multiport_network.Connection.Turns.Reading.{stream, Reached}

pub data Request : Type 0 where
  set : Header → (key value : List ℕ) → Request
  get : Header → (key : List ℕ) → Request

abbrev pub request_bytes : Request → List ℕ
request_bytes (set h key value) = store_header h ++ (key ++ value)
request_bytes (get h key) = store_header h ++ key

abbrev pub requests_bytes : List Request → List ℕ
requests_bytes [] = []
requests_bytes (r ∷ rs) = request_bytes r ++ requests_bytes rs

-- The header of a SET of a key and a value of these lengths.
pub record IsSetHeader (h : Header) (keylen valuelen : ℕ) : Type 0 where
  pub is_header : IsHeader h
  pub magic : h.magic ≡ protocol_binary_req
  pub op : h.opcode ≡ cmd_set
  pub key : swap16 h.keylen ≡ keylen
  pub body : swap32 h.totalbodylen ≡ keylen + valuelen

-- The reply to what was found.
abbrev pub reply_to : List ℕ → Option (List ℕ) → List ℕ
reply_to key none = []
reply_to key (some value) = hit_packet key value

-- A reply that fits the reply buffer.
abbrev pub Hits : List ℕ → Option (List ℕ) → Type 0
Hits key none = ⊥
Hits key (some value) = head_len + length key + length value ≤ init_ret_buf_size

module _ {Map : Type 0} (ht : HashTable Map) where
  -- The store: a SET changes the table, and a GET is answered from it.
  abbrev pub table_after : Map → List Request → Map
  table_after m [] = m
  table_after m (set h key value ∷ rs) = table_after (ht.insert_or_assign m key value) rs
  table_after m (get h key ∷ rs) = table_after m rs

  abbrev pub replies : Map → List Request → List ℕ
  replies m [] = []
  replies m (set h key value ∷ rs) = replies (ht.insert_or_assign m key value) rs
  replies m (get h key ∷ rs) = reply_to key (ht.find m key) ++ replies m rs

  -- Requests that the server takes: headers of the protocol, bodies that fit the receive buffer,
  -- and GETs of keys that are in the table by then.
  abbrev pub Takes : Map → List Request → Type 0
  Takes m [] = Unit {0}
  Takes m (set h key value ∷ rs) =
      IsSetHeader h (length key) (length value)
      × (0 < length key)
      × (8 ≤ length value)
      × (length key + length value ≤ 1000)
      × Takes (ht.insert_or_assign m key value) rs
  Takes m (get h key ∷ rs) =
      IsGetHeader h (length key)
      × (0 < length key)
      × (length key ≤ 1000)
      × Hits key (ht.find m key)
      × Takes m rs

module _ {Net Map : Type 0} (os : Os Net) (ht : HashTable Map)
    (incoming sent : Net → ℕ → List ℕ) where
  -- A connection outside a batch in these states, with an unused reply buffer, this input, these
  -- bytes sent and this table.
  pub record InSession (s : ConnState) (w : WorkState) (fd : ℕ) (table : Map) (wrote input : List ℕ)
      (t : Turn Net Map) : Type 0 where
    pub running : t.stop ≡ false
    pub state : t.conn.conn_state ≡ s
    pub work : t.conn.work_state ≡ w
    pub buffered : IsBuffered t.conn
    pub fd_is : t.conn.sfd ≡ fd
    pub single : t.conn.in_batch_get ≡ false
    pub start : t.conn.ret_buf_offset ≡ 0
    pub unused : t.conn.ret_bytes ≡ 0
    pub held : length t.conn.ret_buf ≡ t.conn.ret_buf_size
    pub room : t.conn.ret_buf_size ≡ init_ret_buf_size
    pub input_is : stream os ht incoming sent t ≡ input
    pub sent_is : sent t.net t.conn.sfd ≡ wrote
    pub table_is : t.table ≡ table

  -- Reads leave the session as it is.
  pub Reached-InSession :
      {s : ConnState} {w : WorkState} {fd : ℕ} {table : Map} {wrote input : List ℕ}
      (t u : Turn Net Map)
      → InSession s w fd table wrote input t
      → Reached os ht incoming sent t u
      → InSession u.conn.conn_state w fd table wrote input u
  Reached-InSession t u b r = record {
    running = r.running;
    state = refl;
    work = r.work.work ∙ b.work;
    buffered = r.buffered;
    fd_is = r.work.fd ∙ b.fd_is;
    single = r.work.batching ∙ b.single;
    start = r.work.ret_offset ∙ b.start;
    unused = r.work.ret_bytes ∙ b.unused;
    held = ap length r.work.ret_buf ∙ b.held ∙ sym r.work.ret_size;
    room = r.work.ret_size ∙ b.room;
    input_is = r.same_stream ∙ b.input_is;
    sent_is = r.same_sent ∙ b.sent_is;
    table_is = r.same_table ∙ b.table_is;
  }
