-- ===== src/Connection/Batched.antt =====
-- server.cpp: a connection in the midst of a batch, over its rounds and its calls.
pub mod Heads
pub mod Answers
pub mod Flush
pub mod Writing
pub mod Delivery
use mathlib.Core.Path.{subst}
use multiport_network.Base.{
  ℕ, ◌+◌, ◌≤◌, ◌<◌, ◌≡◌, refl, sym, ap, ◌∙◌, true, false, List, ◌++◌, length, length-append, arith,
}
use multiport_network.Interfaces.{Os, HashTable}
use multiport_network.Connection.{
  Conn, conn_deal_with, read_key_value, query_key, write_bcak, pending,
}
use multiport_network.Protocol.{cmd_get}
use multiport_network.Connection.Process.{Turn}
use multiport_network.Connection.Buffered.{IsBuffered}
use multiport_network.Connection.Sound.Rounds.{SameWork}
use multiport_network.Connection.Outbox.{AllFilled, unsent}
use multiport_network.Connection.Outbox.Queue.{Queued, Loaded}
use multiport_network.Connection.Turns.{done}
use multiport_network.Connection.Turns.Reading.{stream, Reached}

-- What stays through a batch: the descriptor, the announced number of requests, what was sent on
-- the connection before, and the table.
pub record Frame (Map : Type 0) : Type 0 where
  pub fd : ℕ
  pub num : ℕ
  pub wrote : List ℕ
  pub table : Map

module _ {Net Map : Type 0} (os : Os Net) (ht : HashTable Map)
    (incoming sent : Net → ℕ → List ℕ) where
  -- Within a batch, with this many requests answered, these replies gathered and this input.
  pub record InBatch (f : Frame Map) (count : ℕ) (replies input : List ℕ) (t : Turn Net Map)
      : Type 0 where
    pub running : t.stop ≡ false
    pub dealing : t.conn.conn_state ≡ conn_deal_with
    pub buffered : IsBuffered t.conn
    pub fd_is : t.conn.sfd ≡ f.fd
    pub batching : t.conn.in_batch_get ≡ true
    pub count_is : t.conn.batch_count ≡ count
    pub num_is : t.conn.batch_num ≡ f.num
    pub filled : AllFilled t.conn.batch_ret_vector
    pub queued : Queued t.conn.batch_ret_vector
    pub replies_are : unsent t.conn.batch_ret_vector ≡ replies
    pub input_is : stream os ht incoming sent t ≡ input
    pub sent_is : sent t.net t.conn.sfd ≡ f.wrote
    pub table_is : t.table ≡ f.table

  pub here :
      {f : Frame Map} {count : ℕ} {replies input : List ℕ} (t : Turn Net Map)
      → InBatch f count replies input t
      → Reached os ht incoming sent t t
  here t b = record {
    runs = done t;
    running = b.running;
    dealing = b.dealing;
    work = ground arith;
    buffered = b.buffered;
    same_stream = refl;
    same_sent = refl;
    same_table = refl;
  }

  -- Reads leave the batch as it is.
  pub Reached-InBatch :
      {f : Frame Map} {count : ℕ} {replies input : List ℕ} (t u : Turn Net Map)
      → InBatch f count replies input t
      → Reached os ht incoming sent t u
      → InBatch f count replies input u
  Reached-InBatch t u b r = record {
    running = r.running;
    dealing = r.dealing;
    buffered = r.buffered;
    fd_is = r.work.fd ∙ b.fd_is;
    batching = r.work.batching ∙ b.batching;
    count_is = r.work.count ∙ b.count_is;
    num_is = r.work.num ∙ b.num_is;
    filled = subst AllFilled (sym r.work.bufs) b.filled;
    queued = subst Queued (sym r.work.bufs) b.queued;
    replies_are = ap unsent r.work.bufs ∙ b.replies_are;
    input_is = r.same_stream ∙ b.input_is;
    sent_is = r.same_sent ∙ b.sent_is;
    table_is = r.same_table ∙ b.table_is;
  }

  -- The connection expects the key of a GET.
  pub record AtKey (f : Frame Map) (count : ℕ) (replies : List ℕ) (keylen : ℕ) (body : List ℕ)
      (u : Turn Net Map) : Type 0 where
    pub batch : InBatch f count replies body u
    pub work : u.conn.work_state ≡ read_key_value
    pub cmd : u.conn.cmd ≡ cmd_get
    pub keylen_is : u.conn.binary_header.keylen ≡ keylen

  -- The key is taken, and the table is due.
  pub record AtQuery (f : Frame Map) (count : ℕ) (replies key rest : List ℕ) (u : Turn Net Map)
      : Type 0 where
    pub batch : InBatch f count replies rest u
    pub work : u.conn.work_state ≡ query_key
    pub key_is : u.conn.key ≡ key

  -- The reply is gathered, and the writing is due.
  pub record IsAnswered (f : Frame Map) (count : ℕ) (replies rest : List ℕ) (u : Turn Net Map)
      : Type 0 where
    pub batch : InBatch f count replies rest u
    pub work : u.conn.work_state ≡ write_bcak
    pub loaded : Loaded u.conn.batch_ret_vector
