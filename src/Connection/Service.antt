-- ===== src/Connection/Service.antt =====
-- What a whole request does: the rounds of `process_func` that it takes, its effect on the table,
-- and the bytes that are handed to `write`.
pub mod Answers
pub mod Store
pub mod Query
use multiport_network.Base.{
  ℕ, suc, ◌+◌, ◌≡◌, refl, ap, ◌∙◌, Bool, true, false, ◌⊎◌, List, length, ◌++◌, arith,
}
use multiport_network.Interfaces.{Os, HashTable}
use multiport_network.Protocol.{Header, protocol_binary_req, swap16, swap32, store_header}
use multiport_network.Protocol.RoundTrip.{IsHeader}
use multiport_network.Connection.{
  Conn, ConnState, conn_deal_with, WorkState, parse_head, ok, ◌>>=◌, pending,
}
use multiport_network.Connection.Process.{Turn, deal_with, process_loop, process_loop_running}
use multiport_network.Connection.Buffered.{IsBuffered}
use multiport_network.Connection.Turns.{round_deal}

-- A connection at the head of a request, with the request and what follows it unread.
pub record AtRequest (c : Conn) (opcode : ℕ) (body_len : ℕ) (h : Header) (body : List ℕ)
    : Type 0 where
  pub buffered : IsBuffered c
  pub dealing : c.conn_state ≡ conn_deal_with
  pub parsing : c.work_state ≡ parse_head
  pub is_header : IsHeader h
  pub magic : h.magic ≡ protocol_binary_req
  pub op : h.opcode ≡ opcode
  pub bodylen : swap32 h.totalbodylen ≡ body_len
  pub input : pending c ≡ store_header h ++ body
  pub in_turn : (c.in_batch_get ≡ false) ⊎ (c.batch_count ≡ swap16 h.batchnum)

module _ {Net Map : Type 0} (os : Os Net) (ht : HashTable Map) where
  -- One round of the inner switch.
  pub process_loop_deal :
      (n : ℕ) (w : WorkState) (t : Turn Net Map) (r : Conn × Net × Map)
      → t.stop ≡ false
      → t.conn.conn_state ≡ conn_deal_with
      → t.conn.work_state ≡ w
      → deal_with os ht w t.conn t.net t.table ≡ ok r
      → process_loop os ht (suc n) t
        ≡ process_loop os ht n (record t { conn = r.0; net = r.1; table = r.2 })
  process_loop_deal n w t r running cs ws e =
      process_loop_running os ht n t running
      ∙ ap (λ x. x >>= λ u. process_loop os ht n u)
          (round_deal os ht t.conn.conn_state w t r cs ws e)
