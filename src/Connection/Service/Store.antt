-- ===== src/Connection/Service/Store.antt =====
-- server.cpp: a SET that lies whole in the receive buffer.
pub mod Session
use multiport_network.Base.{
  ℕ, suc, ◌+◌, ◌≤◌, ◌<◌, ◌≡◌, refl, sym, ap, ◌∙◌, false, inl, List, length, ◌++◌, arith,
  length-append, append_assoc,
}
use multiport_network.Interfaces.{Os, HashTable}
use multiport_network.Protocol.{Header, swap16, cmd_set}
use multiport_network.Connection.{
  Conn, conn_new_cmd, parse_head, read_key_value, store_kvobj, ok, ◌>>=◌, pending,
}
use multiport_network.Connection.Parse.{skip_body}
use multiport_network.Connection.Process.{Turn, deal_with, after_key_value, stored, process_loop}
use multiport_network.Connection.Buffered.{pending-skip_body}
use multiport_network.Connection.Requests.{
  fetched, IsFetched, fetched-IsFetched, deal_head-fetched, read_set_body,
}
use multiport_network.Connection.Service.{AtRequest, process_loop_deal}

-- The connection once key and value are read.
abbrev key_value_read : Conn → List ℕ → List ℕ → Conn
key_value_read c key value = record (skip_body c (length key + length value)) {
  key = key;
  value = value;
  work_state = store_kvobj;
}

module _ {Net Map : Type 0} (os : Os Net) (ht : HashTable Map) (t : Turn Net Map) (h : Header)
    (key value rest : List ℕ) (running : t.stop ≡ false)
    (at : AtRequest t.conn cmd_set (length key + length value) h (key ++ (value ++ rest)))
    (keylen : swap16 h.keylen ≡ length key) (some_key : 0 < length key)
    (some_value : 8 ≤ length value) where
  head : IsFetched t.conn (fetched t.conn h) h (key ++ (value ++ rest))
  head = fetched-IsFetched t.conn h (key ++ (value ++ rest)) at.buffered at.is_header at.input

  abbrev done : Conn
  done = stored (key_value_read (fetched t.conn h) key value)

  -- Three rounds take the request from the input and put the pair into the table.
  set_rounds :
      (n : ℕ)
      → process_loop os ht (suc (suc (suc n))) t
        ≡ process_loop os ht n
            (record t { conn = done; table = ht.insert_or_assign t.table key value })
  unfolding deal_with after_key_value skip_body
  set_rounds n =
      process_loop_deal os ht (suc (suc n)) parse_head t (fetched t.conn h, t.net, t.table) running
        at.dealing at.parsing
        (ap (λ x. x >>= λ c'. ok (c', t.net, t.table))
          (deal_head-fetched t.conn at.buffered h at.is_header (key ++ (value ++ rest)) at.input
            at.magic (inl (at.op, omega arith, omega arith)) at.in_turn))
      ∙ process_loop_deal os ht (suc n) read_key_value (record t { conn = fetched t.conn h })
          (key_value_read (fetched t.conn h) key value, t.net, t.table) running
          (head.dealing ∙ at.dealing) head.reading
          (ap (λ x. ok (after_key_value x, t.net, t.table))
            (read_set_body (fetched t.conn h) head.buffered key rest (head.keylen ∙ keylen) value
              head.input (head.bodylen ∙ at.bodylen) (head.cmd ∙ at.op)))
      ∙ process_loop_deal os ht n store_kvobj
          (record t { conn = key_value_read (fetched t.conn h) key value })
          (done, t.net, ht.insert_or_assign t.table key value) running (head.dealing ∙ at.dealing)
          refl refl

  rest_pending : pending done ≡ rest
  unfolding stored
  rest_pending =
      pending-skip_body (fetched t.conn h) (key ++ value) rest (length key + length value)
        head.buffered (head.input ∙ sym (append_assoc key value rest))
        (sym (length-append key value))

  -- A SET that lies whole in the input, with a key that is not empty and a value of at least 8
  -- bytes, takes three rounds of the loop (within a batch, where it carries the number that is
  -- due): then the table has the pair inserted, nothing was written, the rest of the input is
  -- unread, and the next command is due.
  pub set_stores :
      (t' : Turn Net Map) × ((n : ℕ)
        → process_loop os ht (suc (suc (suc n))) t ≡ process_loop os ht n t')
      × (t'.table ≡ ht.insert_or_assign t.table key value)
      × (t'.net ≡ t.net)
      × (pending t'.conn ≡ rest)
      × (t'.conn.conn_state ≡ conn_new_cmd)
      × (t'.conn.work_state ≡ parse_head)
  unfolding stored
  set_stores = (
    record t { conn = done; table = ht.insert_or_assign t.table key value },
    set_rounds,
    refl,
    refl,
    rest_pending,
    refl,
    refl,
  )
