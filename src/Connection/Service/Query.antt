-- ===== src/Connection/Service/Query.antt =====
-- server.cpp: a GET outside a batch that lies whole in the receive buffer, round by round.
pub mod Replies
use multiport_network.Base.{
  ℕ, suc, ◌+◌, ◌-◌, ◌*◌, ◌≤◌, ◌<◌, ◌≡◌, refl, sym, ap, ◌∙◌, Bool, true, false, Option, none, some,
  inl, inr, List, length, ◌++◌, arith, length-append, append_assoc, take, drop, take_split,
  take_all,
}
use multiport_network.Base.Buffers.{slice, patch, length-slice, slice-patch, take-patch}
use multiport_network.Interfaces.{Os, HashTable}
use multiport_network.Protocol.{Header, head_len, swap16, swap32, store_header, cmd_get}
use multiport_network.Connection.{
  Conn, conn_deal_with, conn_new_cmd, parse_head, read_key_value, query_key, write_bcak, ok, ◌>>=◌,
  pending,
}
use multiport_network.Connection.Parse.{skip_body, try_read_key_value, got_key_value}
use multiport_network.Connection.Reply.{
  con_ret_buf, packet, packet_len, answer, resp_head, count_miss, notfound_ans,
}
use multiport_network.Connection.Process.{
  Turn, deal_head, deal_with, after_key_value, found, wrote, write_back, process_loop,
}
use multiport_network.Connection.Buffered.{IsBuffered, pending-skip_body}
use multiport_network.Connection.Requests.{
  fetched, IsFetched, fetched-IsFetched, deal_head-fetched, read_get_body,
}
use multiport_network.Connection.Service.{AtRequest, process_loop_deal}
use multiport_network.Connection.Service.Answers.{reply_header, single_answer, con_ret_buf_single}

-- The connection once the key is read, and once the table has answered.
abbrev key_read : Conn → List ℕ → Conn
key_read c key = record (skip_body c (length key)) { key = key; work_state = query_key }

-- The connection is at a GET for `key`, and its single reply buffer is unused.
pub record AtGet (c : Conn) (h : Header) (key rest : List ℕ) : Type 0 where
  pub request : AtRequest c cmd_get (length key) h (key ++ rest)
  pub keylen : swap16 h.keylen ≡ length key
  pub some_key : 0 < length key
  pub single : c.in_batch_get ≡ false
  pub start : c.ret_buf_offset ≡ 0
  pub unused : c.ret_bytes ≡ 0
  pub ret_held : length c.ret_buf ≡ c.ret_buf_size

module _ {Net Map : Type 0} (os : Os Net) (ht : HashTable Map) (t : Turn Net Map) (h : Header)
    (key rest : List ℕ) (running : t.stop ≡ false) (at : AtGet t.conn h key rest) where
  head : IsFetched t.conn (fetched t.conn h) h (key ++ rest)
  head =
      fetched-IsFetched t.conn h (key ++ rest) at.request.buffered at.request.is_header
        at.request.input

  key_read_dealing : (key_read (fetched t.conn h) key).conn_state ≡ conn_deal_with
  unfolding skip_body
  key_read_dealing = head.dealing ∙ at.request.dealing

  -- Two rounds take the request from the input.
  key_rounds :
      (n : ℕ)
      → process_loop os ht (suc (suc n)) t
        ≡ process_loop os ht n (record t { conn = key_read (fetched t.conn h) key })
  unfolding deal_with after_key_value
  key_rounds n =
      process_loop_deal os ht (suc n) parse_head t (fetched t.conn h, t.net, t.table) running
        at.request.dealing at.request.parsing
        (ap (λ x. x >>= λ c'. ok (c', t.net, t.table))
          (deal_head-fetched t.conn at.request.buffered h at.request.is_header (key ++ rest)
            at.request.input at.request.magic
            (inr (
              at.request.op,
              omega (arith, at.keylen, at.some_key),
              omega (arith, at.keylen, at.request.bodylen),
            ))
            at.request.in_turn))
      ∙ process_loop_deal os ht n read_key_value (record t { conn = fetched t.conn h })
          (key_read (fetched t.conn h) key, t.net, t.table) running
          (head.dealing ∙ at.request.dealing) head.reading
          (ap (λ x. ok (after_key_value x, t.net, t.table))
            (read_get_body (fetched t.conn h) head.buffered key rest (head.keylen ∙ at.keylen)
              head.input (head.cmd ∙ at.request.op)))

  -- What the rounds of the query and of the write need of the reply.
  record Fits (a : Conn) : Type 0 where
    room : packet_len a ≤ a.ret_buf_size
    readable : (count_miss a).ret_bytes + packet_len a ≤ a.ret_buf_size

  record IsAsked (a : Conn) : Type 0 where
    dealing : a.conn_state ≡ conn_deal_with
    single : a.in_batch_get ≡ false
    start : a.ret_buf_offset ≡ 0
    unused : a.ret_bytes ≡ 0
    held : length a.ret_buf ≡ a.ret_buf_size
    ret_buf : a.ret_buf ≡ t.conn.ret_buf
    size : a.ret_buf_size ≡ t.conn.ret_buf_size
    key_is : a.key ≡ key
    sfd : a.sfd ≡ t.conn.sfd
    input : pending a ≡ rest

  asked-IsAsked : (o : Option (List ℕ)) → IsAsked (found (key_read (fetched t.conn h) key) o)
  unfolding found skip_body
  asked-IsAsked none = ground (
    arith,
    head,
    pending-skip_body (fetched t.conn h) key rest (length key) head.buffered head.input refl,
  )
  asked-IsAsked (some v) = ground (
    arith,
    head,
    pending-skip_body (fetched t.conn h) key rest (length key) head.buffered head.input refl,
  )

  -- The last two rounds build the reply and hand it to `write`.
  module _ (a : Conn) (k : IsAsked a) (fits : Fits a) where
    abbrev answered : Conn
    answered = single_answer a

    abbrev offered : List ℕ
    offered = slice answered.ret_buf 0 answered.ret_bytes

    write_back-answered :
        let (reply, net') = os.write t.net a.sfd offered in
        write_back os answered t.net ≡ ok (wrote answered reply.count reply.errno, net')
    unfolding write_back single_answer
    write_back-answered = ground (arith, k, fits)

    reply_rounds :
        (n : ℕ) (kr : Conn)
        → a ≡ found kr (ht.find t.table kr.key)
        → kr.conn_state ≡ conn_deal_with
        → kr.work_state ≡ query_key
        → let (reply, net') = os.write t.net a.sfd offered in
          process_loop os ht (suc (suc n)) (record t { conn = kr })
          ≡ process_loop os ht n
              (record t { conn = wrote answered reply.count reply.errno; net = net' })
    unfolding deal_with single_answer
    reply_rounds n kr asks cs ws =
        let (reply, net') = os.write t.net a.sfd offered in
        process_loop_deal os ht (suc n) query_key (record t { conn = kr })
          (answered, t.net, t.table) running cs ws
          (ap (λ x. con_ret_buf x >>= λ c'. ok (c', t.net, t.table)) (sym asks)
            ∙ ap (λ x. x >>= λ c'. ok (c', t.net, t.table))
                (con_ret_buf_single a k.single k.start fits.room))
        ∙ process_loop_deal os ht n write_bcak (record t { conn = answered })
            (wrote answered reply.count reply.errno, net', t.table) running k.dealing refl
            (ground (arith, k, write_back-answered))
