-- ===== src/Connection/Requests/Refused.antt =====
-- server.cpp: a GET whose body is not just its key. `dispatch_bin_command` prints an error and
-- leaves the state of the work, and the body is then read as a header.
use multiport_network.Base.{
  ℕ, suc, ◌<◌, ◌≡◌, ◌≢◌, sym, ap, ◌∙◌, false, List, ◌∷◌, ◌++◌, arith, length, get_or-take, drop,
}
use multiport_network.Base.Buffers.{length-slice, byte_at}
use multiport_network.Interfaces.{Os, HashTable}
use multiport_network.Protocol.{
  Header, head_len, protocol_binary_req, cmd_get, swap16, swap32, store_header,
}
use multiport_network.Protocol.RoundTrip.{IsHeader, length-store_header}
use multiport_network.Connection.{
  Conn, ConnState, WorkState, conn_deal_with, parse_head, ok, exits, ◌>>=◌, pending,
}
use multiport_network.Connection.Parse.{
  host_header, take_head, skip_head, skip_body, dispatch_bin_command, try_read_head_binary,
}
use multiport_network.Connection.Process.{
  Turn, deal_head, deal_with, round, process_loop, process_loop_running,
}
use multiport_network.Connection.Buffered.{IsBuffered, pending-skip_body}
use multiport_network.Connection.Service.{process_loop_deal}
use multiport_network.Connection.Requests.{loaded, first_byte, remaining}

-- The connection once the header is taken and refused.
unfoldable pub refused : Conn → Header → Conn
refused c h =
    skip_body (record c { binary_header = host_header c.binary_header h; cmd = h.opcode }) head_len

module _ (c : Conn) (v : IsBuffered c) (h : Header) (f : IsHeader h) (rest : List ℕ)
    (input : pending c ≡ store_header h ++ rest) (magic : h.magic ≡ protocol_binary_req)
    (op : h.opcode ≡ cmd_get) (longer : swap16 h.keylen < swap32 h.totalbodylen)
    (single : c.in_batch_get ≡ false) where
  take_head-refused :
      take_head c ≡ record c { binary_header = host_header c.binary_header h; cmd = h.opcode }
  unfolding take_head host_header
  take_head-refused = rw (loaded c v h f rest input)

  deal_head-refused : deal_head c ≡ ok (refused c h)
  unfolding deal_head try_read_head_binary dispatch_bin_command skip_head refused skip_body
      host_header
  deal_head-refused =
      ground (arith, take_head-refused, first_byte c v h f rest input, remaining c v h f rest input)

  pending-refused : pending (refused c h) ≡ rest
  unfolding refused skip_body
  pending-refused =
      pending-skip_body c (store_header h) rest head_len v input (sym (length-store_header h))

deal_head_wrong_magic :
    (c : Conn) (b : ℕ) (rest : List ℕ)
    → IsBuffered c
    → pending c ≡ b ∷ rest
    → b ≢ protocol_binary_req
    → deal_head c ≡ exits
unfolding deal_head
deal_head_wrong_magic c b rest v input wrong =
    let some_byte : 0 < c.remaining_bytes = omega (
      arith,
      length-slice c.read_buf c.working_buf c.remaining_bytes,
      ap length input,
      v.held,
      v.fits,
    ) in
    ground (
      arith,
      get_or-take c.remaining_bytes 0 (drop c.working_buf c.read_buf) 0 some_byte,
      ap (λ bytes. byte_at bytes 0) input,
    )

module _ {Net Map : Type 0} (os : Os Net) (ht : HashTable Map) where
  deal_with_exits :
      (w : WorkState) (t : Turn Net Map)
      → w ≡ parse_head
      → deal_head t.conn ≡ exits
      → deal_with os ht w t.conn t.net t.table ≡ exits
  unfolding deal_with
  deal_with_exits parse_head t ps e = ground arith
  deal_with_exits _ t ps e = cc

  round_exits :
      (s : ConnState) (t : Turn Net Map)
      → s ≡ conn_deal_with
      → deal_with os ht t.conn.work_state t.conn t.net t.table ≡ exits
      → round os ht s t ≡ exits
  unfolding round
  round_exits conn_deal_with t cs e = ground arith
  round_exits _ t cs e = cc

  module _ (t : Turn Net Map) (h : Header) (b : ℕ) (rest : List ℕ) (running : t.stop ≡ false)
      (v : IsBuffered t.conn) (dealing : t.conn.conn_state ≡ conn_deal_with)
      (parsing : t.conn.work_state ≡ parse_head) (f : IsHeader h)
      (input : pending t.conn ≡ store_header h ++ b ∷ rest) (magic : h.magic ≡ protocol_binary_req)
      (op : h.opcode ≡ cmd_get) (longer : swap16 h.keylen < swap32 h.totalbodylen)
      (single : t.conn.in_batch_get ≡ false) (wrong : b ≢ protocol_binary_req) where
    refused-IsBuffered : IsBuffered (refused t.conn h)
    unfolding refused skip_body
    refused-IsBuffered = ground (arith, remaining t.conn v h f (b ∷ rest) input)

    refused_dealing :
        ((refused t.conn h).conn_state ≡ conn_deal_with)
        × ((refused t.conn h).work_state ≡ parse_head)
    unfolding refused skip_body
    refused_dealing = (dealing, parsing)

    -- Outside a batch, a GET that announces more than its key, and is followed by a byte that is
    -- not the magic of a request, ends the whole server in two rounds: its header is refused, and
    -- the byte behind it is taken for the magic of the next.
    pub get_longer_exits : (n : ℕ) → process_loop os ht (suc (suc n)) t ≡ exits
    unfolding deal_with
    get_longer_exits n =
        let u : Turn Net Map = record t { conn = refused t.conn h } in
        process_loop_deal os ht (suc n) parse_head t (refused t.conn h, t.net, t.table) running
          dealing parsing
          (ap (λ o. o >>= λ c'. ok (c', t.net, t.table))
            (deal_head-refused t.conn v h f (b ∷ rest) input magic op longer single))
        ∙ process_loop_running os ht n u running
        ∙ ap (λ o. o >>= λ t'. process_loop os ht n t')
            (round_exits u.conn.conn_state u refused_dealing.0 (
              deal_with_exits u.conn.work_state u refused_dealing.1 (
                deal_head_wrong_magic (refused t.conn h) b rest refused-IsBuffered
                  (pending-refused t.conn v h f (b ∷ rest) input magic op longer single) wrong)))
