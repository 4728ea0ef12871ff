-- ===== src/Connection/Requests/Begun.antt =====
-- What the parser of server.cpp makes of the header of a batch that lies whole in the receive
-- buffer.
use multiport_network.Base.{ℕ, ◌≤◌, ◌≡◌, true, false, List, [], ◌∷◌, ◌++◌, arith}
use multiport_network.Protocol.{
  Header, head_len, protocol_binary_req, cmd_getbatch_head, swap16, swap32, store_header,
}
use multiport_network.Protocol.RoundTrip.{IsHeader, length-store_header}
use multiport_network.Connection.{Conn, ok, parse_head, pending}
use multiport_network.Connection.Parse.{
  host_header, skip_head, skip_body, dispatch_bin_command, begin_batch, new_batchbuf,
  try_read_head_binary,
}
use multiport_network.Connection.Process.{deal_head}
use multiport_network.Connection.Buffered.{IsBuffered, pending-skip_body}
use multiport_network.Connection.Requests.{remaining, take_head_lem, first_byte}

-- The header of a batch of this many requests.
pub record IsBatchHeader (h : Header) (num : ℕ) : Type 0 where
  pub is_header : IsHeader h
  pub magic : h.magic ≡ protocol_binary_req
  pub op : h.opcode ≡ cmd_getbatch_head
  pub covers : swap16 h.keylen ≤ swap32 h.totalbodylen
  pub num_is : swap16 h.batchnum ≡ num

-- The connection once the header of a batch is taken.
unfoldable pub begun : Conn → Header → Conn
begun c h =
    skip_body
      (begin_batch (record c { binary_header = host_header c.binary_header h; cmd = h.opcode }))
      head_len

module _ (c : Conn) (v : IsBuffered c) (h : Header) (num : ℕ) (g : IsBatchHeader h num)
    (rest : List ℕ) (input : pending c ≡ store_header h ++ rest)
    (single : c.in_batch_get ≡ false) where
  pub deal_head-begun : deal_head c ≡ ok (begun c h)
  unfolding deal_head try_read_head_binary dispatch_bin_command begin_batch skip_head begun
      skip_body host_header
  deal_head-begun = ground (
    arith,
    take_head_lem c v h g.is_header rest input,
    first_byte c v h g.is_header rest input,
    remaining c v h g.is_header rest input,
  )

  -- What is known of it.
  pub record IsBegun (d : Conn) : Type 0 where
    pub buffered : IsBuffered d
    pub input_left : pending d ≡ rest
    pub dealing : d.conn_state ≡ c.conn_state
    pub parsing : d.work_state ≡ parse_head
    pub batching : d.in_batch_get ≡ true
    pub bufs : d.batch_ret_vector ≡ c.batch_ret_vector ++ new_batchbuf ∷ []
    pub count : d.batch_count ≡ 0
    pub num_is : d.batch_num ≡ num
    pub fd : d.sfd ≡ c.sfd

  pub begun-IsBegun : IsBegun (begun c h)
  unfolding begun begin_batch skip_body host_header
  begun-IsBegun = ground (
    arith,
    g.num_is,
    remaining c v h g.is_header rest input,
    length-store_header h,
    pending-skip_body c (store_header h) rest head_len v input,
  )
