-- ===== src/Connection/Requests.antt =====
-- What the parser of server.cpp makes of a request that lies whole in the receive buffer.
pub mod Refused
pub mod Begun
use multiport_network.Base.{
  ℕ, ◌+◌, ◌-◌, ◌≤◌, ◌<◌, ◌≡◌, sym, ap, ◌∙◌, false, ◌⊎◌, List, ◌++◌, arith, length, length-append,
  drop, get_or-take,
}
use multiport_network.Base.Buffers.{slice, length-slice, slice_start, slice_rest, byte_at}
use multiport_network.Protocol.{
  Header, head_len, protocol_binary_req, cmd_get, cmd_set, swap16, swap32, store_header,
  load_header,
}
use multiport_network.Protocol.RoundTrip.{IsHeader, length-store_header, load_header-store_header}
use multiport_network.Connection.{Conn, ok, pending, read_key_value, store_kvobj, query_key}
use multiport_network.Connection.Parse.{
  host_header, take_head, skip_head, skip_body, dispatch_bin_command, try_read_head_binary,
  try_read_key_value, got_key_value,
}
use multiport_network.Connection.Process.{deal_head}
use multiport_network.Connection.Buffered.{IsBuffered, pending-skip_body}
use multiport_network.Connection.Sound.{Command}

-- The fields of a header lie within its 12 bytes.
load_header-slice :
    (buf : List ℕ) (pos n : ℕ) → 12 ≤ n → load_header (slice buf pos n) ≡ load_header (drop pos buf)
unfolding load_header
load_header-slice buf pos n h =
    let at = λ (i : ℕ) (l : i < n). get_or-take n i (drop pos buf) 0 l in
    ground (
      arith,
      at 0 (omega arith),
      at 1 (omega arith),
      at 2 (omega arith),
      at 3 (omega arith),
      at 4 (omega arith),
      at 5 (omega arith),
      at 6 (omega arith),
      at 7 (omega arith),
      at 8 (omega arith),
      at 9 (omega arith),
      at 10 (omega arith),
      at 11 (omega arith),
    )

module _ (c : Conn) (v : IsBuffered c) (h : Header) (f : IsHeader h) (rest : List ℕ)
    (input : pending c ≡ store_header h ++ rest) where
  pub remaining : c.remaining_bytes ≡ 12 + length rest
  remaining = omega (
    arith,
    length-slice c.read_buf c.working_buf c.remaining_bytes,
    ap length input,
    length-append (store_header h) rest,
    length-store_header h,
  )

  pub loaded : load_header (drop c.working_buf c.read_buf) ≡ h
  loaded =
      sym (load_header-slice c.read_buf c.working_buf c.remaining_bytes (omega (arith, remaining)))
      ∙ ap load_header input
      ∙ load_header-store_header h rest f

  pub first_byte : byte_at (drop c.working_buf c.read_buf) 0 ≡ h.magic
  unfolding load_header
  first_byte = ap (λ (x : Header). x.magic) loaded

  pub take_head_lem :
      take_head c ≡ record c { binary_header = host_header c.binary_header h; cmd = h.opcode }
  unfolding take_head host_header
  take_head_lem = rw loaded

-- The connection once the header of a SET or a GET is taken.
unfoldable pub fetched : Conn → Header → Conn
fetched c h =
    skip_body
      (record c {
        binary_header = host_header c.binary_header h;
        cmd = h.opcode;
        work_state = read_key_value;
      })
      head_len

module _ (c : Conn) (v : IsBuffered c) (h : Header) (f : IsHeader h) (rest : List ℕ)
    (input : pending c ≡ store_header h ++ rest) (magic : h.magic ≡ protocol_binary_req)
    (accepted : Command read_key_value h.opcode (swap16 h.keylen) (swap32 h.totalbodylen))
    (in_turn : (c.in_batch_get ≡ false) ⊎ (c.batch_count ≡ swap16 h.batchnum)) where
  pub deal_head-fetched : deal_head c ≡ ok (fetched c h)
  unfolding deal_head try_read_head_binary dispatch_bin_command skip_head fetched skip_body
      host_header
  deal_head-fetched = ground (
    arith,
    take_head_lem c v h f rest input,
    first_byte c v h f rest input,
    remaining c v h f rest input,
  )

-- What is known of a connection whose header is taken, and what it kept.
pub record IsFetched (c d : Conn) (h : Header) (rest : List ℕ) : Type 0 where
  pub buffered : IsBuffered d
  pub input : pending d ≡ rest
  pub keylen : d.binary_header.keylen ≡ swap16 h.keylen
  pub bodylen : d.binary_header.totalbodylen ≡ swap32 h.totalbodylen
  pub cmd : d.cmd ≡ h.opcode
  pub dealing : d.conn_state ≡ c.conn_state
  pub reading : d.work_state ≡ read_key_value
  pub in_batch : d.in_batch_get ≡ c.in_batch_get
  pub bufs : d.batch_ret_vector ≡ c.batch_ret_vector
  pub count : d.batch_count ≡ c.batch_count
  pub num : d.batch_num ≡ c.batch_num
  pub value : d.value ≡ c.value
  pub sfd : d.sfd ≡ c.sfd
  pub ret_size : d.ret_buf_size ≡ c.ret_buf_size
  pub ret_buf : d.ret_buf ≡ c.ret_buf
  pub ret_offset : d.ret_buf_offset ≡ c.ret_buf_offset
  pub ret_bytes : d.ret_bytes ≡ c.ret_bytes

pub fetched-IsFetched :
    (c : Conn) (h : Header) (rest : List ℕ)
    → IsBuffered c
    → IsHeader h
    → pending c ≡ store_header h ++ rest
    → IsFetched c (fetched c h) h rest
unfolding fetched skip_body host_header
fetched-IsFetched c h rest v f input = ground (
  arith,
  remaining c v h f rest input,
  length-store_header h,
  pending-skip_body c (store_header h) rest head_len v input,
)

module _ (c : Conn) (v : IsBuffered c) (key rest : List ℕ)
    (keylen : c.binary_header.keylen ≡ length key) where
  -- A whole body of a SET is split into key and value.
  pub read_set_body :
      (value : List ℕ)
      → pending c ≡ key ++ (value ++ rest)
      → c.binary_header.totalbodylen ≡ length key + length value
      → c.cmd ≡ cmd_set
      → try_read_key_value c ≡ (
        got_key_value,
        record (skip_body c (length key + length value)) {
          key = key;
          value = value;
          work_state = store_kvobj;
        },
      )
  unfolding try_read_key_value skip_body
  read_set_body value input bodylen cmd = ground (
    arith,
    length-slice c.read_buf c.working_buf c.remaining_bytes,
    ap length input,
    length-append key (value ++ rest),
    length-append value rest,
    slice_start c.read_buf key (value ++ rest) c.working_buf c.remaining_bytes
        c.binary_header.keylen input keylen,
    slice_start c.read_buf value rest (c.working_buf + c.binary_header.keylen)
        (c.remaining_bytes - c.binary_header.keylen)
        (c.binary_header.totalbodylen - c.binary_header.keylen),
    slice_rest c.read_buf key (value ++ rest) c.working_buf c.remaining_bytes c.binary_header.keylen
        input keylen,
  )

  -- A whole body of a GET is the key.
  pub read_get_body :
      pending c ≡ key ++ rest
      → c.cmd ≡ cmd_get
      → try_read_key_value c
        ≡ (got_key_value, record (skip_body c (length key)) { key = key; work_state = query_key })
  unfolding try_read_key_value skip_body
  read_get_body input cmd = ground (
    arith,
    length-slice c.read_buf c.working_buf c.remaining_bytes,
    ap length input,
    length-append key rest,
    slice_start c.read_buf key rest c.working_buf c.remaining_bytes c.binary_header.keylen input
        keylen,
  )
