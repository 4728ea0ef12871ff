-- ===== src/Connection/Reply.antt =====
-- server.cpp: `con_ret_buf`, which writes the reply of a query to the single buffer or, within a
-- batch, to the last buffer of the batch.
use multiport_network.Base.{
  ℕ, ◌+◌, Option, none, some, List, [], ◌∷◌, ◌++◌, length, ltb, if◌then◌else◌,
}
use multiport_network.Base.Buffers.{patch}
use multiport_network.Protocol.{
  Header, head_len, protocol_binary_res, cmd_get, u16, u32, swap16, swap32, store_header,
}
use multiport_network.Connection.{Conn, BatchBuf, Outcome, ok, fault, write_bcak, batch_buf_size}
use multiport_network.Connection.Parse.{new_batchbuf}

-- "NOTFOUND"
abbrev pub notfound_ans : List ℕ
notfound_ans = b'N' ∷ b'O' ∷ b'T' ∷ b'F' ∷ b'O' ∷ b'U' ∷ b'N' ∷ b'D' ∷ []

-- vector::back, and its update through the reference.
unfoldable pub back : List BatchBuf → Option BatchBuf
back [] = none
back (b ∷ []) = some b
back (b ∷ bs) = back bs

unfoldable pub set_back : List BatchBuf → BatchBuf → List BatchBuf
set_back [] x = []
set_back (b ∷ []) x = x ∷ []
set_back (b ∷ bs) x = b ∷ set_back bs x

-- The bytes behind header and key, whose number is `valuelen`.
unfoldable pub answer : Conn → List ℕ
answer c = if c.query_hit then c.value else notfound_ans

-- `batchnum` is `c->batch_count++` as it stands within a batch, and htons(1) else.
unfoldable pub resp_head : Conn → Header
resp_head c = record {
  magic = protocol_binary_res;
  opcode = cmd_get;
  keylen = swap16 (u16 (length c.key));
  batchnum = if c.in_batch_get then c.batch_count else swap16 1;
  prehash = 0;
  reserved = 0;
  totalbodylen = swap32 (u32 (length c.key + length c.value));
}

unfoldable pub packet : Conn → List ℕ
packet c = store_header (resp_head c) ++ (c.key ++ answer c)

-- headlen + keylen + valuelen
unfoldable pub packet_len : Conn → ℕ
packet_len c = head_len + length c.key + length (answer c)

-- A new buffer where the last one may not hold the packet. The test counts `c->value.size()`, also
-- where the query missed. An empty vector has no back.
unfoldable pub reserve : Conn → BatchBuf → List BatchBuf
reserve c last =
    if ltb batch_buf_size (last.datalen + head_len + length c.key + length c.value)
    then c.batch_ret_vector ++ new_batchbuf ∷ []
    else c.batch_ret_vector

-- A miss adds the length of its packet to `ret_bytes`, also within a batch, where nothing resets it.
-- It is an `int`, and no bound is put on it here: the overflow after 2^31 bytes is not modelled.
unfoldable pub count_miss : Conn → Conn
count_miss c =
    if c.query_hit then c else record c { ret_bytes = c.ret_bytes + (head_len + length c.key + 8) }

-- The packet goes to `back.buf + back.datalen`.
unfoldable pub packed : Conn → BatchBuf → BatchBuf
packed c b = record b { buf = patch b.buf b.datalen (packet c); datalen = b.datalen + packet_len c }

unfoldable pub appended : Conn → List BatchBuf → BatchBuf → Conn
appended c bufs b = record (count_miss c) {
  batch_ret_vector = set_back bufs (packed c b);
  batch_count = u16 (c.batch_count + 1);
  work_state = write_bcak;
}

-- A buffer holds `batch_buf_size` bytes.
unfoldable pub append_packet : Conn → List BatchBuf → Option BatchBuf → Outcome Conn
unfolding appended
append_packet c bufs none = fault
append_packet c bufs (some b) =
    if ltb batch_buf_size (b.datalen + packet_len c) then fault else ok (appended c bufs b)

unfoldable pub batch_reply : Conn → Option BatchBuf → Outcome Conn
batch_reply c none = fault
batch_reply c (some last) = let bufs = reserve c last in append_packet c bufs (back bufs)

unfoldable pub single_reply : Conn → Outcome Conn
single_reply c =
    if ltb c.ret_buf_size (c.ret_buf_offset + packet_len c)
    then fault
    else ok (
        let c' = count_miss c in
        record c' {
          ret_buf = patch c'.ret_buf c'.ret_buf_offset (packet c);
          ret_bytes = c'.ret_bytes + packet_len c;
          work_state = write_bcak;
        })

unfoldable pub con_ret_buf : Conn → Outcome Conn
con_ret_buf c = if c.in_batch_get then batch_reply c (back c.batch_ret_vector) else single_reply c
