-- ===== src/Connection/Service/Answers.antt =====
-- The bytes of `con_ret_buf`, read off the protocol, and where they end up.
use multiport_network.Base.{ℕ, ◌+◌, ◌≤◌, ◌≡◌, false, length, ◌++◌, arith, length-append}
use multiport_network.Base.Buffers.{patch}
use multiport_network.Protocol.{Header, swap16, swap32, store_header, u16, u32}
use multiport_network.Protocol.RoundTrip.{length-store_header}
use multiport_network.Connection.{Conn, ok, write_bcak}
use multiport_network.Connection.Reply.{
  packet, packet_len, answer, resp_head, single_reply, con_ret_buf, count_miss,
}

-- The header of a reply that is no part of a batch, for a key and a value of these lengths.
unfoldable pub reply_header : ℕ → ℕ → Header
reply_header keylen valuelen = record {
  magic = 0x81;
  opcode = 0x01;
  keylen = swap16 (u16 keylen);
  batchnum = swap16 1;
  prehash = 0;
  reserved = 0;
  totalbodylen = swap32 (u32 (keylen + valuelen));
}

pub length-packet : (c : Conn) → length (packet c) ≡ packet_len c
unfolding packet packet_len
length-packet c = omega (
  arith,
  length-append (store_header (resp_head c)) (c.key ++ answer c),
  length-append c.key (answer c),
  length-store_header (resp_head c),
)

-- A reply outside a batch, in an unused buffer: the packet goes to the front.
unfoldable pub single_answer : Conn → Conn
single_answer c = record c {
  ret_buf = patch c.ret_buf 0 (packet c);
  ret_bytes = (count_miss c).ret_bytes + packet_len c;
  work_state = write_bcak;
}

pub con_ret_buf_single :
    (c : Conn)
    → c.in_batch_get ≡ false
    → c.ret_buf_offset ≡ 0
    → packet_len c ≤ c.ret_buf_size
    → con_ret_buf c ≡ ok (single_answer c)
unfolding con_ret_buf single_reply single_answer count_miss
con_ret_buf_single c single start room = ground arith
