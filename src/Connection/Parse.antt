-- ===== src/Connection/Parse.antt =====
-- server.cpp: `try_read_head_binary`, `dispatch_bin_command` and `try_read_key_value`.
use multiport_network.Base.{
  ℕ, ◌+◌, ◌-◌, Bool, true, false, not, ◌&&◌, [], ◌∷◌, ◌++◌, drop, ltb, leb, ◌==◌, if◌then◌else◌,
}
use multiport_network.Base.Buffers.{slice}
use multiport_network.Protocol.{
  Header, head_len, cmd_get, cmd_getbatch_head, cmd_set, swap16, swap32, load_header,
}
use multiport_network.Connection.{
  Conn, BatchBuf, conn_closing, parse_head, read_key_value, store_kvobj, query_key, Outcome, ok,
  exits, conn_state_jump, work_state_jump,
}

abbrev pub new_batchbuf : BatchBuf
new_batchbuf = record { buf = []; datalen = 0; offset = 0 }

-- The case `PROTOCOL_BINARY_CMD_GETBATCH_HEAD`.
unfoldable pub begin_batch : Conn → Conn
begin_batch c = record c {
  batch_num = c.binary_header.batchnum;
  batch_count = 0;
  in_batch_get = true;
  batch_ret_vector = c.batch_ret_vector ++ new_batchbuf ∷ [];
  work_state = parse_head;
}

unfoldable pub dispatch_bin_command : Conn → Conn
unfolding begin_batch
dispatch_bin_command c =
    let keylen = c.binary_header.keylen in
    let bodylen = c.binary_header.totalbodylen in
    if ltb bodylen keylen
    then conn_state_jump c conn_closing
    else if c.cmd == cmd_set
    then (if not (keylen == 0) && leb (keylen + 8) bodylen
        then work_state_jump c read_key_value
        else c)
    else if c.cmd == cmd_getbatch_head
    then begin_batch c
    else if c.cmd == cmd_get
    then (if not (keylen == 0) && bodylen == keylen then work_state_jump c read_key_value else c)
    else c

-- The header at `working_buf` in host byte order. `reserved` is not copied.
unfoldable pub host_header : Header → Header → Header
host_header old req = record {
  magic = req.magic;
  opcode = req.opcode;
  keylen = swap16 req.keylen;
  batchnum = swap16 req.batchnum;
  prehash = req.prehash;
  reserved = old.reserved;
  totalbodylen = swap32 req.totalbodylen;
}

unfoldable pub take_head : Conn → Conn
take_head c =
    let h = host_header c.binary_header (load_header (drop c.working_buf c.read_buf)) in
    record c { binary_header = h; cmd = h.opcode }

unfoldable pub skip_head : Conn → Conn
skip_head c = record c {
  remaining_bytes = c.remaining_bytes - head_len;
  worked_bytes = c.worked_bytes + head_len;
  working_buf = c.working_buf + head_len;
}

-- `false` asks for more data.
unfoldable pub try_read_head_binary : Conn → Outcome (Bool × Conn)
try_read_head_binary c =
    if ltb c.remaining_bytes head_len
    then ok (false, c)
    else let c' = take_head c in
      if c'.in_batch_get && not (c'.batch_count == c'.binary_header.batchnum)
      then exits
      else ok (true, skip_head (dispatch_bin_command c'))

pub data ReadKeyValue : Type 0 where
  need_more bad_command got_key_value : ReadKeyValue

unfoldable pub skip_body : Conn → ℕ → Conn
skip_body c n = record c {
  remaining_bytes = c.remaining_bytes - n;
  working_buf = c.working_buf + n;
  worked_bytes = c.worked_bytes + n;
}

unfoldable pub read_set : Conn → ReadKeyValue × Conn
unfolding skip_body
read_set c =
    let kvbytes = c.binary_header.totalbodylen in
    let keylen = c.binary_header.keylen in
    if ltb c.remaining_bytes kvbytes then (need_more, c) else (
      got_key_value,
      work_state_jump
          (skip_body
            (record c {
              key = slice c.read_buf c.working_buf keylen;
              value = slice c.read_buf (c.working_buf + keylen) (kvbytes - keylen);
            })
            kvbytes)
          store_kvobj,
    )

unfoldable pub read_get : Conn → ReadKeyValue × Conn
unfolding skip_body
read_get c =
    let keybytes = c.binary_header.keylen in
    if ltb c.remaining_bytes keybytes then (need_more, c) else (
      got_key_value,
      work_state_jump
          (skip_body (record c { key = slice c.read_buf c.working_buf keybytes }) keybytes)
          query_key,
    )

unfoldable pub try_read_key_value : Conn → ReadKeyValue × Conn
unfolding read_set read_get
try_read_key_value c =
    if c.cmd == cmd_set
    then read_set c
    else if c.cmd == cmd_get
    then read_get c
    else (bad_command, c)
