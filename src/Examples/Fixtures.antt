-- ===== src/Examples/Fixtures.antt =====
-- A connection of server.cpp at the head of a SET, at the head of a GET, and within a batch.
use multiport_network.Base.{
  ℕ, ◌^◌, ◌*◌, ◌≡◌, refl, true, false, inl, List, [], ◌∷◌, ◌++◌, arith, length, replicate,
  length-replicate,
}
use multiport_network.Protocol.{Header, store_header, swap16, swap32, cmd_set, cmd_get}
use multiport_network.Interfaces.Reference.{Wire, Assoc}
use multiport_network.Connection.{
  Conn, BatchBuf, Outcome, ok, conn_deal_with, conn_waiting, parse_head, write_bcak, read_key_value,
  query_key,
}
use multiport_network.Connection.Process.{Turn}
use multiport_network.Connection.Service.{AtRequest}
use multiport_network.Connection.Service.Query.{AtGet}

-- Memory whose contents do not matter.
unfoldable pub zeros : ℕ → List ℕ
zeros n = replicate n 0

pub length-zeros : (n : ℕ) → length (zeros n) ≡ n
unfolding zeros
length-zeros n = length-replicate n 0

abbrev pub no_header : Header
no_header = record {
  magic = 0;
  opcode = 0;
  keylen = 0;
  batchnum = 0;
  prehash = 0;
  reserved = 0;
  totalbodylen = 0;
}

-- A connection that has received these bytes.
abbrev pub conn_with : List ℕ → ℕ → Conn
conn_with bytes n = record {
  sfd = 7;
  thread_index = 0;
  read_buf_size = 1000;
  read_buf = bytes;
  recv_bytes = 0;
  total_bytes = 0;
  working_buf = 0;
  worked_bytes = 0;
  remaining_bytes = n;
  ret_buf_size = 1000;
  ret_buf = zeros 1000;
  ret_buf_offset = 0;
  ret_bytes = 0;
  batch_ret_vector = [];
  bytes_processed = 0;
  bytes_wrote_back = 0;
  conn_state = conn_deal_with;
  work_state = parse_head;
  binary_header = no_header;
  cmd = 0;
  key = [];
  value = [];
  query_hit = false;
  batch_num = 0;
  batch_count = 0;
  in_batch_get = false;
}

abbrev pub sample_key : List ℕ
sample_key = b'k' ∷ []

abbrev pub sample_value : List ℕ
sample_value = b'1' ∷ b'2' ∷ b'3' ∷ b'4' ∷ b'5' ∷ b'6' ∷ b'7' ∷ b'8' ∷ []

-- The headers of a SET of `sample_value` and of a GET, in network order.
abbrev pub set_header : Header
set_header = record no_header {
  magic = 0x80;
  opcode = 4;
  keylen = 256;
  batchnum = 256;
  totalbodylen = 9 * 2 ^ 24;
}

abbrev pub get_header : Header
get_header = record no_header {
  magic = 0x80;
  opcode = 1;
  keylen = 256;
  batchnum = 256;
  totalbodylen = 2 ^ 24;
}

abbrev pub at_set : Conn
at_set = conn_with (store_header set_header ++ (sample_key ++ (sample_value ++ zeros 979))) 21

abbrev pub at_get : Conn
at_get = conn_with (store_header get_header ++ (sample_key ++ zeros 987)) 13

abbrev pub idle_wire : Wire
idle_wire = record { inbound = []; window = 1000; sent = []; closed = [] }

abbrev pub empty_table : Assoc
empty_table = []

abbrev pub full_table : Assoc
full_table = (sample_key, sample_value) ∷ []

abbrev pub turn_at : Conn → Assoc → Turn Wire Assoc
turn_at c m = record { conn = c; net = idle_wire; table = m; inst_count = 0; stop = false }

pub at_set-AtRequest : AtRequest at_set cmd_set 9 set_header (sample_key ++ (sample_value ++ []))
unfolding store_header swap16 swap32
at_set-AtRequest = record {
  buffered = record { size = refl; held = omega (arith, length-zeros 979); fits = omega arith };
  dealing = refl;
  parsing = refl;
  is_header = record {
    keylen_fits = omega arith;
    batchnum_fits = omega arith;
    totalbodylen_fits = omega arith;
  };
  magic = refl;
  op = refl;
  bodylen = refl;
  input = refl;
  in_turn = inl refl;
}

pub at_get-AtGet : AtGet at_get get_header sample_key []
unfolding store_header swap16 swap32
at_get-AtGet = record {
  request = record {
    buffered = record { size = refl; held = omega (arith, length-zeros 987); fits = omega arith };
    dealing = refl;
    parsing = refl;
    is_header = record {
      keylen_fits = omega arith;
      batchnum_fits = omega arith;
      totalbodylen_fits = omega arith;
    };
    magic = refl;
    op = refl;
    bodylen = refl;
    input = refl;
    in_turn = inl refl;
  };
  keylen = refl;
  some_key = omega arith;
  single = refl;
  start = refl;
  unused = refl;
  ret_held = length-zeros 1000;
}

-- The turn that a call ended with; some turn where it did not end so.
abbrev pub turn_of : Outcome (Turn Wire Assoc) → Turn Wire Assoc
turn_of (ok t) = t
turn_of _ = turn_at at_set empty_table

-- Within a batch of two GETs, at the second reply: `filled` bytes of the only buffer are used.
abbrev pub in_batch : ℕ → Conn
in_batch filled = record at_get {
  work_state = query_key;
  cmd = cmd_get;
  key = sample_key;
  value = sample_value;
  query_hit = true;
  in_batch_get = true;
  batch_num = 2;
  batch_count = 1;
  batch_ret_vector = record { buf = zeros filled; datalen = filled; offset = 0 } ∷ [];
}

-- A batch of three bytes that is complete and of which one byte is sent.
abbrev pub complete_buf : BatchBuf
complete_buf = record { buf = 10 ∷ 11 ∷ 12 ∷ []; datalen = 3; offset = 1 }

abbrev pub complete_batch : Conn
complete_batch = record (in_batch 0) {
  work_state = write_bcak;
  batch_count = 2;
  batch_ret_vector = complete_buf ∷ [];
}

-- The first reply to a batch that announced none.
abbrev pub empty_batch : Conn
empty_batch = record (in_batch 0) { batch_num = 0; batch_count = 0 }

-- In the body of a SET of 2000 bytes.
abbrev pub oversized : Conn
oversized = record at_set {
  conn_state = conn_waiting;
  work_state = read_key_value;
  cmd = cmd_set;
  binary_header = record no_header { keylen = 1; totalbodylen = 2000 };
}
