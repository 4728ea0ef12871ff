-- ===== src/Protocol.antt =====
-- server_define.h: the packet header, its opcodes, and the byte order of its fields. A struct lies
-- in memory as on the little-endian hosts that the server is built for (x86-64): `store_header` and
-- `load_header` are the assignments through a `protocol_binary_request_header *`.
pub mod RoundTrip
use multiport_network.Base.{ℕ, ◌+◌, ◌*◌, ◌/◌, ◌%◌, ◌^◌, List, [], ◌∷◌, ◌++◌}
use multiport_network.Base.Buffers.{byte_at}

-- protocol_binary_request_header. Each field holds the number that the struct holds.
pub record Header : Type 0 where
  pub magic : ℕ  -- uint8_t
  pub opcode : ℕ  -- uint8_t
  pub keylen : ℕ  -- uint16_t
  pub batchnum : ℕ  -- uint16_t
  pub prehash : ℕ  -- uint8_t
  pub reserved : ℕ  -- uint8_t
  pub totalbodylen : ℕ  -- uint32_t

-- sizeof(protocol_binary_request_header)
abbrev pub head_len : ℕ
head_len = 12

-- protocol_binary_magic
abbrev pub protocol_binary_req : ℕ
protocol_binary_req = 0x80

abbrev pub protocol_binary_res : ℕ
protocol_binary_res = 0x81

-- protocol_binary_command
abbrev pub cmd_get : ℕ
cmd_get = 0x01

abbrev pub cmd_getbatch_head : ℕ
cmd_getbatch_head = 0x03

abbrev pub cmd_set : ℕ
cmd_set = 0x04

abbrev pub u16 : ℕ → ℕ
u16 n = n % 2 ^ 16

abbrev pub u32 : ℕ → ℕ
u32 n = n % 2 ^ 32

abbrev pub u64 : ℕ → ℕ
u64 n = n % 2 ^ 64

-- htons and ntohs: the two bytes change places; so do the four of htonl and ntohl.
unfoldable pub swap16 : ℕ → ℕ
swap16 x = x % 256 * 256 + x / 256 % 256

unfoldable pub swap32 : ℕ → ℕ
swap32 x = x % 256 * 2 ^ 24 + x / 256 % 256 * 2 ^ 16 + x / 2 ^ 16 % 256 * 256 + x / 2 ^ 24 % 256

abbrev pub store16 : ℕ → List ℕ
store16 x = x % 256 ∷ x / 256 % 256 ∷ []

abbrev pub store32 : ℕ → List ℕ
store32 x = x % 256 ∷ x / 256 % 256 ∷ x / 2 ^ 16 % 256 ∷ x / 2 ^ 24 % 256 ∷ []

abbrev pub load16 : List ℕ → ℕ → ℕ
load16 buf i = byte_at buf i + byte_at buf (i + 1) * 256

abbrev pub load32 : List ℕ → ℕ → ℕ
load32 buf i =
    byte_at buf i
    + byte_at buf (i + 1) * 256
    + byte_at buf (i + 2) * 2 ^ 16
    + byte_at buf (i + 3) * 2 ^ 24

-- *(protocol_binary_request_header *)buf = h
unfoldable pub store_header : Header → List ℕ
store_header h =
    h.magic
    ∷ h.opcode
    ∷ (store16 h.keylen
        ++ (store16 h.batchnum ++ (h.prehash ∷ h.reserved ∷ store32 h.totalbodylen)))

-- *(protocol_binary_request_header *)buf
unfoldable pub load_header : List ℕ → Header
load_header buf = record {
  magic = byte_at buf 0;
  opcode = byte_at buf 1;
  keylen = load16 buf 2;
  batchnum = load16 buf 4;
  prehash = byte_at buf 6;
  reserved = byte_at buf 7;
  totalbodylen = load32 buf 8;
}
