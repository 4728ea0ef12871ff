-- ===== src/GetBatch.antt =====
-- get_batch/get_batch_test.cpp: `con_database`, which packs the GETs for each port into batches.
pub mod Packed
pub mod Send
pub mod Served
use multiport_network.Base.{
  ℕ, ◌+◌, ◌-◌, ◌*◌, ◌/◌, ◌%◌, ◌^◌, Bool, true, false, List, [], ◌∷◌, ◌++◌, length, replicate, ltb,
  leb, ◌==◌, if◌then◌else◌,
}
use multiport_network.Base.Buffers.{patch}
use multiport_network.Protocol.{Header, u16, head_len, store_header, swap16, swap32}
use multiport_network.Connection.{Outcome, ok, fault, ◌>>=◌}
use multiport_network.MicroTest.Package.{fill_text}

-- KEY_LEN, and VALUE_LEN, which is the same.
abbrev pub get_key_len : ℕ
get_key_len = 8

-- BATCH_NUM
abbrev pub batch_size : ℕ
batch_size = 100

-- PACKAGE_LEN
abbrev pub get_package_len : ℕ
get_package_len = head_len + get_key_len

-- BATCH_OBJ; `buf` is the whole allocation.
pub record BatchObj : Type 0 where
  pub buf : List ℕ
  pub offset : ℕ
  pub datalen : ℕ
  pub num : ℕ

-- HEAD_LEN + BATCH_NUM * PACKAGE_LEN
abbrev pub batch_len : ℕ
batch_len = head_len + batch_size * get_package_len

-- REQ_HEAD, which is laid out as the server's header.
abbrev pub ReqHead : Type 0
ReqHead = Header

-- The header of a batch for a port.
abbrev pub batch_head : ℕ → ReqHead
batch_head port = record {
  magic = 0x80;
  opcode = 0x03;
  keylen = swap16 get_key_len;
  batchnum = swap16 batch_size;
  prehash = port;
  reserved = 0;
  totalbodylen = swap32 get_key_len;
}

-- The header of a GET within a batch.
abbrev pub get_head : ℕ → ℕ → ReqHead
get_head num port = record {
  magic = 0x80;
  opcode = 0x01;
  keylen = swap16 get_key_len;
  batchnum = swap16 num;
  prehash = port;
  reserved = 0;
  totalbodylen = swap32 get_key_len;
}

-- A batch with its header and no GET.
unfoldable pub new_batch_obj : ℕ → BatchObj
new_batch_obj port = record {
  buf = patch (replicate batch_len 0) 0 (store_header (batch_head port));
  offset = head_len;
  datalen = batch_len;
  num = 0;
}

unfoldable pub get_package : ℕ → ℕ → List ℕ → List ℕ
get_package num port key = store_header (get_head num port) ++ key

-- The GET behind those of the batch.
unfoldable pub add_package : BatchObj → ℕ → List ℕ → Outcome BatchObj
unfolding get_package
add_package b port key =
    if ltb (length b.buf) (b.offset + get_package_len)
    then fault
    else ok (record b {
      buf = patch b.buf b.offset (get_package b.num port key);
      num = u16 (b.num + 1);
      offset = b.offset + get_package_len;
    })

-- batchObjList and database, by port.
pub record Build : Type 0 where
  pub batch_obj_list : ℕ → BatchObj
  pub database : ℕ → List BatchObj

unfoldable pub start_build : Build
start_build = record { batch_obj_list = new_batch_obj; database = λ port. [] }

abbrev pub set_port {ℓ} : {A : Type ℓ} → (ℕ → A) → ℕ → A → ℕ → A
set_port f port x p = if p == port then x else f p

-- The batch with one more GET: a full one goes to the database, to be sent from its start, and a
-- new one takes its place.
unfoldable pub put_batch : Build → ℕ → Bool → BatchObj → Build
put_batch s port full b =
    if full
    then record {
      batch_obj_list = set_port s.batch_obj_list port (new_batch_obj port);
      database = set_port s.database port (s.database port ++ record b { offset = 0 } ∷ []);
    }
    else record s { batch_obj_list = set_port s.batch_obj_list port b }

unfoldable pub put_key : Build → ℕ → List ℕ → Outcome Build
put_key s port key =
    let b = s.batch_obj_list port in
    add_package b port key >>= λ b'. ok (put_batch s port (leb (batch_size - 1) b.num) b')

module _ (hash_func : List ℕ → ℕ) (port_num : ℕ) where
  abbrev pub get_port_of : List ℕ → ℕ
  get_port_of key = (hash_func key % port_num) % 2 ^ 8

  -- With no port the remainder traps.
  unfoldable pub checked_get_port : List ℕ → Outcome ℕ
  checked_get_port key = if port_num == 0 then fault else ok (get_port_of key)

  -- The numbers of the sequence, each as a key for its port.
  unfoldable pub build : Build → List ℕ → Outcome Build
  build s [] = ok s
  build s (a ∷ array) = fill_text get_key_len (a / 26) (b'a' + a % 26) >>= λ key.
      checked_get_port key >>= λ port. put_key s port key >>= λ s'. build s' array
