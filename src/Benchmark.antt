-- ===== src/Benchmark.antt =====
-- test/benchmark_test.cpp: `con_database`, which lays out the packages of one thread, single or
-- in batches, in a buffer of the length that TOTAL_HEAD_LEN and TOTAL_BODY_LEN give, and
-- `send_data`, which writes them. The number of pairs keeps the lengths within an int.
pub mod Aborts
use multiport_network.Base.{
  ℕ, zero, suc, ◌+◌, ◌*◌, ◌/◌, ◌%◌, ◌^◌, Bool, true, false, Option, none, some, List, [], ◌∷◌,
  length, take, replicate, ltb, ◌==◌, if◌then◌else◌,
}
use multiport_network.Base.Buffers.{patch}
use multiport_network.Protocol.{head_len, store16, store32, swap16, swap32}
use multiport_network.Connection.{Outcome, ok, exits, fault, ◌>>=◌}
use multiport_network.MicroTest.{key_len, value_len, package_len}
use multiport_network.MicroTest.Package.{Instruct, get, set, getb, setb, fill_text}

abbrev pub sub_head_len : ℕ
sub_head_len = 8

abbrev pub sub_package_len : ℕ
sub_package_len = sub_head_len + key_len + value_len

-- PACKAGE_KEY and PACKAGE_VALUE
abbrev pub key_offset : ℕ
key_offset = head_len

abbrev pub value_offset : ℕ
value_offset = head_len + key_len

-- SUBHEAD_KEY_LENGTH(buf, j), from where the fields of the sub-package `j` are counted
abbrev pub sub_offset : ℕ → ℕ
sub_offset j = head_len + j * sub_package_len

unfoldable pub get_opcode : Instruct → ℕ
get_opcode get = 0x01
get_opcode set = 0x04
get_opcode getb = 0x03
get_opcode setb = 0x06

unfoldable pub batch_package_len : ℕ → ℕ
batch_package_len batch_num = head_len + batch_num * sub_package_len

unfoldable pub total_head_len : ℕ → ℕ → Bool → ℕ
total_head_len kv_num batch_num true = (kv_num / batch_num) * head_len + batch_num * sub_head_len
total_head_len kv_num batch_num false = kv_num * head_len

unfoldable pub total_body_len : ℕ → ℕ
total_body_len kv_num = kv_num * (key_len + value_len)

-- memcpy(my_database + offset, package_buf, len), which must stay inside of the buffer.
unfoldable pub copy_package : List ℕ → ℕ → List ℕ → Outcome (List ℕ)
copy_package db offset p =
    if ltb (length db) (offset + length p) then fault else ok (patch db offset p)

-- The head's stores, in the order of the code.
unfoldable pub fill_head : List ℕ → ℕ → ℕ → ℕ → ℕ → List ℕ
fill_head buf opcode key_length batch_num total_body_length =
    let buf = patch buf 0 (0x80 ∷ []) in
    let buf = patch buf 1 (opcode ∷ []) in
    let buf = patch buf 2 (store16 (swap16 key_length)) in
    let buf = patch buf 4 (store16 (swap16 (batch_num % 2 ^ 16))) in
    let buf = patch buf 6 (0 ∷ []) in
    let buf = patch buf 7 (0 ∷ []) in patch buf 8 (store32 (swap32 (total_body_length % 2 ^ 32)))

-- The stores of the sub-package `j`.
unfoldable pub fill_sub_package : List ℕ → ℕ → ℕ → List ℕ → List ℕ → List ℕ
fill_sub_package buf j finish key_buf value_buf =
    let sub = sub_offset j in
    let buf = patch buf sub (store16 (swap16 key_len)) in
    let buf = patch buf (sub + 2) (finish ∷ []) in
    let buf = patch buf (sub + 3) (0 ∷ []) in
    let buf = patch buf (sub + 4) (store32 (swap32 value_len)) in
    let buf = patch buf (sub + sub_head_len) key_buf in
    patch buf (sub + sub_head_len + key_len) value_buf

module _ (inst : Instruct) where
  unfoldable pub single_package : ℕ → Outcome (List ℕ)
  single_package i = fill_text value_len i b'k' >>= λ key. fill_text value_len i b'v' >>= λ value.
      let buf = fill_head (replicate 100 0) (get_opcode inst) key_len 1 (key_len + value_len) in
      ok (take package_len (patch (patch buf key_offset key) value_offset value))

  -- for(int i = 0; i < kv_num_per_thread; i++), from `i` on.
  unfoldable pub con_singles : ℕ → ℕ → ℕ → List ℕ → Outcome (List ℕ)
  con_singles zero i offset db = ok db
  con_singles (suc n) i offset db = single_package i >>= λ p.
      copy_package db offset p >>= λ db2. con_singles n (i + 1) (offset + package_len) db2

  -- for(int j = 0; j < batch_num; j++), from `j` on, in the batch `i`.
  unfoldable pub fill_batch : ℕ → ℕ → ℕ → ℕ → List ℕ → Outcome (List ℕ)
  fill_batch batch_num i zero j buf = ok buf
  fill_batch batch_num i (suc n) j buf = fill_text value_len (i * batch_num + j) b'k' >>= λ key.
      fill_text value_len (i * batch_num + j) b'v' >>= λ value.
      fill_batch batch_num i n (j + 1)
        (fill_sub_package buf j (if j + 1 == batch_num then 1 else 0) key value)

  unfoldable pub batch_package : ℕ → ℕ → Outcome (List ℕ)
  batch_package batch_num i =
      let body = batch_num * sub_package_len in
      let buf = fill_head (replicate (body + 100) 0) (get_opcode inst) 0 batch_num body in
      fill_batch batch_num i batch_num 0 buf >>= λ full.
      ok (take (batch_package_len batch_num) full)

  -- for(int i = 0; i < kv_num_per_thread/batch_num; i++), from `i` on.
  unfoldable pub con_batches : ℕ → ℕ → ℕ → ℕ → List ℕ → Outcome (List ℕ)
  con_batches batch_num zero i offset db = ok db
  con_batches batch_num (suc n) i offset db = batch_package batch_num i >>= λ p.
      copy_package db offset p >>= λ db2.
      con_batches batch_num n (i + 1) (offset + batch_package_len batch_num) db2

  -- The division by a `batch_num` of 0 traps.
  unfoldable pub con_thread_database : ℕ → ℕ → Outcome (List ℕ)
  con_thread_database kv_num zero = fault
  con_thread_database kv_num (suc zero) =
      con_singles kv_num 0 0 (replicate (total_head_len kv_num 1 false + total_body_len kv_num) 0)
  con_thread_database kv_num (suc (suc b)) =
      con_batches (suc (suc b)) (kv_num / suc (suc b)) 0 0
        (replicate (total_head_len kv_num (suc (suc b)) true + total_body_len kv_num) 0)

-- What `write` returned at each call, as an unsigned long, is `writes`.
module _ (writes : ℕ → ℕ) (kv_num : ℕ) (db : List ℕ) where
  -- One `write` of `len` bytes and the checks behind it; `none` is the return on a write error,
  -- and the assertion that fails ends the program. It is checked at every round.
  unfoldable pub write_package : ℕ → ℕ → ℕ → Outcome (Option ℕ)
  write_package len i offset =
      if ltb (length db) (offset + len)
      then fault
      else if writes i == len
      then (if offset + len == total_head_len kv_num 1 false + total_body_len kv_num
          then ok (some (offset + len))
          else exits)
      else ok none

  unfoldable pub go_on : Option ℕ → Outcome (Option ℕ) → Outcome (Option ℕ)
  go_on none rest = ok none
  go_on (some offset) rest = rest

  -- The loop of `n` rounds from the `i`-th call on.
  unfoldable pub write_rounds : ℕ → ℕ → ℕ → ℕ → Outcome (Option ℕ)
  write_rounds len zero i offset = ok (some offset)
  write_rounds len (suc n) i offset =
      let rest = write_rounds len n (i + 1) (offset + len) in
      write_package len i offset >>= λ r. go_on r rest

  -- The rounds of a connected thread.
  unfoldable pub send_database : ℕ → ℕ → Outcome (Option ℕ)
  send_database thread_num batch_num =
      if batch_num == 1
      then write_rounds package_len kv_num 0 0
      else write_rounds (batch_package_len batch_num) (kv_num / thread_num) 0 0
