-- ===== src/MicroTest/Package.antt =====
-- micro_test/micro_test.cpp: `con_database`, which lays a package out for each number of the
-- sequence, and `get_opcode`.
pub mod Layout
pub mod Served
use multiport_network.Base.{
  ℕ, zero, suc, ◌+◌, ◌-◌, ◌*◌, ◌/◌, ◌%◌, ◌^◌, Bool, true, false, List, [], ◌∷◌, ◌++◌, length, take,
  replicate, ltb, ◌==◌, if◌then◌else◌,
}
use multiport_network.Base.Buffers.{patch}
use multiport_network.Protocol.{store16, store32, swap16, swap32}
use multiport_network.Connection.{Outcome, ok, exits, fault, ◌>>=◌}
use multiport_network.MicroTest.{
  key_len, value_len, package_len, head_magic, head_opcode, head_key_length, head_batch_num,
  head_pre_hash, head_retain, head_body_length, package_key, package_value,
}

-- instructs
pub data Instruct : Type 0 where
  get set getb setb : Instruct

unfoldable pub get_opcode : Instruct → ℕ
get_opcode get = 0x01
get_opcode set = 0x04
get_opcode getb = 0x03
get_opcode setb = 0x06

-- The digits of `n` before those of `acc`, for at most `fuel` of them.
unfoldable pub digits : ℕ → ℕ → List ℕ → List ℕ
digits zero n acc = acc
digits (suc fuel) n acc =
    let more = digits fuel (n / 10) ((b'0' + n % 10) ∷ acc) in
    if ltb n 10 then (b'0' + n) ∷ acc else more

-- sprintf(buf, "%d", n): an int has at most ten digits.
unfoldable pub sprintf_d : ℕ → List ℕ
unfolding digits
sprintf_d n = digits 10 n []

-- The text of `n` filled up to `len` bytes with `letter`; where it is longer, the length that
-- `memset` is given wraps around.
unfoldable pub fill_text : ℕ → ℕ → ℕ → Outcome (List ℕ)
fill_text len n letter =
    if ltb len (length (sprintf_d n))
    then fault
    else ok (sprintf_d n ++ replicate (len - length (sprintf_d n)) letter)

-- The stores into `package_buf`, in the order of the code, and the part that is copied to the
-- database.
unfoldable pub fill_package : ℕ → ℕ → List ℕ → List ℕ → List ℕ
fill_package opcode pre_hash key_buf value_buf =
    let buf = patch (replicate 100 0) head_magic (0x80 ∷ []) in
    let buf = patch buf head_opcode (opcode ∷ []) in
    let buf = patch buf head_key_length (store16 (swap16 key_len)) in
    let buf = patch buf head_batch_num (store16 (swap16 1)) in
    let buf = patch buf head_retain (0 ∷ []) in
    let buf = patch buf head_body_length (store32 (swap32 (key_len + value_len))) in
    let buf = patch buf package_key key_buf in
    let buf = patch buf package_value value_buf in
    let buf = patch buf head_pre_hash (pre_hash ∷ []) in take package_len buf

module _ (hash_func : List ℕ → ℕ) (port_num : ℕ) (inst : Instruct) where
  abbrev pub port_of : List ℕ → ℕ
  port_of key = (hash_func key % port_num) % 2 ^ 8

  -- With no port the remainder traps.
  unfoldable pub checked_port : List ℕ → Outcome ℕ
  checked_port key = if port_num == 0 then fault else ok (port_of key)

  -- The package for one number of the sequence.
  unfoldable pub make_package : ℕ → Outcome (List ℕ)
  make_package a = fill_text key_len (a / 26) (b'a' + a % 26) >>= λ key.
      fill_text value_len (a / 26) (b'a' + a % 26 + 1) >>= λ value.
      checked_port key >>= λ pre_hash. ok (fill_package (get_opcode inst) pre_hash key value)

  -- The database: the packages of the sequence, one behind the other.
  unfoldable pub con_database : List ℕ → Outcome (List ℕ)
  con_database [] = ok []
  con_database (a ∷ array) = make_package a >>= λ p. con_database array >>= λ db. ok (p ++ db)
