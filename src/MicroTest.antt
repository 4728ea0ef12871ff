-- ===== src/MicroTest.antt =====
-- micro_test: the settings of the client that sends a prepared database of packages.
pub mod Package
pub mod Sender
pub mod Work
pub mod Connect
pub mod Dispatch
use multiport_network.Base.{ℕ, ◌+◌, ◌*◌, List}
use multiport_network.Protocol.{head_len}

abbrev pub key_len : ℕ
key_len = 8

abbrev pub value_len : ℕ
value_len = 8

-- NUM * 26
abbrev pub kv_num : ℕ
kv_num = 26000

abbrev pub round_set : ℕ
round_set = 1

abbrev pub package_len : ℕ
package_len = head_len + key_len + value_len

-- HEAD_MAGIC(buf) and the others: where the fields of a package stand.
abbrev pub head_magic : ℕ
head_magic = 0

abbrev pub head_opcode : ℕ
head_opcode = 1

abbrev pub head_key_length : ℕ
head_key_length = 2

abbrev pub head_batch_num : ℕ
head_batch_num = 4

abbrev pub head_pre_hash : ℕ
head_pre_hash = 6

abbrev pub head_retain : ℕ
head_retain = 7

abbrev pub head_body_length : ℕ
head_body_length = 8

abbrev pub package_key : ℕ
package_key = head_len

abbrev pub package_value : ℕ
package_value = head_len + key_len

-- PORT_BASE
abbrev pub client_port_base : ℕ
client_port_base = 8033

-- package_obj: the bytes from `package_ptr` on, `package_len` of them.
abbrev pub PackageObj : Type 0
PackageObj = List ℕ

abbrev pub send_batch_num : ℕ
send_batch_num = 100

-- WORK_OP_NUM and WORK_LEN
abbrev pub work_op_num : ℕ → ℕ
work_op_num port_num = send_batch_num * port_num

abbrev pub work_len : ℕ → ℕ
work_len port_num = work_op_num port_num * package_len
