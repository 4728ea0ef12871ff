-- ===== src/DoubleBuf/Database.antt =====
-- double_buf_get/double_buf_get.cpp: the numbers that `con_database` starts from, which one run draws
-- and leaves in `testfile.dat` for the next, and the database it makes of them. The files open, and
-- all of the array is written. SKEW is 0, so the numbers are drawn from the uniform
-- distribution of the standard library, which is the parameter `draw`.
pub mod Again
pub mod Packs
pub mod Bytes
use multiport_network.Base.{
  ℕ, zero, suc, ◌+◌, ◌-◌, ◌*◌, ◌/◌, ◌%◌, Option, none, some, List, [], ◌∷◌, ◌++◌, length, take,
  drop, replicate,
}
use multiport_network.Protocol.{u64}
use multiport_network.Connection.{Outcome, ok, ◌>>=◌}
use multiport_network.GetBatch.{BatchObj, batch_size, Build, start_build, build}

-- The `n` bytes of a number in memory, the lowest first, and the number of such bytes.
unfoldable pub store_number : ℕ → ℕ → List ℕ
store_number zero x = []
store_number (suc n) x = x % 256 ∷ store_number n (x / 256)

unfoldable pub load_number : List ℕ → ℕ
load_number [] = 0
load_number (b ∷ bytes) = b + 256 * load_number bytes

-- fwrite(array, sizeof(uint64_t), count, fp): the bytes of an array.
unfoldable pub write_numbers : List ℕ → List ℕ
write_numbers [] = []
write_numbers (x ∷ xs) = store_number 8 x ++ write_numbers xs

-- The `count` numbers of eight bytes each at the head of this memory.
unfoldable pub numbers_at : ℕ → List ℕ → List ℕ
numbers_at zero bytes = []
numbers_at (suc count) bytes = load_number (take 8 bytes) ∷ numbers_at count (drop 8 bytes)

-- fread(array, sizeof(uint64_t), count, fp) into what `calloc` gave.
unfoldable pub read_numbers : ℕ → List ℕ → List ℕ
read_numbers count content =
    numbers_at count (take (8 * count) content ++ replicate (8 * count - length content) 0)

-- The loop over dis(engine), for the numbers from the `i`-th on.
unfoldable pub draw_numbers : (ℕ → ℕ) → ℕ → ℕ → List ℕ
draw_numbers draw zero i = []
draw_numbers draw (suc n) i = draw i ∷ draw_numbers draw n (i + 1)

-- The array, and the bytes of the file then.
unfoldable pub load_numbers : ℕ → Option (List ℕ) → (ℕ → ℕ) → List ℕ × List ℕ
load_numbers count none draw = let array = draw_numbers draw count 0 in (array, write_numbers array)
load_numbers count (some content) draw = (read_numbers count content, content)

-- The sums that `con_database` prints; `total_num` is not initialised, so it starts from what was
-- in memory.
unfoldable pub total_discarded : ℕ → (ℕ → BatchObj) → ℕ
total_discarded zero bs = 0
total_discarded (suc i) bs = u64 (total_discarded i bs + (bs i).num)

unfoldable pub total_ready : ℕ → ℕ → (ℕ → List BatchObj) → ℕ
total_ready memory zero database = memory
total_ready memory (suc i) database =
    u64 (total_ready memory i database + length (database i) * batch_size)

pub record Made : Type 0 where
  pub database : ℕ → List BatchObj
  pub file : List ℕ
  pub total_num : ℕ
  pub total_discarded_num : ℕ

module _ (port_num memory : ℕ) where
  unfoldable pub made : List ℕ → Build → Made
  made file s = record {
    database = s.database;
    file = file;
    total_num = total_ready memory port_num s.database;
    total_discarded_num = total_discarded port_num s.batch_obj_list;
  }

module _ (hash_func : List ℕ → ℕ) (port_num kv_num memory : ℕ) where
  unfoldable pub con_get_database : Option (List ℕ) → (ℕ → ℕ) → Outcome Made
  con_get_database content draw =
      let (array, file) = load_numbers kv_num content draw in
      build hash_func port_num start_build array >>= λ s. ok (made port_num memory file s)
