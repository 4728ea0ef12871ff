-- ===== src/LocalTest.antt =====
-- cuckoo_local_test/cuckoo_local_test.cpp: the pairs of each thread, `pre_insert`, and
-- `data_dispatch`, which finds or inserts a thread's pairs in the shared table. The threads'
-- own parts are modelled one after the other.
pub mod Found
use multiport_network.Base.{
  ℕ, zero, suc, ◌+◌, ◌/◌, ◌%◌, ◌^◌, none, some, Option, List, [], ◌∷◌, ◌++◌, length,
}
use multiport_network.Protocol.{u64}
use multiport_network.Interfaces.{HashTable}
use multiport_network.Connection.{Outcome, ok, exits, ◌>>=◌}
use multiport_network.GetBatch.{set_port}
use multiport_network.MicroTest.Package.{Instruct, get, set, getb, setb, fill_text}

-- KEY_LEN and VALUE_LEN
abbrev pub local_key_len : ℕ
local_key_len = 8

abbrev pub local_value_len : ℕ
local_value_len = 8

-- struct kvobj of this program
pub record KvItem : Type 0 where
  pub key : List ℕ
  pub value : List ℕ
  pub prehash : ℕ

-- mydatabase, by thread.
abbrev pub Database : Type 0
Database = ℕ → List KvItem

module _ (hash_func : List ℕ → ℕ) (thread_num : ℕ) where
  -- The pair of one number goes to the thread that its key hashes to.
  unfoldable pub put_item : Database → List ℕ → List ℕ → Database
  put_item db key value =
      let prehash = (hash_func key % thread_num) % 2 ^ 8 in
      set_port db prehash
        (db prehash ++ record { key = key; value = value; prehash = prehash } ∷ [])

  unfoldable pub con_local_database : Database → List ℕ → Outcome Database
  con_local_database db [] = ok db
  con_local_database db (a ∷ array) = fill_text local_key_len (a / 26) (b'a' + a % 26) >>= λ key.
      fill_text local_value_len (a / 26) (b'a' + a % 26 + 1) >>= λ value.
      con_local_database (put_item db key value) array

module _ {Map : Type 0} (ht : HashTable Map) where
  unfoldable pub insert_items : Map → List KvItem → Map
  insert_items m [] = m
  insert_items m (kv ∷ items) = insert_items (ht.insert_or_assign m kv.key kv.value) items

  -- for(int i = 0; i < thread_num; i++), from `i` on.
  unfoldable pub pre_insert : Database → ℕ → ℕ → Map → Map
  pre_insert db zero i m = m
  pre_insert db (suc n) i m = pre_insert db n (i + 1) (insert_items m (db i))

  -- The one-argument `find` throws where the key is missing, and nothing catches it.
  unfoldable pub find_or_exit : Option (List ℕ) → ℕ → Outcome ℕ
  find_or_exit none total_len = exits
  find_or_exit (some v) total_len = ok (u64 (total_len + length v))

  -- The loop over the pairs of a thread, with `total_len`.
  unfoldable pub run_items : Instruct → List KvItem → Map → ℕ → Outcome (Map × ℕ)
  run_items inst [] m total_len = ok (m, total_len)
  run_items get (kv ∷ items) m total_len =
      find_or_exit (ht.find m kv.key) total_len >>= λ len. run_items get items m len
  run_items set (kv ∷ items) m total_len =
      run_items set items (ht.insert_or_assign m kv.key kv.value) total_len
  run_items getb (kv ∷ items) m total_len = exits
  run_items setb (kv ∷ items) m total_len = exits

  -- for(int i = 0; i < myround; i++)
  unfoldable pub run_rounds : ℕ → Instruct → List KvItem → Map → ℕ → Outcome (Map × ℕ)
  run_rounds zero inst items m total_len = ok (m, total_len)
  run_rounds (suc k) inst items m total_len =
      run_items inst items m total_len >>= λ r. run_rounds k inst items r.0 r.1
