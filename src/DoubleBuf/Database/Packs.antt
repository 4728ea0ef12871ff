-- ===== src/DoubleBuf/Database/Packs.antt =====
-- The database that `con_database` of double_buf_get.cpp makes of the numbers it draws.
use multiport_network.Base.{
  ℕ, zero, suc, ◌+◌, ◌*◌, ◌≤◌, ◌<◌, ◌≡◌, ap, none, List, ◌++◌, arith, length,
}
use multiport_network.Connection.{ok, ◌>>=◌}
use multiport_network.MicroTest.Package.Layout.{tens, AllBelow}
use multiport_network.GetBatch.{BatchObj, batch_size}
use multiport_network.GetBatch.Packed.{all_sealed, AllFull, flat}
use multiport_network.GetBatch.Packed.Whole.{keys_for, build-IsPacked}
use multiport_network.DoubleBuf.Database.{
  write_numbers, draw_numbers, load_numbers, Made, made, con_get_database,
}

-- NUM
abbrev pub num : ℕ
num = 100000

-- KV_NUM
abbrev pub get_kv_num : ℕ
get_kv_num = num * 26

abbrev pub key_range : ℕ
key_range = get_kv_num

-- The keys of a port in full batches, and fewer than a batch that are left over.
pub record InBatches (port : ℕ) (keys : List (List ℕ)) (batches : List BatchObj) : Type 0 where
  pub groups : List (List (List ℕ))
  pub rest : List (List ℕ)
  pub same : keys ≡ flat groups ++ rest
  pub full : AllFull groups
  pub few : length rest < batch_size
  pub in_database : batches ≡ all_sealed port groups

below : (n : ℕ) → n ≤ key_range → n < 26 * tens 7
below n h = omega arith

pub draw_numbers-AllBelow :
    (draw : ℕ → ℕ) (n i : ℕ)
    → ((j : ℕ) → draw j ≤ key_range)
    → AllBelow (26 * tens 7) (draw_numbers draw n i)
unfolding draw_numbers
draw_numbers-AllBelow draw zero i h = tt
draw_numbers-AllBelow draw (suc n) i h =
    (below (draw i) (h i), draw_numbers-AllBelow draw n (i + 1) h)

module _ (hash_func : List ℕ → ℕ) (port_num kv_num memory : ℕ) where
  -- With one port or more, and where the distribution keeps to its range: a run that finds no file makes a database without
  -- leaving a buffer, in which each port has the keys that hash to it, of the numbers drawn, in
  -- their order and in full batches of the protocol's bytes; fewer keys than a batch holds are
  -- left over.
  pub con_get_database-InBatches :
      (draw : ℕ → ℕ)
      → ((i : ℕ) → draw i ≤ key_range)
      → 0 < port_num
      → (r : Made) × (con_get_database hash_func port_num kv_num memory none draw ≡ ok r)
        × ((p : ℕ)
            → InBatches p
                (keys_for hash_func port_num p (draw_numbers draw kv_num 0))
                (r.database p))
  unfolding con_get_database load_numbers made
  con_get_database-InBatches draw h some_port =
      let (s, e, v) =
        build-IsPacked hash_func port_num some_port (draw_numbers draw kv_num 0)
          (draw_numbers-AllBelow draw kv_num 0 h) in
      (
        made port_num memory (write_numbers (draw_numbers draw kv_num 0)) s,
        ap
            (λ o.
              o >>= λ x. ok (made port_num memory (write_numbers (draw_numbers draw kv_num 0)) x))
            e,
        λ p. record {
          groups = (v p).groups;
          rest = (v p).rest;
          same = (v p).same;
          full = (v p).full;
          few = (v p).open_batch.few;
          in_database = (v p).in_database;
        },
      )
