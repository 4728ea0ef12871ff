-- ===== src/Benchmark/Aborts.antt =====
-- test/benchmark_test.cpp: the assertion of `send_data`, which stands inside of its loop.
use multiport_network.Base.{ℕ, zero, suc, ◌≤◌, ◌<◌, ◌≡◌, List, arith, length}
use multiport_network.Connection.{exits}
use multiport_network.MicroTest.{package_len}
use multiport_network.Benchmark.{
  write_package, write_rounds, send_database, total_head_len, total_body_len,
}

first_write_exits :
    (writes : ℕ → ℕ) (kv_num : ℕ) (db : List ℕ)
    → 1 < kv_num
    → package_len ≤ length db
    → writes 0 ≡ package_len
    → write_package writes kv_num db package_len 0 0 ≡ exits
unfolding write_package total_head_len total_body_len
first_write_exits writes kv_num db several room full = ground arith

rounds_exit :
    (writes : ℕ → ℕ) (kv_num n : ℕ) (db : List ℕ)
    → write_package writes kv_num db package_len 0 0 ≡ exits
    → write_rounds writes kv_num db package_len (suc n) 0 0 ≡ exits
unfolding write_rounds
rounds_exit writes kv_num n db e = rw e

-- With two or more pairs and no batches, a thread whose first package is written in full fails
-- the assertion in the first round, wherever the database holds that package: nothing else is
-- sent.
pub send_database_aborts :
    (writes : ℕ → ℕ) (kv_num thread_num : ℕ) (db : List ℕ)
    → 1 < kv_num
    → package_len ≤ length db
    → writes 0 ≡ package_len
    → send_database writes kv_num db thread_num 1 ≡ exits
unfolding send_database
send_database_aborts writes (suc n) thread_num db several room full =
    rounds_exit writes (suc n) n db (first_write_exits writes (suc n) db several room full)
send_database_aborts writes zero thread_num db several room full = ground arith
