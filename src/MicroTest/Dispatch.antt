-- ===== src/MicroTest/Dispatch.antt =====
-- micro_test/micro_test.cpp: how the threads of `data_dispatch` take their work from the database,
-- under `g_mutex`.
pub mod Cover
use multiport_network.Base.{
  ℕ, zero, suc, ◌+◌, ◌-◌, ◌*◌, ◌%◌, ◌^◌, Bool, true, false, Option, none, some, List, [], ◌∷◌, leb,
  if◌then◌else◌,
}
use multiport_network.Protocol.{u64}
use multiport_network.MicroTest.{kv_num, package_len, work_op_num, work_len}

-- The globals that the mutex guards.
pub record Work : Type 0 where
  pub g_offset : ℕ
  pub g_count : ℕ
  pub myround : ℕ
  pub stop : Bool

abbrev pub start_work : ℕ → Work
start_work rounds = record { g_offset = 0; g_count = 0; myround = rounds; stop = false }

-- Subtraction of uint64_t.
abbrev pub sub64 : ℕ → ℕ → ℕ
sub64 a b = (a + (2 ^ 64 - b)) % 2 ^ 64

-- The end of a round: `--myround <= 0` stops all threads.
unfoldable pub next_round : Work → Work
next_round w =
    if leb (w.myround - 1) 0
    then record w { myround = w.myround - 1; stop = true }
    else record { g_offset = 0; g_count = 0; myround = w.myround - 1; stop = false }

-- One passage of the mutex: the offset of `work_buf` in the database and the number of packages
-- that the thread sends from there; none where the thread leaves its loop.
unfoldable pub take_work : ℕ → Work → Option (ℕ × ℕ) × Work
take_work port_num w =
    if w.stop
    then (none, w)
    else if leb (sub64 kv_num w.g_count) (work_op_num port_num)
    then (some (w.g_offset, kv_num - w.g_count), next_round w)
    else (
      some (w.g_offset, work_op_num port_num),
      record w {
        g_offset = u64 (w.g_offset + work_len port_num);
        g_count = u64 (w.g_count + work_op_num port_num);
      },
    )
