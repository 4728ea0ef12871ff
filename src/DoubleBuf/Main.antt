-- ===== src/DoubleBuf/Main.antt =====
-- double_buf_get/double_buf_get.cpp: `main`. What the threads of `data_dispatch` leave in `timelist`
-- is the parameter `run`; the messages are left out.
use multiport_network.Base.{
  ℕ, zero, suc, ◌+◌, ◌/◌, Option, none, some, List, length, codes, ◌||◌, ◌==◌, if◌then◌else◌,
}
use multiport_network.Interfaces.Reference.{bytes_eq}
use multiport_network.Protocol.{u64}
use multiport_network.Connection.{Outcome, ok, fault, ◌>>=◌}
use multiport_network.MicroTest.Package.{Instruct, get, set, getb, setb}
use multiport_network.DoubleBuf.Database.{Made, con_get_database}

-- The comparisons of `in_inst`.
unfoldable pub parse_inst : List ℕ → Option Instruct
unfolding bytes_eq
parse_inst in_inst =
    if bytes_eq in_inst (codes "get")
    then some get
    else if bytes_eq in_inst (codes "getb")
    then some getb
    else if bytes_eq in_inst (codes "set")
    then some set
    else if bytes_eq in_inst (codes "setb")
    then some setb
    else none

-- The arguments where there are three: two as `atol` reads them, and the text.
pub record Arguments : Type 0 where
  pub thread_num : ℕ
  pub port_num : ℕ
  pub in_inst : List ℕ

-- thread_work_len[i]
unfoldable pub thread_work_len : ℕ → Made → ℕ → ℕ
thread_work_len thread_num made i = length (made.database i) / thread_num

unfoldable pub sum_times : ℕ → (ℕ → ℕ) → ℕ
sum_times zero timelist = 0
sum_times (suc i) timelist = u64 (sum_times i timelist + timelist i)

-- `main` returns 0 after its usage message, -1 where the instruction is unknown, or prints the
-- average.
pub data Ended : Type 0 where
  usage bad_instruction : Ended
  average : ℕ → Ended

module _ (hash_func : List ℕ → ℕ) (kv_num memory : ℕ)
    (run : Arguments → Made → (ℕ → ℕ) → ℕ → ℕ) where
  -- What follows the arguments. With no port the remainder of a hash traps, with no thread the
  -- division of the work does.
  unfoldable pub run_all : Arguments → Option (List ℕ) → (ℕ → ℕ) → Outcome Ended
  run_all args content draw =
      if args.thread_num == 0 || args.port_num == 0
      then fault
      else (con_get_database hash_func args.port_num kv_num memory content draw >>= λ made. ok (
          average (
            sum_times args.thread_num (run args made (thread_work_len args.thread_num made))
            / args.thread_num)))

  unfoldable pub main : Option Arguments → Option (List ℕ) → (ℕ → ℕ) → Outcome Ended
  main none content draw = ok usage
  main (some args) content draw = elim (parse_inst args.in_inst) [
    | none ↦ ok bad_instruction
    | some inst ↦ run_all args content draw
  ]
