-- ===== src/MicroTest/Work.antt =====
-- micro_test/micro_test.cpp: the packages that a thread of `data_dispatch` has taken go to the
-- connections of their ports, and `clean` sends what is left.
use multiport_network.Base.{ℕ, zero, suc, ◌+◌, ◌*◌, List, length, get_or, ltb, ◌==◌, if◌then◌else◌}
use multiport_network.Base.Buffers.{slice}
use multiport_network.Interfaces.{Sockets}
use multiport_network.Connection.{Outcome, ok, fault, ◌>>=◌}
use multiport_network.MicroTest.{package_len, head_pre_hash, PackageObj}
use multiport_network.MicroTest.Sender.{Sender, fetch_and_send, clean}

-- GET_PACKAGE(buf, i)
unfoldable pub get_work_package : List ℕ → ℕ → PackageObj
get_work_package work_buf i = slice work_buf (i * package_len) package_len

-- The vector `cons` with one connection changed.
unfoldable pub set_con : (ℕ → Sender) → ℕ → Sender → ℕ → Sender
set_con cons i s k = if k == i then s else cons k

module _ {Net : Type 0} (so : Sockets Net) (connection_num : ℕ) where
  -- One package: `cons[pre_hash].fetch_and_send(p)`.
  unfoldable pub send_package : (ℕ → Sender) → PackageObj → Net → Outcome ((ℕ → Sender) × Net)
  send_package cons p net =
      let pre_hash = get_or p head_pre_hash 0 in
      if ltb pre_hash connection_num
      then (fetch_and_send so (cons pre_hash) p net >>= λ r. ok (set_con cons pre_hash r.1, r.2))
      else fault

  -- The loop over the `n` packages that are left of `work_buf`, from the `i`-th on.
  unfoldable pub send_work : List ℕ → ℕ → ℕ → (ℕ → Sender) → Net → Outcome ((ℕ → Sender) × Net)
  send_work work_buf zero i cons net = ok (cons, net)
  send_work work_buf (suc n) i cons net =
      if ltb (length work_buf) ((i + 1) * package_len)
      then fault
      else (send_package cons (get_work_package work_buf i) net >>= λ r.
          send_work work_buf n (i + 1) r.0 r.1)

  -- The loop of `clean`, over the `n` connections from the `i`-th on.
  unfoldable pub clean_all : ℕ → ℕ → (ℕ → Sender) → Net → Outcome ((ℕ → Sender) × Net)
  clean_all zero i cons net = ok (cons, net)
  clean_all (suc n) i cons net =
      clean so (cons i) net >>= λ r. clean_all n (i + 1) (set_con cons i r.0) r.1
