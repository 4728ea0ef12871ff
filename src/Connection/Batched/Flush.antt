-- ===== src/Connection/Batched/Flush.antt =====
-- server.cpp: a complete batch is written to its connection, in as many calls as the connection
-- needs.
use mathlib.Core.Path.{subst}
use multiport_network.Base.{
  ℕ, zero, suc, ◌-◌, ◌≤◌, ◌<◌, ◌≡◌, refl, sym, ap, ◌∙◌, false, ◌⊎◌, inl, inr, List, [], ◌∷◌, length,
  arith, drop, ◌==◌, if◌then◌else◌, Bool-cases,
}
use multiport_network.Base.Buffers.{slice}
use multiport_network.Interfaces.{Os, eagain}
use multiport_network.Connection.{Conn, BatchBuf, parse_head, conn_new_cmd, conn_waiting, ok}
use multiport_network.Connection.Batch.{
  send_batch, count_request, flush_front, write_failed, wrote_batch,
}
use multiport_network.Connection.Outbox.{AllFilled, unsent}
use multiport_network.Connection.Outbox.Flow.{wrote_batch-unsent, write_failed-bufs}
use multiport_network.Connection.Turns.Writes.{SameInput}
use multiport_network.Connection.Outbox.Queue.{Loaded}

-- There is more to write, and the connection waits until it can be written.
pub record IsHeldUp (c d : Conn) : Type 0 where
  pub waits : d.conn_state ≡ conn_waiting
  pub work : d.work_state ≡ c.work_state
  pub batching : d.in_batch_get ≡ c.in_batch_get
  pub count : d.batch_count ≡ c.batch_count
  pub num : d.batch_num ≡ c.batch_num
  pub loaded : Loaded d.batch_ret_vector
  pub some_left : 0 < length d.batch_ret_vector

-- The batch is over, and the next command is due.
pub record IsOver (d : Conn) : Type 0 where
  pub next : d.conn_state ≡ conn_new_cmd
  pub work : d.work_state ≡ parse_head
  pub batching : d.in_batch_get ≡ false
  pub count : d.batch_count ≡ 0
  pub num : d.batch_num ≡ 0
  pub no_bufs : d.batch_ret_vector ≡ []

-- The connection after a write that took `n` bytes.
abbrev pub written : Conn → BatchBuf → List BatchBuf → ℕ → ℕ → Conn
written c b rest n errno = if n == 0 then write_failed c errno else wrote_batch c b rest n

pub written-SameInput :
    (c : Conn) (b : BatchBuf) (rest : List BatchBuf) (n errno : ℕ)
    → SameInput c (written c b rest n errno)
unfolding write_failed wrote_batch
written-SameInput c b [] n errno = ground arith
written-SameInput c b (x ∷ xs) n errno = ground arith

pub written_cases :
    (c : Conn) (b : BatchBuf) (rest : List BatchBuf) (n errno : ℕ)
    → c.batch_ret_vector ≡ b ∷ rest
    → Loaded (b ∷ rest)
    → n ≤ b.datalen - b.offset
    → (n ≡ 0 → errno ≡ eagain)
    → IsHeldUp c (written c b rest n errno) ⊎ IsOver (written c b rest n errno)
unfolding write_failed wrote_batch
written_cases c b [] zero errno vec l le stalled = inl (ground (arith, stalled refl))
written_cases c b (x ∷ xs) zero errno vec l le stalled = inl (ground (arith, stalled refl))
written_cases c b [] (suc n) errno vec l le stalled =
    elim (Bool-cases (suc n == b.datalen - b.offset)) [
      | inl whole ↦ inr (ground arith)
      | inr part ↦ inl (ground arith)
    ]
written_cases c b (x ∷ xs) (suc n) errno vec l le stalled = inl (ground arith)

pub written-unsent :
    (c : Conn) (b : BatchBuf) (rest : List BatchBuf) (n errno : ℕ)
    → c.batch_ret_vector ≡ b ∷ rest
    → AllFilled (b ∷ rest)
    → n ≤ b.datalen - b.offset
    → (unsent (written c b rest n errno).batch_ret_vector ≡ drop n (unsent (b ∷ rest)))
      × AllFilled (written c b rest n errno).batch_ret_vector
written-unsent c b rest zero errno vec h le =
    let same = write_failed-bufs c errno ∙ vec in (ap unsent same, subst AllFilled (sym same) h)
written-unsent c b rest (suc n) errno vec h le =
    ground (arith, wrote_batch-unsent c b rest (suc n) h.0 h.1 le)

pub some_front :
    (bufs : List BatchBuf)
    → 0 < length bufs
    → (b : BatchBuf) × (rest : List BatchBuf) × (bufs ≡ b ∷ rest)
some_front [] h = absurd (omega arith)
some_front (b ∷ rest) h = (b, rest, refl)

module _ {Net : Type 0} (os : Os Net) where
  flush_front_with :
      (c : Conn) (bufs : List BatchBuf) (b : BatchBuf) (rest : List BatchBuf) (net : Net)
      → bufs ≡ b ∷ rest
      → let (reply, net') = os.write net c.sfd (slice b.buf b.offset (b.datalen - b.offset)) in
        flush_front os c bufs net ≡ ok (written c b rest reply.count reply.errno, net')
  unfolding flush_front
  flush_front_with c [] b rest net e = cc
  flush_front_with c (x ∷ xs) b rest net e = ground arith

  pub send_batch_full :
      (c : Conn) (b : BatchBuf) (rest : List BatchBuf) (net : Net)
      → c.batch_count ≡ c.batch_num
      → c.batch_ret_vector ≡ b ∷ rest
      → let (reply, net') = os.write net c.sfd (slice b.buf b.offset (b.datalen - b.offset)) in
        send_batch os c net ≡ ok (written (count_request c) b rest reply.count reply.errno, net')
  unfolding send_batch count_request
  send_batch_full c b rest net full vec =
      ground (
        arith,
        flush_front_with (count_request c) (count_request c).batch_ret_vector b rest net vec,
      )
