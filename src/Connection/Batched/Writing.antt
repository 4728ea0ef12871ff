-- ===== src/Connection/Batched/Writing.antt =====
-- server.cpp: one write of a complete batch.
use mathlib.Core.Path.{ap₂}
use multiport_network.Base.{
  ℕ, ◌+◌, ◌-◌, ◌≤◌, ◌<◌, ◌≡◌, sym, ap, ◌∙◌, true, false, ◌⊎◌, inl, inr, List, ◌∷◌, ◌++◌, length,
  length-append, length-drop, append_assoc, arith, take, drop, take-append-drop, take-append_le,
  take_all, if◌then◌else◌,
}
use native.Mathlib.Decide.{dec_lt}
use multiport_network.Base.Buffers.{slice}
use multiport_network.Interfaces.{Os, OsLaws, HashTable, Feeds, Moves, eagain}
use multiport_network.Connection.{Conn, BatchBuf, write_bcak, conn_deal_with, ok, ◌>>=◌, pending}
use multiport_network.Connection.Process.{Turn, deal_with, write_back}
use multiport_network.Connection.Buffered.{IsBuffered}
use multiport_network.Connection.Batch.{send_batch, count_request}
use multiport_network.Connection.Outbox.{AllFilled, unsent}
use multiport_network.Connection.Outbox.Queue.{Loaded}
use multiport_network.Connection.Turns.Writes.{SameInput, SameInput-IsBuffered, pending-SameInput}
use multiport_network.Connection.Turns.Reading.{stream}
use multiport_network.Connection.Batched.Flush.{
  IsHeldUp, IsOver, written, written-SameInput, written_cases, written-unsent, send_batch_full,
}

module _ {Net Map : Type 0} (os : Os Net) (ht : HashTable Map)
    (incoming sent : Net → ℕ → List ℕ) where
  -- A complete batch that is being written: what was sent and what is to be sent are `total`.
  pub record IsWriting (table : Map) (total input : List ℕ) (b : BatchBuf) (rest : List BatchBuf)
      (t : Turn Net Map) : Type 0 where
    pub running : t.stop ≡ false
    pub dealing : t.conn.conn_state ≡ conn_deal_with
    pub work : t.conn.work_state ≡ write_bcak
    pub buffered : IsBuffered t.conn
    pub batching : t.conn.in_batch_get ≡ true
    pub full : t.conn.batch_count ≡ t.conn.batch_num
    pub bufs : t.conn.batch_ret_vector ≡ b ∷ rest
    pub filled : AllFilled (b ∷ rest)
    pub loaded : Loaded (b ∷ rest)
    pub total_is : sent t.net t.conn.sfd ++ unsent (b ∷ rest) ≡ total
    pub input_is : stream os ht incoming sent t ≡ input
    pub table_is : t.table ≡ table

  -- All of it was sent.
  pub record IsDelivered (fd : ℕ) (table : Map) (total input : List ℕ) (u : Turn Net Map)
      : Type 0 where
    pub running : u.stop ≡ false
    pub buffered : IsBuffered u.conn
    pub fd_is : u.conn.sfd ≡ fd
    pub over : IsOver u.conn
    pub total_is : sent u.net fd ≡ total
    pub input_is : stream os ht incoming sent u ≡ input
    pub table_is : u.table ≡ table

  module _ (laws : OsLaws os) (stalls : Net → ℕ) (moves : Moves os sent stalls)
      (feeds : Feeds os incoming sent) where
    -- One write of the front buffer.
    module _ (table : Map) (total input : List ℕ) (b : BatchBuf) (rest : List BatchBuf)
        (t : Turn Net Map) (w : IsWriting table total input b rest t) where
      abbrev pub bytes : List ℕ
      bytes = slice b.buf b.offset (b.datalen - b.offset)

      abbrev pub n : ℕ
      n = (os.write t.net t.conn.sfd bytes).0.count

      abbrev pub net' : Net
      net' = (os.write t.net t.conn.sfd bytes).1

      abbrev pub c' : Conn
      c' = written (count_request t.conn) b rest n (os.write t.net t.conn.sfd bytes).0.errno

      abbrev pub after : Turn Net Map
      after = record t { conn = c'; net = net' }

      whole : bytes ≡ drop b.offset b.buf
      whole =
          take_all (b.datalen - b.offset) (drop b.offset b.buf)
            (omega (arith, length-drop b.offset b.buf, w.filled.0.held))

      length-bytes : length bytes ≡ b.datalen - b.offset
      length-bytes = omega (arith, ap length whole, length-drop b.offset b.buf, w.filled.0.held)

      bound : n ≤ b.datalen - b.offset
      bound = omega (arith, laws.write_bound t.net t.conn.sfd bytes, length-bytes)

      stalled : n ≡ 0 → (os.write t.net t.conn.sfd bytes).0.errno ≡ eagain
      stalled none_taken =
          (moves.write_waits t.net t.conn.sfd bytes (omega (arith, length-bytes, w.loaded.0))
            none_taken).0

      pub left :
          (unsent c'.batch_ret_vector ≡ drop n (unsent (b ∷ rest))) × AllFilled c'.batch_ret_vector
      unfolding count_request
      left =
          written-unsent (count_request t.conn) b rest n (os.write t.net t.conn.sfd bytes).0.errno
            w.bufs w.filled bound

      pub kept : SameInput t.conn c'
      unfolding count_request
      kept =
          let k =
            written-SameInput (count_request t.conn) b rest n
              (os.write t.net t.conn.sfd bytes).0.errno in
          record {
            fd = k.fd;
            size = k.size;
            buf = k.buf;
            working = k.working;
            remaining = k.remaining;
          }

      pub after-IsBuffered : IsBuffered c'
      after-IsBuffered = SameInput-IsBuffered t.conn c' kept w.buffered

      -- No byte is lost between what was sent and what is to be sent.
      pub after_total : sent net' c'.sfd ++ unsent c'.batch_ret_vector ≡ total
      after_total =
          let k = kept in
          let before = sent t.net t.conn.sfd in
          let todo = unsent (b ∷ rest) in
          ap₂ (λ xs ys. xs ++ ys)
            (ap (sent net') k.fd
              ∙ moves.write_self t.net t.conn.sfd bytes
              ∙ ap (◌++◌ before) (
                  ap (take n) whole
                  ∙ sym (
                      take-append_le n (drop b.offset b.buf) (unsent rest)
                        (omega (arith, bound, ap length whole, length-bytes)))))
            left.0
          ∙ append_assoc before (take n todo) (drop n todo)
          ∙ ap (◌++◌ before) (take-append-drop n todo)
          ∙ w.total_is

      pub after_input : pending c' ++ incoming net' c'.sfd ≡ input
      after_input =
          let k = kept in
          ap₂ (λ xs ys. xs ++ ys) (pending-SameInput t.conn c' k)
            (ap (incoming net') k.fd ∙ feeds.write_quiet t.net t.conn.sfd bytes)
          ∙ w.input_is

      -- The bytes to send and the refusals to come are fewer.
      pub fewer :
          length (unsent c'.batch_ret_vector) + stalls net'
          < length (unsent (b ∷ rest)) + stalls t.net
      fewer = elim (dec_lt 0 n) [
        | yes some_taken ↦ omega (
          arith,
          moves.write_moves t.net t.conn.sfd bytes some_taken,
          ap length left.0,
          length-drop n (unsent (b ∷ rest)),
          length-append (drop b.offset b.buf) (unsent rest),
          ap length whole,
          length-bytes,
          bound,
        )
        | no none_taken ↦ omega (
          arith,
          (moves.write_waits t.net t.conn.sfd bytes (omega (arith, length-bytes, w.loaded.0))
              (omega arith)).1,
          ap length left.0,
          length-drop n (unsent (b ∷ rest)),
        )
      ]

      pub cases : IsHeldUp t.conn c' ⊎ IsOver c'
      unfolding count_request
      cases =
          elim (written_cases (count_request t.conn) b rest n
            (os.write t.net t.conn.sfd bytes).0.errno w.bufs w.loaded bound stalled) [
              | inl h ↦ inl (record {
                waits = h.waits;
                work = h.work;
                batching = h.batching;
                count = h.count;
                num = h.num;
                loaded = h.loaded;
                some_left = h.some_left;
              })
              | inr o ↦ inr o
            ]

      pub sends : deal_with os ht write_bcak t.conn t.net t.table ≡ ok (c', net', t.table)
      unfolding deal_with count_request
      sends =
          ap
            (λ x. (if x then send_batch os t.conn t.net else write_back os t.conn t.net) >>= λ y.
              ok (y.0, y.1, t.table))
            w.batching
          ∙ ap (λ x. x >>= λ y. ok (y.0, y.1, t.table))
              (send_batch_full os t.conn b rest t.net w.full w.bufs)
