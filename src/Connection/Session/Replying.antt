-- ===== src/Connection/Session/Replying.antt =====
-- server.cpp: the reply to a GET outside a batch is written, in as many calls as it needs.
use mathlib.Core.Path.{subst, ap₂}
use native.Mathlib.Decide.{dec_lt}
use multiport_network.Base.{
  ℕ, zero, suc, ◌+◌, ◌≤◌, ◌<◌, ◌≡◌, refl, sym, ap, ◌∙◌, false, ◌⊎◌, inl, inr, List, ◌++◌, length,
  length-drop, append_assoc, append-nil, arith, take, drop, take-append-drop, ◌==◌, if◌then◌else◌,
  Bool-cases,
}
use multiport_network.Base.Buffers.{length-slice}
use multiport_network.Interfaces.{Os, OsLaws, HashTable, Feeds, Moves, eagain}
use multiport_network.Connection.{
  Conn, conn_deal_with, conn_waiting, conn_new_cmd, parse_head, write_bcak, init_ret_buf_size, ok,
  ◌>>=◌, pending,
}
use multiport_network.Connection.Process.{Turn, deal_with, write_back, wrote}
use multiport_network.Connection.Batch.{send_batch}
use multiport_network.Connection.Buffered.{IsBuffered}
use multiport_network.Connection.Limits.{reply_unsent, wrote-reply_unsent}
use multiport_network.Connection.Turns.{Runs, done, Runs-deal}
use multiport_network.Connection.Turns.Reading.{stream}
use multiport_network.Connection.Turns.Gathering.{more_comes}
use multiport_network.Connection.Turns.Writes.{
  SameInput, SameInput-IsBuffered, pending-SameInput, resumed, resume,
}
use multiport_network.Connection.Session.{InSession}

wrote-SameInput : (c : Conn) (n errno : ℕ) → SameInput c (wrote c n errno)
unfolding wrote
wrote-SameInput c zero errno = ground arith
wrote-SameInput c (suc n) errno = ground arith

-- The reply buffer is where it was.
record SameReply (c d : Conn) : Type 0 where
  single : d.in_batch_get ≡ c.in_batch_get
  ret_buf : d.ret_buf ≡ c.ret_buf
  ret_size : d.ret_buf_size ≡ c.ret_buf_size

wrote-SameReply : (c : Conn) (n errno : ℕ) → SameReply c (wrote c n errno)
unfolding wrote
wrote-SameReply c zero errno = ground arith
wrote-SameReply c (suc n) errno = ground arith

-- More of the reply is to be written.
record IsHalf (c d : Conn) : Type 0 where
  waits : d.conn_state ≡ conn_waiting
  work : d.work_state ≡ c.work_state
  bound : d.ret_buf_offset + d.ret_bytes ≡ c.ret_buf_offset + c.ret_bytes
  some_left : 0 < d.ret_bytes

-- All of it was written.
record IsWhole (d : Conn) : Type 0 where
  next : d.conn_state ≡ conn_new_cmd
  work : d.work_state ≡ parse_head
  start : d.ret_buf_offset ≡ 0
  unused : d.ret_bytes ≡ 0

wrote_cases :
    (c : Conn) (n errno : ℕ)
    → 0 < c.ret_bytes
    → n ≤ c.ret_bytes
    → (n ≡ 0 → errno ≡ eagain)
    → IsHalf c (wrote c n errno) ⊎ IsWhole (wrote c n errno)
unfolding wrote
wrote_cases c zero errno some_left le stalled = inl (ground (arith, stalled refl))
wrote_cases c (suc n) errno some_left le stalled = elim (Bool-cases (suc n == c.ret_bytes)) [
  | inl all_sent ↦ inr (ground arith)
  | inr part ↦ inl (ground arith)
]

module _ {Net : Type 0} (os : Os Net) where
  write_back_lem :
      (c : Conn) (net : Net)
      → c.ret_buf_offset + c.ret_bytes ≤ c.ret_buf_size
      → let (reply, net') = os.write net c.sfd (reply_unsent c) in
        write_back os c net ≡ ok (wrote c reply.count reply.errno, net')
  unfolding write_back
  write_back_lem c net inside = ground arith

module _ {Net Map : Type 0} (os : Os Net) (ht : HashTable Map)
    (incoming sent : Net → ℕ → List ℕ) where
  -- A reply that is being written: what was sent and what is to be sent are `total`.
  pub record IsReplying (table : Map) (total input : List ℕ) (t : Turn Net Map) : Type 0 where
    pub running : t.stop ≡ false
    pub dealing : t.conn.conn_state ≡ conn_deal_with
    pub work : t.conn.work_state ≡ write_bcak
    pub buffered : IsBuffered t.conn
    pub single : t.conn.in_batch_get ≡ false
    pub held : length t.conn.ret_buf ≡ t.conn.ret_buf_size
    pub room : t.conn.ret_buf_size ≡ init_ret_buf_size
    pub inside : t.conn.ret_buf_offset + t.conn.ret_bytes ≤ t.conn.ret_buf_size
    pub some_left : 0 < t.conn.ret_bytes
    pub total_is : sent t.net t.conn.sfd ++ reply_unsent t.conn ≡ total
    pub input_is : stream os ht incoming sent t ≡ input
    pub table_is : t.table ≡ table

  module _ (laws : OsLaws os) (stalls : Net → ℕ) (moves : Moves os sent stalls)
      (feeds : Feeds os incoming sent) where
    -- One write.
    module _ (table : Map) (total input : List ℕ) (t : Turn Net Map)
        (w : IsReplying table total input t) where
      abbrev bytes : List ℕ
      bytes = reply_unsent t.conn

      abbrev n : ℕ
      n = (os.write t.net t.conn.sfd bytes).0.count

      abbrev net' : Net
      net' = (os.write t.net t.conn.sfd bytes).1

      abbrev c' : Conn
      c' = wrote t.conn n (os.write t.net t.conn.sfd bytes).0.errno

      length-bytes : length bytes ≡ t.conn.ret_bytes
      length-bytes =
          length-slice t.conn.ret_buf t.conn.ret_buf_offset t.conn.ret_bytes
            (omega (arith, w.inside, w.held))

      bound : n ≤ t.conn.ret_bytes
      bound = omega (arith, laws.write_bound t.net t.conn.sfd bytes, length-bytes)

      waits :
          n ≡ 0
          → ((os.write t.net t.conn.sfd bytes).0.errno ≡ eagain) × (stalls net' < stalls t.net)
      waits none_taken =
          moves.write_waits t.net t.conn.sfd bytes (omega (arith, length-bytes, w.some_left))
            none_taken

      left : reply_unsent c' ≡ drop n bytes
      left = wrote-reply_unsent t.conn n (os.write t.net t.conn.sfd bytes).0.errno bound

      kept : SameInput t.conn c'
      kept = wrote-SameInput t.conn n (os.write t.net t.conn.sfd bytes).0.errno

      same : SameReply t.conn c'
      same = wrote-SameReply t.conn n (os.write t.net t.conn.sfd bytes).0.errno

      after_total : sent net' c'.sfd ++ reply_unsent c' ≡ total
      after_total =
          let before = sent t.net t.conn.sfd in
          ap₂ (λ xs ys. xs ++ ys) (ap (sent net') kept.fd ∙ moves.write_self t.net t.conn.sfd bytes)
            left
          ∙ append_assoc before (take n bytes) (drop n bytes)
          ∙ ap (◌++◌ before) (take-append-drop n bytes)
          ∙ w.total_is

      after_input : pending c' ++ incoming net' c'.sfd ≡ input
      after_input =
          ap₂ (λ xs ys. xs ++ ys) (pending-SameInput t.conn c' kept)
            (ap (incoming net') kept.fd ∙ feeds.write_quiet t.net t.conn.sfd bytes)
          ∙ w.input_is

      fewer : length (reply_unsent c') + stalls net' < length bytes + stalls t.net
      fewer = elim (dec_lt 0 n) [
        | yes some_taken ↦ omega (
          arith,
          moves.write_moves t.net t.conn.sfd bytes some_taken,
          ap length left,
          length-drop n bytes,
          length-bytes,
          w.some_left,
        )
        | no none_taken ↦
            omega (arith, (waits (omega arith)).1, ap length left, length-drop n bytes)
      ]

      sends : deal_with os ht write_bcak t.conn t.net t.table ≡ ok (c', net', t.table)
      unfolding deal_with
      sends =
          ap
            (λ x. (if x then send_batch os t.conn t.net else write_back os t.conn t.net) >>= λ y.
              ok (y.0, y.1, t.table))
            w.single
          ∙ ap (λ x. x >>= λ y. ok (y.0, y.1, t.table)) (write_back_lem os t.conn t.net w.inside)

    pub reply_sent :
        (k : ℕ) (table : Map) (total input : List ℕ) (t : Turn Net Map)
        → IsReplying table total input t
        → 1000 < length input
        → length (reply_unsent t.conn) + stalls t.net < k
        → (u : Turn Net Map) × Runs os ht incoming t u
          × InSession os ht incoming sent conn_new_cmd parse_head t.conn.sfd table total input u
    reply_sent zero table total input t w much enough = absurd (omega arith)
    reply_sent (suc k) table total input t w much enough =
        let c = c' table total input t w in
        let x = record t { conn = c; net = net' table total input t w } in
        let k1 = kept table total input t w in
        let k2 = same table total input t w in
        let v = SameInput-IsBuffered t.conn c k1 w.buffered in
        let errno = (os.write t.net t.conn.sfd (reply_unsent t.conn)).0.errno in
        let run : (u : Turn Net Map) → Runs os ht incoming x u → Runs os ht incoming t u = λ u r.
          Runs-deal os ht incoming write_bcak t (x.conn, x.net, t.table) u w.running w.dealing
            w.work (sends table total input t w) r in
        elim (wrote_cases t.conn (n table total input t w) errno w.some_left
          (bound table total input t w) (λ e. (waits table total input t w e).0)) [
            | inl half ↦
                let (u, r, d) =
                  reply_sent k table total input (resumed os ht x)
                    (record {
                      running = refl;
                      dealing = refl;
                      work = half.work ∙ w.work;
                      buffered = record { size = v.size; held = v.held; fits = v.fits };
                      single = k2.single ∙ w.single;
                      held = ap length k2.ret_buf ∙ w.held ∙ sym k2.ret_size;
                      room = k2.ret_size ∙ w.room;
                      inside = omega (arith, half.bound, w.inside, k2.ret_size);
                      some_left = half.some_left;
                      total_is = after_total table total input t w;
                      input_is = after_input table total input t w;
                      table_is = w.table_is;
                    })
                    much (omega (arith, fewer table total input t w)) in
                (
                  u,
                  run u (
                      resume os ht incoming x u
                        (more_comes os ht incoming sent x v
                          (omega (arith, ap length (after_input table total input t w))))
                        w.running half.waits (half.work ∙ w.work) r),
                  subst
                      (λ fd.
                        InSession os ht incoming sent conn_new_cmd parse_head fd table total input
                          u)
                      k1.fd d,
                )
            | inr whole ↦ (
              x,
              run x (done x),
              record {
                running = w.running;
                state = whole.next;
                work = whole.work;
                buffered = v;
                fd_is = k1.fd;
                single = k2.single ∙ w.single;
                start = whole.start;
                unused = whole.unused;
                held = ap length k2.ret_buf ∙ w.held ∙ sym k2.ret_size;
                room = k2.ret_size ∙ w.room;
                input_is = after_input table total input t w;
                sent_is =
                    sym (append-nil (sent x.net c.sfd))
                    ∙ ap (λ m. sent x.net c.sfd ++ take m (drop c.ret_buf_offset c.ret_buf))
                        (sym whole.unused)
                    ∙ after_total table total input t w;
                table_is = w.table_is;
              },
            )
          ]
