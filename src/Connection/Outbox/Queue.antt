-- ===== src/Connection/Outbox/Queue.antt =====
-- The buffers of a batch of server.cpp while its replies are gathered: nothing is sent yet, and
-- only the last buffer may be empty.
use multiport_network.Base.{
  ◌+◌, ◌≤◌, ◌<◌, ◌≡◌, refl, ◌∙◌, true, Option, none, some, List, [], ◌∷◌, ◌++◌, arith, length,
}
use multiport_network.Protocol.{head_len}
use multiport_network.Connection.{Conn, BatchBuf, ok, batch_buf_size}
use multiport_network.Connection.Parse.{new_batchbuf}
use multiport_network.Connection.Reply.{
  back, set_back, reserve, packed, packet_len, appended, append_packet, batch_reply, con_ret_buf,
}
use multiport_network.Connection.Outbox.Flow.{
  answer_hit, target, target_room, reserve_room, append_packet_room,
}

abbrev pub Queued : List BatchBuf → Type 0
Queued [] = ⊥
Queued (b ∷ []) = b.offset ≡ 0
Queued (b ∷ c ∷ bs) = (b.offset ≡ 0) × (0 < b.datalen) × Queued (c ∷ bs)

-- Every buffer has something to send.
abbrev pub Loaded : List BatchBuf → Type 0
Loaded [] = Unit {0}
Loaded (b ∷ bs) = (b.offset < b.datalen) × Loaded bs

pub Queued-some : (bufs : List BatchBuf) → Queued bufs → 0 < length bufs
Queued-some [] q = absurd q
Queued-some (b ∷ bs) q = omega arith

set_back-Queued :
    (bufs : List BatchBuf) (x : BatchBuf) → Queued bufs → x.offset ≡ 0 → Queued (set_back bufs x)
unfolding set_back
set_back-Queued [] x q e = q
set_back-Queued (b ∷ []) x q e = e
set_back-Queued (b ∷ c ∷ []) x q e = (q.0, q.1, e)
set_back-Queued (b ∷ c ∷ d ∷ bs) x q e = (q.0, q.1, set_back-Queued (c ∷ d ∷ bs) x q.2 e)

set_back-Loaded :
    (bufs : List BatchBuf) (x : BatchBuf)
    → Queued bufs
    → x.offset < x.datalen
    → Loaded (set_back bufs x)
unfolding set_back
set_back-Loaded [] x q e = absurd q
set_back-Loaded (b ∷ []) x q e = (e, tt)
set_back-Loaded (b ∷ c ∷ bs) x q e = (omega arith, set_back-Loaded (c ∷ bs) x q.2 e)

Queued-append :
    (bufs : List BatchBuf) (b x : BatchBuf)
    → Queued bufs
    → back bufs ≡ some b
    → 0 < b.datalen
    → x.offset ≡ 0
    → Queued (bufs ++ x ∷ [])
unfolding back
Queued-append [] b x q e some_in o = o
Queued-append (c ∷ []) b x q e some_in o = (q, ground arith, o)
Queued-append (c ∷ d ∷ []) b x q e some_in o =
    (q.0, q.1, Queued-append (d ∷ []) b x q.2 e some_in o)
Queued-append (c ∷ d ∷ f ∷ bs) b x q e some_in o =
    (q.0, q.1, Queued-append (d ∷ f ∷ bs) b x q.2 e some_in o)

back-offset :
    (bufs : List BatchBuf) (b : BatchBuf) → Queued bufs → back bufs ≡ some b → b.offset ≡ 0
unfolding back
back-offset [] b q e = absurd q
back-offset (c ∷ []) b q e = ground arith
back-offset (c ∷ d ∷ bs) b q e = back-offset (d ∷ bs) b q.2 e

back-some : (bufs : List BatchBuf) → Queued bufs → (b : BatchBuf) × (back bufs ≡ some b)
unfolding back
back-some [] q = absurd q
back-some (b ∷ []) q = (b, refl)
back-some (b ∷ c ∷ bs) q = back-some (c ∷ bs) q.2

reserve-Queued :
    (c : Conn) (b : BatchBuf)
    → Queued c.batch_ret_vector
    → back c.batch_ret_vector ≡ some b
    → head_len + length c.key + length c.value ≤ batch_buf_size
    → Queued (reserve c b) × ((target c b).offset ≡ 0)
unfolding reserve target
reserve-Queued c b q e fits = ground (
  arith,
  Queued-append c.batch_ret_vector b new_batchbuf q e,
  back-offset c.batch_ret_vector b q e,
)

batch_reply_with :
    (c : Conn) (o : Option BatchBuf) (b : BatchBuf)
    → o ≡ some b
    → batch_reply c o ≡ append_packet c (reserve c b) (back (reserve c b))
unfolding batch_reply
batch_reply_with c none b e = cc
batch_reply_with c (some x) b e = ground arith

-- The reply to a hit that fits an empty buffer is appended, and then no buffer is empty.
pub record Answers (c : Conn) (c' : Conn) : Type 0 where
  pub bufs : List BatchBuf
  pub last : BatchBuf
  pub returns : con_ret_buf c ≡ ok c'
  pub same : c' ≡ appended c bufs last
  pub queued : Queued (set_back bufs (packed c last))
  pub loaded : Loaded (set_back bufs (packed c last))

pub con_ret_buf-Answers :
    (c : Conn)
    → c.in_batch_get ≡ true
    → Queued c.batch_ret_vector
    → c.query_hit ≡ true
    → head_len + length c.key + length c.value ≤ batch_buf_size
    → (c' : Conn) × Answers c c'
unfolding con_ret_buf packed packet_len
con_ret_buf-Answers c batching q hit fits =
    let (b, e) = back-some c.batch_ret_vector q in
    let (queued, start) = reserve-Queued c b q e fits in
    let bufs = reserve c b in
    let last = target c b in
    let returns : batch_reply c (back c.batch_ret_vector) ≡ ok (appended c bufs last) =
      batch_reply_with c (back c.batch_ret_vector) b e
      ∙ append_packet_room c bufs last (back bufs) (reserve_room c b e)
          (target_room c b (answer_hit c hit) fits) in
    (
      appended c bufs last,
      record {
        bufs = bufs;
        last = last;
        returns = ground arith;
        same = refl;
        queued = set_back-Queued bufs (packed c last) queued start;
        loaded = set_back-Loaded bufs (packed c last) queued (omega arith);
      },
    )
