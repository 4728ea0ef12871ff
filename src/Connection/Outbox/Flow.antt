-- ===== src/Connection/Outbox/Flow.antt =====
-- `con_ret_buf` and `send_batch` of server.cpp on the bytes that a batch has still to send.
use multiport_network.Base.{
  ℕ, ◌+◌, ◌-◌, ◌≤◌, ◌<◌, ◌≡◌, refl, ap, true, false, Option, none, some, List, [], ◌∷◌, ◌++◌, arith,
  length, drop, length-drop, drop-drop, drop-append, drop-append_le, take_all, ltb, if◌then◌else◌,
}
use multiport_network.Base.Buffers.{slice}
use multiport_network.Protocol.{head_len}
use multiport_network.Interfaces.{Os, OsLaws}
use multiport_network.Connection.{Conn, BatchBuf, ok, fault, batch_buf_size}
use multiport_network.Connection.Parse.{new_batchbuf}
use multiport_network.Connection.Reply.{
  back, packet_len, reserve, appended, append_packet, batch_reply, con_ret_buf, answer,
}
use multiport_network.Connection.Batch.{
  flush_front, wrote_batch, write_failed, send_batch, count_request,
}
use multiport_network.Connection.Outbox.{
  IsFilled, AllFilled, unsent, Appends, append_packet-Appends, reserve-unsent, reserve-AllFilled,
  back-append, back-none,
}

batch_reply-Appends :
    (c c' : Conn) (o : Option BatchBuf)
    → AllFilled c.batch_ret_vector
    → batch_reply c o ≡ ok c'
    → Appends c c'
unfolding batch_reply
batch_reply-Appends c c' none h e = cc
batch_reply-Appends c c' (some b) h e =
    append_packet-Appends c c' (reserve c b) (back (reserve c b)) refl (reserve-AllFilled c b h)
      (reserve-unsent c b) e

pub con_ret_buf-Appends :
    (c c' : Conn)
    → c.in_batch_get ≡ true
    → AllFilled c.batch_ret_vector
    → con_ret_buf c ≡ ok c'
    → Appends c c'
unfolding con_ret_buf
con_ret_buf-Appends c c' b h e =
    ground (arith, batch_reply-Appends c c' (back c.batch_ret_vector) h)

pub append_packet_room :
    (c : Conn) (bufs : List BatchBuf) (b : BatchBuf) (o : Option BatchBuf)
    → o ≡ some b
    → b.datalen + packet_len c ≤ batch_buf_size
    → append_packet c bufs o ≡ ok (appended c bufs b)
unfolding append_packet
append_packet_room c bufs b none e h = cc
append_packet_room c bufs b (some x) e h = ground arith

-- The buffer that takes the packet.
unfoldable pub target : Conn → BatchBuf → BatchBuf
target c b =
    if ltb batch_buf_size (b.datalen + head_len + length c.key + length c.value)
    then new_batchbuf
    else b

pub reserve_room :
    (c : Conn) (b : BatchBuf)
    → back c.batch_ret_vector ≡ some b
    → (back (reserve c b) ≡ some (target c b))
unfolding reserve target
reserve_room c b last = ground (arith, back-append c.batch_ret_vector new_batchbuf)

pub target_room :
    (c : Conn) (b : BatchBuf)
    → length (answer c) ≤ length c.value
    → head_len + length c.key + length c.value ≤ batch_buf_size
    → (target c b).datalen + packet_len c ≤ batch_buf_size
unfolding target packet_len
target_room c b no_longer fits = ground arith

batch_reply_room :
    (c : Conn) (o : Option BatchBuf)
    → back c.batch_ret_vector ≡ o
    → 0 < length c.batch_ret_vector
    → length (answer c) ≤ length c.value
    → head_len + length c.key + length c.value ≤ batch_buf_size
    → (c' : Conn) × (batch_reply c o ≡ ok c')
unfolding batch_reply
batch_reply_room c none last some_buf no_longer fits =
    absurd (omega (arith, back-none c.batch_ret_vector last))
batch_reply_room c (some b) last some_buf no_longer fits = (
  appended c (reserve c b) (target c b),
  append_packet_room c (reserve c b) (target c b) (back (reserve c b)) (reserve_room c b last)
      (target_room c b no_longer fits),
)

-- Within a batch that has a buffer, and whose buffers are within their allocations, `con_ret_buf`
-- returns for every reply that is no longer than the value last read and would fit an empty buffer:
-- it has appended the reply to the bytes that are to be sent, whether it fits the last buffer or
-- takes a new one; every buffer stays within its allocation; and the reply is counted.
pub con_ret_buf_fits-Appends :
    (c : Conn)
    → c.in_batch_get ≡ true
    → 0 < length c.batch_ret_vector
    → AllFilled c.batch_ret_vector
    → length (answer c) ≤ length c.value
    → head_len + length c.key + length c.value ≤ batch_buf_size
    → (c' : Conn) × (con_ret_buf c ≡ ok c') × Appends c c'
unfolding con_ret_buf
con_ret_buf_fits-Appends c b some_buf h no_longer fits =
    let (c', e) = batch_reply_room c (back c.batch_ret_vector) refl some_buf no_longer fits in
    let returns : con_ret_buf c ≡ ok c' = ground arith in
    (c', returns, con_ret_buf-Appends c c' b h returns)

pub answer_hit : (c : Conn) → c.query_hit ≡ true → length (answer c) ≤ length c.value
unfolding answer
answer_hit c hit = ground arith

pub con_ret_buf_hit_fits :
    (c : Conn)
    → c.in_batch_get ≡ true
    → 0 < length c.batch_ret_vector
    → c.query_hit ≡ true
    → head_len + length c.key + length c.value ≤ batch_buf_size
    → (c' : Conn) × (con_ret_buf c ≡ ok c')
unfolding con_ret_buf
con_ret_buf_hit_fits c b some_buf hit fits =
    let (c', e) =
      batch_reply_room c (back c.batch_ret_vector) refl some_buf (answer_hit c hit) fits in
    (c', ground arith)

-- The reply to a miss may not fit: where the last buffer has room for the packet as it would be with
-- the value that the connection last read, and not for NOTFOUND, the write leaves the buffer.
pub con_ret_buf_miss_overflows :
    (c : Conn) (b : BatchBuf)
    → c.in_batch_get ≡ true
    → back c.batch_ret_vector ≡ some b
    → c.query_hit ≡ false
    → b.datalen + head_len + length c.key + length c.value ≤ batch_buf_size
    → batch_buf_size < b.datalen + head_len + length c.key + 8
    → con_ret_buf c ≡ fault
unfolding con_ret_buf batch_reply reserve append_packet packet_len answer
con_ret_buf_miss_overflows c b in_batch last miss old over = ground arith

pub wrote_batch-unsent :
    (c : Conn) (b : BatchBuf) (rest : List BatchBuf) (n : ℕ)
    → IsFilled b
    → AllFilled rest
    → n ≤ b.datalen - b.offset
    → (unsent (wrote_batch c b rest n).batch_ret_vector ≡ drop n (unsent (b ∷ rest)))
      × AllFilled (wrote_batch c b rest n).batch_ret_vector
unfolding wrote_batch
wrote_batch-unsent c b [] n f h le = ground (
  arith,
  length-drop b.offset b.buf,
  drop-append n (drop b.offset b.buf) [],
  drop-append_le n (drop b.offset b.buf) [],
  drop-drop b.offset n (b.offset + n) b.buf,
)
wrote_batch-unsent c b (x ∷ xs) n f h le = ground (
  arith,
  length-drop b.offset b.buf,
  drop-append n (drop b.offset b.buf) (unsent (x ∷ xs)),
  drop-append_le n (drop b.offset b.buf) (unsent (x ∷ xs)),
  drop-drop b.offset n (b.offset + n) b.buf,
)

pub write_failed-bufs :
    (c : Conn) (e : ℕ) → (write_failed c e).batch_ret_vector ≡ c.batch_ret_vector
unfolding write_failed
write_failed-bufs c e = ground arith

module _ {Net : Type 0} (os : Os Net) (laws : OsLaws os) where
  module _ (b : BatchBuf) (rest : List BatchBuf) (filled : AllFilled (b ∷ rest)) where
    abbrev pub front : List ℕ
    front = slice b.buf b.offset (b.datalen - b.offset)

    pub front_whole : front ≡ drop b.offset b.buf
    front_whole =
        take_all (b.datalen - b.offset) (drop b.offset b.buf)
          (omega (arith, length-drop b.offset b.buf, filled.0.held))

    front_bound : (net : Net) (fd : ℕ) → (os.write net fd front).0.count ≤ b.datalen - b.offset
    front_bound net fd = omega (
      arith,
      laws.write_bound net fd front,
      ap length front_whole,
      length-drop b.offset b.buf,
      filled.0.held,
    )

    flush_front-unsent :
        (c : Conn) (net : Net) (bufs : List BatchBuf) (r : Conn × Net)
        → bufs ≡ b ∷ rest
        → c.batch_ret_vector ≡ b ∷ rest
        → flush_front os c bufs net ≡ ok r
        → (r.1 ≡ (os.write net c.sfd front).1)
          × (unsent r.0.batch_ret_vector
              ≡ drop (os.write net c.sfd front).0.count (unsent (b ∷ rest)))
          × AllFilled r.0.batch_ret_vector
    unfolding flush_front
    flush_front-unsent c net [] r same vec e = cc
    flush_front-unsent c net (x ∷ xs) r same vec e =
        let reply = (os.write net c.sfd front).0 in
        ground (
          arith,
          write_failed-bufs c reply.errno,
          wrote_batch-unsent c b rest reply.count filled.0 filled.1 (front_bound net c.sfd),
        )

  -- Over sockets that keep `OsLaws`, one call of `send_batch` for a batch that is complete and
  -- whose buffers are within their allocations: `write` is handed the unsent bytes of the first
  -- buffer, and what it accepts is taken off the front of what is to be sent; all that remains is
  -- kept in order, also where the write fails.
  pub send_batch-unsent :
      (c : Conn) (net : Net) (b : BatchBuf) (rest : List BatchBuf) (r : Conn × Net)
      → c.batch_ret_vector ≡ b ∷ rest
      → AllFilled (b ∷ rest)
      → c.batch_count ≡ c.batch_num
      → send_batch os c net ≡ ok r
      → let bytes = slice b.buf b.offset (b.datalen - b.offset) in
        let (reply, net') = os.write net c.sfd bytes in
        (bytes ++ unsent rest ≡ unsent (b ∷ rest))
        × (r.1 ≡ net')
        × (unsent r.0.batch_ret_vector ≡ drop reply.count (unsent (b ∷ rest)))
        × AllFilled r.0.batch_ret_vector
  unfolding send_batch count_request
  send_batch-unsent c net b rest r vec filled full e =
      let c' = count_request c in
      let (n, u, f) =
        flush_front-unsent b rest filled c' net c'.batch_ret_vector r vec vec (ground (arith, e)) in
      (ap (λ xs. xs ++ unsent rest) (front_whole b rest filled), n, u, f)
