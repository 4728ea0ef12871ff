-- ===== src/Connection/Sound/Handlers.antt =====
-- The invariant of a connection in the handlers that `process_func` calls.
use multiport_network.Base.{
  ℕ, suc, ◌-◌, ◌<◌, ◌≡◌, refl, ap, Option, none, some, List, [], ◌∷◌, ◌++◌, arith, length,
  length-append,
}
use multiport_network.Base.Buffers.{slice}
use multiport_network.Interfaces.{Os}
use multiport_network.Connection.{
  Conn, BatchBuf, ok, conn_deal_with, parse_head, read_key_value, write_bcak,
}
use multiport_network.Connection.Parse.{
  dispatch_bin_command, take_head, skip_head, try_read_head_binary, try_read_key_value,
  new_batchbuf,
}
use multiport_network.Connection.Reply.{
  back, set_back, reserve, append_packet, packed, batch_reply, single_reply, con_ret_buf,
  count_miss,
}
use multiport_network.Connection.Batch.{
  count_request, flush_front, send_batch, write_failed, wrote_batch,
}
use multiport_network.Connection.Process.{deal_head, after_key_value, wrote, write_back}
use multiport_network.Connection.Buffered.{IsBuffered}
use multiport_network.Connection.Sound.{Batching, IsSound}

length-snoc : (bufs : List BatchBuf) (b : BatchBuf) → 0 < length (bufs ++ b ∷ [])
length-snoc bufs b = omega (arith, length-append bufs (b ∷ []))

dispatch-IsSound :
    (c : Conn)
    → IsBuffered c
    → c.conn_state ≡ conn_deal_with
    → c.work_state ≡ parse_head
    → Batching c.in_batch_get c.batch_ret_vector
    → IsSound (dispatch_bin_command c)
unfolding dispatch_bin_command
dispatch-IsSound c v cs ws b = ground (arith, length-snoc c.batch_ret_vector new_batchbuf)

dispatch-remaining_bytes : (c : Conn) → (dispatch_bin_command c).remaining_bytes ≡ c.remaining_bytes
unfolding dispatch_bin_command
dispatch-remaining_bytes c = ground arith

pub deal_head-IsSound :
    (c c' : Conn)
    → IsSound c
    → c.conn_state ≡ conn_deal_with
    → c.work_state ≡ parse_head
    → deal_head c ≡ ok c'
    → IsSound c'
unfolding deal_head try_read_head_binary take_head skip_head
deal_head-IsSound c c' v cs ws e =
    ground (arith, dispatch-IsSound (take_head c), dispatch-remaining_bytes (take_head c))

pub try_read_key_value-IsSound :
    (c : Conn)
    → IsSound c
    → c.conn_state ≡ conn_deal_with
    → c.work_state ≡ read_key_value
    → IsSound (after_key_value (try_read_key_value c))
unfolding try_read_key_value after_key_value
try_read_key_value-IsSound c v cs ws = ground arith

length-set_back : (bufs : List BatchBuf) (b : BatchBuf) → length (set_back bufs b) ≡ length bufs
unfolding set_back
length-set_back [] b = refl
length-set_back (x ∷ []) b = refl
length-set_back (x ∷ y ∷ bs) b = ap suc (length-set_back (y ∷ bs) b)

module _ (c c' : Conn) (v : IsSound c) (cs : c.conn_state ≡ conn_deal_with) where
  append_packet-IsSound :
      (bufs : List BatchBuf) (o : Option BatchBuf)
      → 0 < length bufs
      → append_packet c bufs o ≡ ok c'
      → IsSound c'
  unfolding append_packet count_miss
  append_packet-IsSound bufs none h e = cc
  append_packet-IsSound bufs (some b) h e = ground (arith, length-set_back bufs (packed c b))

  batch_reply-IsSound :
      (o : Option BatchBuf) → batch_reply c o ≡ ok c' → 0 < length c.batch_ret_vector → IsSound c'
  unfolding batch_reply reserve
  batch_reply-IsSound none e h = cc
  batch_reply-IsSound (some b) e h =
      append_packet-IsSound (reserve c b) (back (reserve c b))
        (ground (arith, length-snoc c.batch_ret_vector new_batchbuf)) e

  single_reply-IsSound : single_reply c ≡ ok c' → IsSound c'
  unfolding single_reply count_miss
  single_reply-IsSound e = ground arith

  pub con_ret_buf-IsSound : con_ret_buf c ≡ ok c' → IsSound c'
  unfolding con_ret_buf
  con_ret_buf-IsSound e =
      ground (arith, batch_reply-IsSound (back c.batch_ret_vector), single_reply-IsSound)

write_failed-IsSound :
    (c : Conn) (errno : ℕ) → IsSound c → c.work_state ≡ write_bcak → IsSound (write_failed c errno)
unfolding write_failed
write_failed-IsSound c errno v ws = ground arith

wrote_batch-IsSound :
    (c : Conn) (b : BatchBuf) (rest : List BatchBuf) (n : ℕ)
    → IsSound c
    → c.conn_state ≡ conn_deal_with
    → c.work_state ≡ write_bcak
    → c.batch_ret_vector ≡ b ∷ rest
    → IsSound (wrote_batch c b rest n)
unfolding wrote_batch
wrote_batch-IsSound c b rest n v cs ws e = ground arith

pub wrote-IsSound :
    (c : Conn) (n errno : ℕ)
    → IsSound c
    → c.conn_state ≡ conn_deal_with
    → c.work_state ≡ write_bcak
    → IsSound (wrote c n errno)
unfolding wrote
wrote-IsSound c n errno v cs ws = ground arith

module _ {Net : Type 0} (os : Os Net) where
  flush_front-IsSound :
      (c : Conn) (bufs : List BatchBuf) (net : Net) (r : Conn × Net)
      → IsSound c
      → c.conn_state ≡ conn_deal_with
      → c.work_state ≡ write_bcak
      → c.batch_ret_vector ≡ bufs
      → flush_front os c bufs net ≡ ok r
      → IsSound r.0
  unfolding flush_front
  flush_front-IsSound c [] net r v cs ws b e = cc
  flush_front-IsSound c (b ∷ rest) net r v cs ws h e =
      let reply = (os.write net c.sfd (slice b.buf b.offset (b.datalen - b.offset))).0 in
      ground (arith, write_failed-IsSound c reply.errno, wrote_batch-IsSound c b rest reply.count)

  count_request-IsSound : (c : Conn) → IsSound c → IsSound (count_request c)
  unfolding count_request
  count_request-IsSound c v = ground arith

  module _ (c : Conn) (net : Net) (r : Conn × Net) (v : IsSound c)
      (cs : c.conn_state ≡ conn_deal_with) (ws : c.work_state ≡ write_bcak) where
    pub send_batch-IsSound : send_batch os c net ≡ ok r → IsSound r.0
    unfolding send_batch count_request
    send_batch-IsSound e = ground (
      arith,
      flush_front-IsSound (count_request c) c.batch_ret_vector net r (count_request-IsSound c v) cs
          ws refl,
    )

    pub write_back-IsSound : write_back os c net ≡ ok r → IsSound r.0
    unfolding write_back
    write_back-IsSound e =
        let reply = (os.write net c.sfd (slice c.ret_buf c.ret_buf_offset c.ret_bytes)).0 in
        ground (arith, wrote-IsSound c reply.count reply.errno)
