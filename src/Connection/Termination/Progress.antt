-- ===== src/Connection/Termination/Progress.antt =====
-- The measure in the handlers that `process_func` calls.
use multiport_network.Base.{
  ℕ, ◌-◌, ◌≤◌, ◌<◌, ◌≡◌, Option, none, some, List, [], ◌∷◌, arith, length, length-take, drop, ◌⊎◌,
}
use multiport_network.Base.Buffers.{slice}
use multiport_network.Interfaces.{Os, OsLaws}
use multiport_network.Connection.{
  Conn, BatchBuf, ok, conn_deal_with, conn_closing, conn_new_cmd, parse_head, read_key_value,
  write_bcak, reset_cmd_handler,
}
use multiport_network.Connection.Parse.{
  dispatch_bin_command, take_head, skip_head, try_read_head_binary, try_read_key_value,
}
use multiport_network.Connection.Reply.{
  back, reserve, append_packet, batch_reply, single_reply, con_ret_buf, count_miss,
}
use multiport_network.Connection.Batch.{
  count_request, flush_front, send_batch, write_failed, wrote_batch,
}
use multiport_network.Connection.Process.{deal_head, after_key_value, wrote, write_back}
use multiport_network.Connection.Termination.{measure}

record Dispatched (c d : Conn) : Type 0 where
  kept : d.remaining_bytes ≡ c.remaining_bytes
  next :
      (d.conn_state ≡ conn_closing)
      ⊎ ((d.conn_state ≡ conn_deal_with)
          × ((d.work_state ≡ parse_head) ⊎ (d.work_state ≡ read_key_value)))

dispatch-Dispatched :
    (c : Conn)
    → c.conn_state ≡ conn_deal_with
    → c.work_state ≡ parse_head
    → Dispatched c (dispatch_bin_command c)
unfolding dispatch_bin_command
dispatch-Dispatched c cs ws = ground arith

-- A header takes 12 bytes.
pub deal_head-progress :
    (c c' : Conn)
    → c.conn_state ≡ conn_deal_with
    → c.work_state ≡ parse_head
    → deal_head c ≡ ok c'
    → measure c' < measure c
unfolding deal_head try_read_head_binary take_head skip_head
deal_head-progress c c' cs ws e = ground (arith, dispatch-Dispatched (take_head c))

pub read_key_value-progress :
    (c : Conn)
    → c.conn_state ≡ conn_deal_with
    → c.work_state ≡ read_key_value
    → measure (after_key_value (try_read_key_value c)) < measure c
unfolding try_read_key_value after_key_value
read_key_value-progress c cs ws = ground arith

-- A reply turns to writing and leaves the input.
pub record Replied (c c' : Conn) : Type 0 where
  pub dealing : c'.conn_state ≡ c.conn_state
  pub writing : c'.work_state ≡ write_bcak
  pub kept : c'.remaining_bytes ≡ c.remaining_bytes

append_packet-Replied :
    (c c' : Conn) (bufs : List BatchBuf) (o : Option BatchBuf)
    → append_packet c bufs o ≡ ok c'
    → Replied c c'
unfolding append_packet count_miss
append_packet-Replied c c' bufs none e = cc
append_packet-Replied c c' bufs (some b) e = ground arith

batch_reply-Replied : (c c' : Conn) (o : Option BatchBuf) → batch_reply c o ≡ ok c' → Replied c c'
unfolding batch_reply
batch_reply-Replied c c' none e = cc
batch_reply-Replied c c' (some b) e =
    append_packet-Replied c c' (reserve c b) (back (reserve c b)) e

pub con_ret_buf-Replied : (c c' : Conn) → con_ret_buf c ≡ ok c' → Replied c c'
unfolding con_ret_buf single_reply count_miss
con_ret_buf-Replied c c' e = ground (arith, batch_reply-Replied c c' (back c.batch_ret_vector))

pub reset-progress :
    (c : Conn)
    → c.conn_state ≡ conn_new_cmd
    → c.work_state ≡ parse_head
    → measure (reset_cmd_handler c) < measure c
unfolding reset_cmd_handler
reset-progress c cs ws = ground arith

write_failed-progress :
    (c : Conn) (errno : ℕ)
    → c.conn_state ≡ conn_deal_with
    → c.work_state ≡ write_bcak
    → measure (write_failed c errno) < measure c
unfolding write_failed
write_failed-progress c errno cs ws = ground arith

wrote_batch-progress :
    (c : Conn) (b : BatchBuf) (rest : List BatchBuf) (n : ℕ)
    → c.conn_state ≡ conn_deal_with
    → c.work_state ≡ write_bcak
    → n ≤ b.datalen - b.offset
    → measure (wrote_batch c b rest n) < measure c
unfolding wrote_batch
wrote_batch-progress c b [] n cs ws h = ground arith
wrote_batch-progress c b (x ∷ rest) n cs ws h = ground arith

wrote-progress :
    (c : Conn) (n errno : ℕ)
    → c.conn_state ≡ conn_deal_with
    → c.work_state ≡ write_bcak
    → n ≤ c.ret_bytes
    → measure (wrote c n errno) < measure c
unfolding wrote
wrote-progress c n errno cs ws h = ground arith

length-slice-le : (buf : List ℕ) (pos n : ℕ) → length (slice buf pos n) ≤ n
length-slice-le buf pos n = omega (arith, length-take n (drop pos buf))

module _ {Net : Type 0} (os : Os Net) (laws : OsLaws os) where
  flush_front-progress :
      (c : Conn) (bufs : List BatchBuf) (net : Net) (r : Conn × Net)
      → c.conn_state ≡ conn_deal_with
      → c.work_state ≡ write_bcak
      → flush_front os c bufs net ≡ ok r
      → measure r.0 < measure c
  unfolding flush_front
  flush_front-progress c [] net r cs ws e = cc
  flush_front-progress c (b ∷ rest) net r cs ws e =
      let bytes = slice b.buf b.offset (b.datalen - b.offset) in
      let reply = (os.write net c.sfd bytes).0 in
      ground (
        arith,
        laws.write_bound net c.sfd bytes,
        length-slice-le b.buf b.offset (b.datalen - b.offset),
        write_failed-progress c reply.errno,
        wrote_batch-progress c b rest reply.count,
      )

  module _ (c : Conn) (net : Net) (r : Conn × Net) (cs : c.conn_state ≡ conn_deal_with)
      (ws : c.work_state ≡ write_bcak) where
    pub send_batch-progress :
        send_batch os c net ≡ ok r → (measure r.0 < measure c) ⊎ (c.batch_num < c.batch_count)
    unfolding send_batch count_request
    send_batch-progress e =
        ground (arith, flush_front-progress (count_request c) c.batch_ret_vector net r cs ws)

    pub write_back-progress : write_back os c net ≡ ok r → measure r.0 < measure c
    unfolding write_back
    write_back-progress e =
        let bytes = slice c.ret_buf c.ret_buf_offset c.ret_bytes in
        let reply = (os.write net c.sfd bytes).0 in
        ground (
          arith,
          laws.write_bound net c.sfd bytes,
          length-slice-le c.ret_buf c.ret_buf_offset c.ret_bytes,
          wrote-progress c reply.count reply.errno,
        )
