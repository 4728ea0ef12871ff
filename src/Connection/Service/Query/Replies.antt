-- ===== src/Connection/Service/Query/Replies.antt =====
-- The bytes that a GET outside a batch hands to `write`: what the protocol asks for on a hit, and
-- what the code sends on a miss.
use multiport_network.Base.{
  ℕ, zero, suc, ◌+◌, ◌*◌, ◌≤◌, ◌<◌, ◌≡◌, refl, sym, ap, ◌∙◌, false, Option, none, some, List,
  length, ◌++◌, arith,
}
use mathlib.Core.Path.{ap₂}
use multiport_network.Base.Buffers.{slice, patch, slice-patch, slice-patch_front}
use multiport_network.Interfaces.{Os, HashTable}
use multiport_network.Protocol.{Header, store_header}
use multiport_network.Connection.{Conn, conn_new_cmd, parse_head, pending}
use multiport_network.Connection.Parse.{skip_body}
use multiport_network.Connection.Reply.{
  packet, packet_len, answer, resp_head, count_miss, notfound_ans,
}
use multiport_network.Connection.Process.{Turn, found, wrote, process_loop}
use multiport_network.Connection.Requests.{fetched}
use multiport_network.Connection.Service.Answers.{reply_header, single_answer, length-packet}
use multiport_network.Connection.Service.Query.{
  AtGet, key_read, asked-IsAsked, IsAsked, Fits, key_rounds, reply_rounds, offered, head,
  key_read_dealing,
}

-- The reply that the protocol asks for.
unfoldable pub hit_packet : List ℕ → List ℕ → List ℕ
hit_packet key value = store_header (reply_header (length key) (length value)) ++ (key ++ value)

wrote_all :
    (c : Conn) (n errno : ℕ)
    → n ≡ c.ret_bytes
    → 0 < n
    → ((wrote c n errno).conn_state ≡ conn_new_cmd)
      × ((wrote c n errno).work_state ≡ parse_head)
      × (pending (wrote c n errno) ≡ pending c)
unfolding wrote
wrote_all c zero errno e h = absurd (omega arith)
wrote_all c (suc n) errno e h = ground arith

-- The reply of the code to a miss: the length of the body is that of the key and of the value that
-- an earlier request left in the connection.
unfoldable pub miss_packet : List ℕ → List ℕ → List ℕ
miss_packet key stale =
    store_header (reply_header (length key) (length stale)) ++ (key ++ notfound_ans)

module _ {Net Map : Type 0} (os : Os Net) (ht : HashTable Map) (t : Turn Net Map) (h : Header)
    (key rest : List ℕ) (running : t.stop ≡ false) (at : AtGet t.conn h key rest) where
  abbrev kr : Conn
  kr = key_read (fetched t.conn h) key

  -- The turn behind the four rounds, when `write` is handed these bytes.
  abbrev written : Conn → ℕ → List ℕ → Turn Net Map
  written a fd bytes =
      let (reply, net') = os.write t.net fd bytes in
      record t { conn = wrote (single_answer a) reply.count reply.errno; net = net' }

  four_rounds :
      (o : Option (List ℕ)) (bytes : List ℕ)
      → ht.find t.table key ≡ o
      → (k : IsAsked os ht t h key rest running at (found kr o))
      → (fits : Fits os ht t h key rest running at (found kr o))
      → offered os ht t h key rest running at (found kr o) k fits ≡ bytes
      → (n : ℕ)
      → process_loop os ht (suc (suc (suc (suc n)))) t
        ≡ process_loop os ht n (written (found kr o) t.conn.sfd bytes)
  four_rounds o bytes finds k fits e n =
      key_rounds os ht t h key rest running at (suc (suc n))
      ∙ reply_rounds os ht t h key rest running at (found kr o) k fits n kr
          (ap (found kr) (sym finds)) (key_read_dealing os ht t h key rest running at) refl
      ∙ ap₂ (λ fd bs. process_loop os ht n (written (found kr o) fd bs)) k.sfd e

  module _ (value : List ℕ) (hit : ht.find t.table key ≡ some value)
      (room : 12 + length key + length value ≤ t.conn.ret_buf_size) where
    abbrev a : Conn
    a = found kr (some value)

    k : IsAsked os ht t h key rest running at a
    k = asked-IsAsked os ht t h key rest running at (some value)

    hit_len : packet_len a ≡ 12 + length key + length value
    unfolding packet_len found answer
    hit_len = refl

    fits : Fits os ht t h key rest running at a
    unfolding count_miss found
    fits = record {
      room = omega (arith, hit_len, k.size);
      readable = omega (arith, hit_len, k.size, k.unused);
    }

    packet-hit : packet a ≡ hit_packet key value
    unfolding packet hit_packet resp_head answer reply_header found
    packet-hit = ground (arith, k)

    offered-hit : offered os ht t h key rest running at a k fits ≡ hit_packet key value
    unfolding single_answer count_miss found
    offered-hit =
        ap (λ n. slice (patch a.ret_buf 0 (packet a)) 0 n)
          (omega (arith, k.unused, length-packet a))
        ∙ slice-patch a.ret_buf 0 (packet a) (omega arith)
        ∙ packet-hit

    -- Outside a batch, a GET that lies whole in the input and whose key is in the table, with a
    -- reply buffer that is unused and has room for the reply, takes four rounds of the loop. The
    -- reply, with the header of the protocol, the key and the value that was found, is handed to
    -- one `write`. Where `write` takes all of it, the table is unchanged, the rest of the input
    -- is unread and the next command is due.
    pub get_hit :
        (os.write t.net t.conn.sfd (hit_packet key value)).0.count ≡ length (hit_packet key value)
        → (t' : Turn Net Map) × ((n : ℕ)
            → process_loop os ht (suc (suc (suc (suc n)))) t ≡ process_loop os ht n t')
          × (t'.net ≡ (os.write t.net t.conn.sfd (hit_packet key value)).1)
          × (t'.table ≡ t.table)
          × (t'.conn.conn_state ≡ conn_new_cmd)
          × (t'.conn.work_state ≡ parse_head)
          × (pending t'.conn ≡ rest)
    unfolding single_answer count_miss found
    get_hit whole =
        let reply = (os.write t.net t.conn.sfd (hit_packet key value)).0 in
        let len = ap length packet-hit in
        let (c, w, p) =
          wrote_all (single_answer a) reply.count reply.errno
            (omega (arith, whole, k.unused, length-packet a, len))
            (omega (arith, hit_len, length-packet a, len)) in
        (
          written a t.conn.sfd (hit_packet key value),
          four_rounds (some value) (hit_packet key value) hit k fits offered-hit,
          refl,
          refl,
          c,
          w,
          p ∙ k.input,
        )

  module _ (miss : ht.find t.table key ≡ none)
      (room : 2 * (20 + length key) ≤ t.conn.ret_buf_size) where
    abbrev b : Conn
    b = found kr none

    j : IsAsked os ht t h key rest running at b
    j = asked-IsAsked os ht t h key rest running at none

    miss_len : packet_len b ≡ 12 + length key + 8
    unfolding packet_len found answer
    miss_len = refl

    miss_fits : Fits os ht t h key rest running at b
    unfolding count_miss found
    miss_fits = record {
      room = omega (arith, miss_len, j.size);
      readable = omega (arith, miss_len, j.size, j.unused);
    }

    packet-miss : packet b ≡ miss_packet key t.conn.value
    unfolding packet miss_packet resp_head answer reply_header found skip_body
    packet-miss = ground (arith, j, head os ht t h key rest running at)

    abbrev miss_bytes : List ℕ
    miss_bytes =
        miss_packet key t.conn.value ++ slice t.conn.ret_buf (20 + length key) (20 + length key)

    offered-miss : offered os ht t h key rest running at b j miss_fits ≡ miss_bytes
    unfolding single_answer count_miss found
    offered-miss =
        ap (λ n. slice (patch b.ret_buf 0 (packet b)) 0 n)
          (omega (arith, j.unused, miss_len, length-packet b))
        ∙ slice-patch_front b.ret_buf (packet b) (20 + length key)
        ∙ ap₂ (λ xs ys. xs ++ ys) packet-miss
            (ap₂ (λ xs n. slice xs n (20 + length key)) j.ret_buf
              (omega (arith, miss_len, length-packet b)))

    -- Outside a batch, a GET that lies whole in the input and whose key is not in the table, with
    -- a reply buffer that is unused and has room for twice the reply, takes four rounds of the
    -- loop. `write` is handed the packet with NOTFOUND, and behind it as many bytes more of what
    -- the reply buffer held before; the length in the packet's header is that of the key and of
    -- the value that the connection last read; the table is unchanged.
    pub get_miss :
        (t' : Turn Net Map) × ((n : ℕ)
          → process_loop os ht (suc (suc (suc (suc n)))) t ≡ process_loop os ht n t')
        × (t'.net ≡ (os.write t.net t.conn.sfd miss_bytes).1)
        × (t'.table ≡ t.table)
    get_miss = (
      written b t.conn.sfd miss_bytes,
      four_rounds none miss_bytes miss j miss_fits offered-miss,
      refl,
      refl,
    )
