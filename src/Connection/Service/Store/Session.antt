-- ===== src/Connection/Service/Store/Session.antt =====
-- server.cpp: a SET and then a GET of the same key, in one input.
use mathlib.Core.Path.{subst}
use multiport_network.Base.{
  ℕ, suc, ◌+◌, ◌≤◌, ◌<◌, ◌≡◌, refl, sym, ap, ◌∙◌, false, inl, List, length, ◌++◌, arith,
  length-append,
}
use multiport_network.Base.Buffers.{length-slice}
use multiport_network.Interfaces.{Os, HashTable, HashTableLaws}
use multiport_network.Protocol.{
  Header, protocol_binary_req, swap16, swap32, store_header, cmd_get, cmd_set,
}
use multiport_network.Protocol.RoundTrip.{IsHeader, length-store_header}
use multiport_network.Connection.{
  Conn, ConnState, conn_deal_with, conn_new_cmd, parse_head, ok, ◌>>=◌, pending, reset_cmd_handler,
  round_num,
}
use multiport_network.Connection.Parse.{skip_body}
use multiport_network.Connection.Process.{Turn, round, stored, process_loop, process_loop_running}
use multiport_network.Connection.Buffered.{IsBuffered, skip_body-IsBuffered}
use multiport_network.Connection.Requests.{fetched, IsFetched}
use multiport_network.Connection.Service.{AtRequest}
use multiport_network.Connection.Service.Query.{AtGet}
use multiport_network.Connection.Service.Query.Replies.{hit_packet, get_hit}
use multiport_network.Connection.Service.Store.{head, done, set_rounds, rest_pending}

-- The header of a GET for a key of this length.
pub record IsGetHeader (h : Header) (keylen : ℕ) : Type 0 where
  pub is_header : IsHeader h
  pub magic : h.magic ≡ protocol_binary_req
  pub op : h.opcode ≡ cmd_get
  pub key : swap16 h.keylen ≡ keylen
  pub body : swap32 h.totalbodylen ≡ keylen

-- Outside a batch, with an unused reply buffer that has room for this many bytes.
pub record IsSingle (c : Conn) (needed : ℕ) : Type 0 where
  pub single : c.in_batch_get ≡ false
  pub start : c.ret_buf_offset ≡ 0
  pub unused : c.ret_bytes ≡ 0
  pub held : length c.ret_buf ≡ c.ret_buf_size
  pub room : needed ≤ c.ret_buf_size

module _ {Net Map : Type 0} (os : Os Net) (ht : HashTable Map) (laws : HashTableLaws ht)
    (t : Turn Net Map) (h h' : Header) (key value rest : List ℕ) (running : t.stop ≡ false)
    (at : AtRequest t.conn cmd_set
      (length key + length value)
      h
      (key ++ (value ++ (store_header h' ++ (key ++ rest)))))
    (keylen : swap16 h.keylen ≡ length key) (some_key : 0 < length key)
    (some_value : 8 ≤ length value) (get : IsGetHeader h' (length key))
    (free : IsSingle t.conn (12 + length key + length value))
    (early : t.inst_count + 1 < round_num) where
  abbrev stored_turn : Turn Net Map
  stored_turn = record t {
    conn =
        done os ht t h key value (store_header h' ++ (key ++ rest)) running at keylen some_key
          some_value;
    table = ht.insert_or_assign t.table key value;
  }

  abbrev again : Turn Net Map
  again = record stored_turn {
    conn = record stored_turn.conn { conn_state = conn_deal_with };
    inst_count = t.inst_count + 1;
  }

  behind : pending stored_turn.conn ≡ store_header h' ++ (key ++ rest)
  behind =
      rest_pending os ht t h key value (store_header h' ++ (key ++ rest)) running at keylen some_key
        some_value

  taken :
      IsFetched t.conn (fetched t.conn h) h (key ++ (value ++ (store_header h' ++ (key ++ rest))))
  taken =
      head os ht t h key value (store_header h' ++ (key ++ rest)) running at keylen some_key
        some_value

  taken_enough : length key + length value ≤ (fetched t.conn h).remaining_bytes
  taken_enough =
      let d = fetched t.conn h in
      let inside = taken.buffered.fits in
      omega (
        arith,
        length-slice d.read_buf d.working_buf d.remaining_bytes,
        taken.buffered.held,
        inside,
        ap length taken.input,
        length-append key (value ++ (store_header h' ++ (key ++ rest))),
        length-append value (store_header h' ++ (key ++ rest)),
      )

  stored-IsBuffered : IsBuffered stored_turn.conn
  unfolding stored skip_body
  stored-IsBuffered =
      let v =
        skip_body-IsBuffered (fetched t.conn h) (length key + length value) taken.buffered
          taken_enough in
      record { size = v.size; held = v.held; fits = v.fits }

  more_pending : 0 < stored_turn.conn.remaining_bytes
  more_pending =
      let c = stored_turn.conn in
      let v = stored-IsBuffered in
      omega (
        arith,
        length-slice c.read_buf c.working_buf c.remaining_bytes,
        v.held,
        v.fits,
        ap length behind,
        length-append (store_header h') (key ++ rest),
        length-store_header h',
      )

  reset_round : (s : ConnState) → s ≡ conn_new_cmd → round os ht s stored_turn ≡ ok again
  unfolding round reset_cmd_handler
  reset_round conn_new_cmd e = ground (arith, more_pending, early)
  reset_round _ e = cc

  again-AtGet : AtGet again.conn h' key rest
  unfolding stored skip_body
  again-AtGet =
      let v = stored-IsBuffered in
      record {
        request = record {
          buffered = record { size = v.size; held = v.held; fits = v.fits };
          dealing = refl;
          parsing = refl;
          is_header = get.is_header;
          magic = get.magic;
          op = get.op;
          bodylen = get.body;
          input = behind;
          in_turn = inl (taken.in_batch ∙ free.single);
        };
        keylen = get.key;
        some_key = some_key;
        single = taken.in_batch ∙ free.single;
        start = taken.ret_offset ∙ free.start;
        unused = taken.ret_bytes ∙ free.unused;
        ret_held = ap length taken.ret_buf ∙ free.held ∙ sym taken.ret_size;
      }

  four_more : (n : ℕ) → process_loop os ht (suc (suc (suc (suc n)))) t ≡ process_loop os ht n again
  unfolding stored
  four_more n =
      set_rounds os ht t h key value (store_header h' ++ (key ++ rest)) running at keylen some_key
        some_value (suc n)
      ∙ process_loop_running os ht n stored_turn running
      ∙ ap (λ o. o >>= λ u. process_loop os ht n u) (reset_round stored_turn.conn.conn_state refl)

  -- A SET and, in the same input, a GET of the same key, outside a batch, with an unused reply
  -- buffer that has room for the reply, before the last command of a call, and with a table that
  -- keeps `HashTableLaws`: eight rounds after the SET stood at the head of the input, its value
  -- was handed to one `write` in the reply of the protocol. Where `write` takes all of it, the
  -- pair is in the table, the rest of the input is unread and the next command is due.
  pub set_then_get :
      (os.write t.net t.conn.sfd (hit_packet key value)).0.count ≡ length (hit_packet key value)
      → (t' : Turn Net Map) × ((n : ℕ)
          → process_loop os ht (suc (suc (suc (suc (suc (suc (suc (suc n)))))))) t
            ≡ process_loop os ht n t')
        × (t'.net ≡ (os.write t.net t.conn.sfd (hit_packet key value)).1)
        × (t'.table ≡ ht.insert_or_assign t.table key value)
        × (t'.conn.conn_state ≡ conn_new_cmd)
        × (t'.conn.work_state ≡ parse_head)
        × (pending t'.conn ≡ rest)
  unfolding stored skip_body
  set_then_get all_taken =
      let same_fd : again.conn.sfd ≡ t.conn.sfd = taken.sfd in
      let (t', e, net, table, cs, ws, p) =
        get_hit os ht again h' key rest running again-AtGet value
          (laws.find-insert_self t.table key value) (omega (arith, free.room, taken.ret_size))
          (subst
            (λ fd.
              (os.write t.net fd (hit_packet key value)).0.count ≡ length (hit_packet key value))
            (sym same_fd) all_taken) in
      (
        t',
        λ n. four_more (suc (suc (suc (suc n)))) ∙ e n,
        net ∙ ap (λ fd. (os.write t.net fd (hit_packet key value)).1) same_fd,
        table,
        cs,
        ws,
        p,
      )
