-- ===== src/Connection/Session/Store.antt =====
-- server.cpp keeps what `Session` promises: it is the store.
use mathlib.Core.Path.{subst, subst₂}
use multiport_network.Base.{
  ℕ, ◌≤◌, ◌<◌, ◌≡◌, refl, sym, ap, ◌∙◌, Option, none, some, List, [], ◌∷◌, ◌++◌, length,
  length-append, append_assoc, append-nil, arith,
}
use multiport_network.Interfaces.{Os, OsLaws, HashTable, Feeds, Moves}
use multiport_network.Protocol.{Header, store_header}
use multiport_network.Connection.{Conn, conn_deal_with, conn_new_cmd, parse_head}
use multiport_network.Connection.Process.{Turn, start_turn}
use multiport_network.Connection.Service.Store.Session.{IsGetHeader}
use multiport_network.Connection.Turns.{Runs, Runs-trans}
use multiport_network.Connection.Create.{IsFresh}
use multiport_network.Connection.Turns.Reading.{read_now}
use multiport_network.Connection.Turns.Gathering.{length-pending}
use multiport_network.Connection.Turns.Commands.{next_command}
use multiport_network.Connection.Session.{
  Request, set, get, requests_bytes, table_after, replies, reply_to, Hits, Takes, InSession,
  Reached-InSession,
}
use multiport_network.Connection.Session.Single.{set_done, get_done}

length-requests :
    (rs : List Request) (rest : List ℕ)
    → 1000 < length rest
    → 1000 < length (requests_bytes rs ++ rest)
length-requests rs rest much = omega (arith, length-append (requests_bytes rs) rest)

-- A header and a body, and what follows them.
split :
    (head body more rest : List ℕ)
    → ((head ++ body) ++ more) ++ rest ≡ head ++ (body ++ (more ++ rest))
split head body more rest = simp append_assoc

module _ {Net Map : Type 0} (os : Os Net) (ht : HashTable Map) (incoming sent : Net → ℕ → List ℕ)
    (laws : OsLaws os) (feeds : Feeds os incoming sent) (stalls : Net → ℕ)
    (moves : Moves os sent stalls) (fd : ℕ) where
  abbrev At : Map → List ℕ → List ℕ → Turn Net Map → Type 0
  At = InSession os ht incoming sent conn_deal_with parse_head fd

  abbrev Behind : Map → List ℕ → List ℕ → Turn Net Map → Type 0
  Behind = InSession os ht incoming sent conn_new_cmd parse_head fd

  get_hit_done :
      (o : Option (List ℕ)) (t : Turn Net Map) (h : Header) (key rest before : List ℕ) (table : Map)
      → ht.find table key ≡ o
      → Hits key o
      → At table before (store_header h ++ (key ++ rest)) t
      → IsGetHeader h (length key)
      → 0 < length key
      → length key ≤ 1000
      → 1000 < length rest
      → (u : Turn Net Map) × Runs os ht incoming t u
        × Behind table (before ++ reply_to key o) rest u
  get_hit_done none t h key rest before table e hits b g some_key short much = absurd hits
  get_hit_done (some value) t h key rest before table e hits b g some_key short much =
      get_done os ht incoming sent laws feeds fd table before stalls moves t h key value rest b g
        some_key short e hits much

  one_request :
      (r : Request) (rs : List Request) (table : Map) (before rest : List ℕ) (t : Turn Net Map)
      → At table before (requests_bytes (r ∷ rs) ++ rest) t
      → Takes ht table (r ∷ rs)
      → 1000 < length rest
      → (u : Turn Net Map) × Runs os ht incoming t u
        × Behind
            (table_after ht table (r ∷ []))
            (before ++ replies ht table (r ∷ []))
            (requests_bytes rs ++ rest)
            u
  one_request (set h key value) rs table before rest t b (g, some_key, some_value, short, later)
        much =
      let (u, p, d) =
        set_done os ht incoming sent laws feeds fd table before t h key value
          (requests_bytes rs ++ rest)
          (subst (λ xs. At table before xs t)
            (split (store_header h) (key ++ value) (requests_bytes rs) rest) b)
          g some_key some_value short in
      (
        u,
        p,
        subst (λ xs. Behind (ht.insert_or_assign table key value) xs (requests_bytes rs ++ rest) u)
            (sym (append-nil before)) d,
      )
  one_request (get h key) rs table before rest t b (g, some_key, short, hits, later) much =
      let (u, p, d) =
        get_hit_done (ht.find table key) t h key (requests_bytes rs ++ rest) before table refl hits
          (subst (λ xs. At table before xs t) (split (store_header h) key (requests_bytes rs) rest)
            b)
          g some_key short (length-requests rs rest much) in
      (
        u,
        p,
        subst (λ xs. Behind table (before ++ xs) (requests_bytes rs ++ rest) u)
            (sym (append-nil (reply_to key (ht.find table key)))) d,
      )

  next_request :
      (table : Map) (before input : List ℕ) (t : Turn Net Map)
      → Behind table before input t
      → 1000 < length input
      → (u : Turn Net Map) × Runs os ht incoming t u × At table before input u
  next_request table before input t b more =
      let (u, r) =
        next_command os ht incoming sent laws feeds t b.running b.state b.work b.buffered
          (omega (arith, ap length b.input_is)) in
      let d = Reached-InSession os ht incoming sent t u b r in
      (
        u,
        r.runs,
        subst (λ s. InSession os ht incoming sent s parse_head fd table before input u) r.dealing d,
      )

  later-Takes :
      (r : Request) (rs : List Request) (table : Map)
      → Takes ht table (r ∷ rs)
      → Takes ht (table_after ht table (r ∷ [])) rs
  later-Takes (set h key value) rs table k = k.4
  later-Takes (get h key) rs table k = k.4

  later_table :
      (r : Request) (rs : List Request) (table : Map)
      → table_after ht (table_after ht table (r ∷ [])) rs ≡ table_after ht table (r ∷ rs)
  later_table (set h key value) rs table = refl
  later_table (get h key) rs table = refl

  later_replies :
      (r : Request) (rs : List Request) (table : Map)
      → replies ht table (r ∷ []) ++ replies ht (table_after ht table (r ∷ [])) rs
        ≡ replies ht table (r ∷ rs)
  later_replies (set h key value) rs table = refl
  later_replies (get h key) rs table =
      ap (λ xs. xs ++ replies ht table rs) (append-nil (reply_to key (ht.find table key)))

  pub session_served :
      (r : Request) (rs : List Request) (table : Map) (before rest : List ℕ) (t : Turn Net Map)
      → At table before (requests_bytes (r ∷ rs) ++ rest) t
      → Takes ht table (r ∷ rs)
      → 1000 < length rest
      → (u : Turn Net Map) × Runs os ht incoming t u
        × Behind (table_after ht table (r ∷ rs)) (before ++ replies ht table (r ∷ rs)) rest u
  session_served r [] table before rest t b k much = one_request r [] table before rest t b k much
  session_served r (next ∷ rs) table before rest t b k much =
      let table' = table_after ht table (r ∷ []) in
      let wrote' = before ++ replies ht table (r ∷ []) in
      let (u, p, d) = one_request r (next ∷ rs) table before rest t b k much in
      let (v, q, e) =
        next_request table' wrote' (requests_bytes (next ∷ rs) ++ rest) u d
          (length-requests (next ∷ rs) rest much) in
      let (x, s, f) =
        session_served next rs table' wrote' rest v e (later-Takes r (next ∷ rs) table k) much in
      (
        x,
        Runs-trans os ht incoming t u x p (Runs-trans os ht incoming u v x q s),
        subst₂ (λ m xs. Behind m xs rest x) (later_table r (next ∷ rs) table)
            (append_assoc before (replies ht table (r ∷ [])) (replies ht table' (next ∷ rs))
              ∙ ap (◌++◌ before) (later_replies r (next ∷ rs) table))
            f,
      )

module _ {Net Map : Type 0} (os : Os Net) (ht : HashTable Map) (incoming sent : Net → ℕ → List ℕ)
    (laws : OsLaws os) (feeds : Feeds os incoming sent) (stalls : Net → ℕ)
    (moves : Moves os sent stalls) where
  -- A connection that was just created is a session.
  fresh_session :
      (c : Conn) (net : Net) (table : Map)
      → IsFresh c
      → 0 < length (incoming net c.sfd)
      → (u : Turn Net Map) × Runs os ht incoming (start_turn os ht c net table) u
        × InSession os ht incoming sent conn_deal_with parse_head c.sfd table
            (sent net c.sfd)
            (incoming net c.sfd)
            u
  fresh_session c net table f some_in =
      let v = f.sound.buffered in
      let (u, r, fewer) =
        read_now os ht incoming sent laws feeds (start_turn os ht c net table) refl f.reading v
          (omega (arith, v.size, length-pending c v, ap length f.no_input)) some_in in
      (
        u,
        r.runs,
        record {
          running = r.running;
          state = r.dealing;
          work = r.work.work ∙ f.parsing;
          buffered = r.buffered;
          fd_is = r.work.fd;
          single = r.work.batching ∙ f.no_batch;
          start = r.work.ret_offset ∙ f.no_reply.1;
          unused = r.work.ret_bytes ∙ f.no_reply.0;
          held = ap length r.work.ret_buf ∙ f.ret_held ∙ sym r.work.ret_size;
          room = r.work.ret_size ∙ f.ret_room;
          input_is = r.same_stream ∙ ap (λ xs. xs ++ incoming net c.sfd) f.no_input;
          sent_is = r.same_sent;
          table_is = r.same_table;
        },
      )

  -- One or more SETs and GETs that the server takes (`Takes`: well-formed, with a value of at least
  -- 8 bytes and a key and value of at most 1000 in a SET, and each GET of a key that is in the
  -- table by then, with a value for which the reply fits the buffer), on a connection that was just
  -- created, with more than 1000 bytes of input behind them, over sockets that keep `OsLaws`,
  -- deliver what is incoming (`Feeds`) and take what is sent (`Moves`), while no other connection
  -- uses the table or the sockets: however the bytes arrive and are accepted, finitely many rounds,
  -- over calls of `event_handler` each of which but the first finds bytes to read on its socket,
  -- leave the table that the SETs in their order make of the one before, and have sent, behind what
  -- was sent before, just the replies to the GETs in their order, each with the value that its key
  -- had by then; what follows the requests is unread, the reply buffer is unused, and the next
  -- command is due.
  pub store_served :
      (c : Conn) (net : Net) (table : Map) (r : Request) (rs : List Request) (rest : List ℕ)
      → IsFresh c
      → incoming net c.sfd ≡ requests_bytes (r ∷ rs) ++ rest
      → Takes ht table (r ∷ rs)
      → 1000 < length rest
      → (u : Turn Net Map) × Runs os ht incoming (start_turn os ht c net table) u
        × InSession os ht incoming sent conn_new_cmd parse_head c.sfd
            (table_after ht table (r ∷ rs))
            (sent net c.sfd ++ replies ht table (r ∷ rs))
            rest
            u
  store_served c net table r rs rest fresh e takes much =
      let (t, p, d) =
        fresh_session c net table fresh
          (omega (arith, ap length e, length-requests (r ∷ rs) rest much)) in
      let (u, q, f) =
        session_served os ht incoming sent laws feeds stalls moves c.sfd r rs table (sent net c.sfd)
          rest t
          (subst
            (λ xs.
              InSession os ht incoming sent conn_deal_with parse_head c.sfd table (sent net c.sfd)
                xs t)
            e d)
          takes much in
      (u, Runs-trans os ht incoming (start_turn os ht c net table) t u p q, f)
