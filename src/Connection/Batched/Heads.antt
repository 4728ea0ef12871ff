-- ===== src/Connection/Batched/Heads.antt =====
-- server.cpp: within a batch, the header and the key of a GET are taken from the input, however
-- they arrive.
use mathlib.Core.Path.{subst, ap₂}
use multiport_network.Base.{
  ℕ, ◌≤◌, ◌<◌, ◌≡◌, refl, sym, ap, ◌∙◌, inl, inr, List, ◌++◌, length, length-append, arith, take,
  drop, take-append-drop, take-append, drop-append, drop-append_le, take-append_le,
}
use multiport_network.Interfaces.{Os, OsLaws, HashTable, Feeds}
use multiport_network.Protocol.{Header, protocol_binary_req, swap16, store_header}
use multiport_network.Protocol.RoundTrip.{length-store_header}
use multiport_network.Connection.{parse_head, read_key_value, query_key, ok, ◌>>=◌, pending}
use multiport_network.Connection.Process.{Turn, deal_with, after_key_value}
use multiport_network.Connection.Parse.{skip_body}
use multiport_network.Connection.Buffered.{pending-skip_body, skip_body-IsBuffered}
use multiport_network.Connection.Requests.{
  fetched, fetched-IsFetched, deal_head-fetched, read_get_body,
}
use multiport_network.Connection.Outbox.{AllFilled, unsent}
use multiport_network.Connection.Outbox.Queue.{Queued}
use multiport_network.Connection.Service.Store.Session.{IsGetHeader}
use multiport_network.Connection.Turns.{Runs, done, Runs-trans, Runs-deal}
use multiport_network.Connection.Turns.Reading.{Reached}
use multiport_network.Connection.Turns.Gathering.{gather, starve_head, starve_body, length-pending}
use multiport_network.Connection.Batched.{Frame, InBatch, AtKey, AtQuery, here, Reached-InBatch}

-- What has come of a sequence that starts with `xs` starts with `xs`, once it is long enough.
pub front_come :
    (got xs come ys : List ℕ)
    → got ++ come ≡ xs ++ ys
    → length xs ≤ length got
    → (rest : List ℕ) × (got ≡ xs ++ rest) × (rest ++ come ≡ ys)
front_come got xs come ys e enough =
    let n = length xs in
    let front : take n got ≡ xs =
      sym (take-append_le n got come enough) ∙ ap (take n) e ∙ take-append n xs ys refl in
    (
      drop n got,
      sym (take-append-drop n got) ∙ ap (λ zs. zs ++ drop n got) front,
      sym (drop-append_le n got come enough) ∙ ap (drop n) e ∙ drop-append n xs ys refl,
    )

module _ {Net Map : Type 0} (os : Os Net) (ht : HashTable Map) (incoming sent : Net → ℕ → List ℕ)
    (laws : OsLaws os) (feeds : Feeds os incoming sent) (f : Frame Map) (count : ℕ)
    (replies : List ℕ) where
  -- A header is gathered.
  pub head_come :
      (t : Turn Net Map) (h : Header) (body : List ℕ)
      → InBatch os ht incoming sent f count replies (store_header h ++ body) t
      → t.conn.work_state ≡ parse_head
      → h.magic ≡ protocol_binary_req
      → (u : Turn Net Map) × Reached os ht incoming sent t u × (12 ≤ u.conn.remaining_bytes)
  head_come t h body b w magic =
      gather os ht incoming sent laws feeds (length (incoming t.net t.conn.sfd)) t t 12
        (here os ht incoming sent t b) (inl w) (omega arith)
        (omega
          (arith, ap length b.input_is, length-append (store_header h) body, length-store_header h))
        (starve_head os ht incoming sent t h body w b.input_is magic) (omega arith)

  pub head_taken :
      (t : Turn Net Map) (h : Header) (keylen : ℕ) (body : List ℕ)
      → InBatch os ht incoming sent f count replies (store_header h ++ body) t
      → t.conn.work_state ≡ parse_head
      → IsGetHeader h keylen
      → 0 < keylen
      → count ≡ swap16 h.batchnum
      → (u : Turn Net Map) × Runs os ht incoming t u
        × AtKey os ht incoming sent f count replies keylen body u
  unfolding deal_with
  head_taken t h keylen body b w g some_key turn =
      let (u, r, enough) = head_come t h body b w g.magic in
      let d = Reached-InBatch os ht incoming sent t u b r in
      let (rest, come, left) =
        front_come (pending u.conn) (store_header h) (incoming u.net u.conn.sfd) body d.input_is
          (omega (arith, length-pending u.conn d.buffered, length-store_header h)) in
      let k = fetched-IsFetched u.conn h rest d.buffered g.is_header come in
      let v = record u { conn = fetched u.conn h } in
      (
        v,
        Runs-trans os ht incoming t u v r.runs (
            Runs-deal os ht incoming parse_head u (fetched u.conn h, u.net, u.table) v r.running
              r.dealing (r.work.work ∙ w)
              (ap (λ x. x >>= λ c'. ok (c', u.net, u.table))
                (deal_head-fetched u.conn d.buffered h g.is_header rest come g.magic
                  (inr (g.op, omega (arith, g.key), omega (arith, g.key, g.body)))
                  (inr (d.count_is ∙ turn))))
              (done v)),
        record {
          batch = record {
            running = d.running;
            dealing = k.dealing ∙ d.dealing;
            buffered = k.buffered;
            fd_is = k.sfd ∙ d.fd_is;
            batching = k.in_batch ∙ d.batching;
            count_is = k.count ∙ d.count_is;
            num_is = k.num ∙ d.num_is;
            filled = subst AllFilled (sym k.bufs) d.filled;
            queued = subst Queued (sym k.bufs) d.queued;
            replies_are = ap unsent k.bufs ∙ d.replies_are;
            input_is = ap₂ (λ xs fd. xs ++ incoming u.net fd) k.input k.sfd ∙ left;
            sent_is = ap (sent u.net) k.sfd ∙ d.sent_is;
            table_is = d.table_is;
          };
          work = k.reading;
          cmd = k.cmd ∙ g.op;
          keylen_is = k.keylen ∙ g.key;
        },
      )

  pub key_taken :
      (t : Turn Net Map) (key rest : List ℕ)
      → AtKey os ht incoming sent f count replies (length key) (key ++ rest) t
      → length key ≤ 1000
      → (u : Turn Net Map) × Runs os ht incoming t u
        × AtQuery os ht incoming sent f count replies key rest u
  unfolding deal_with after_key_value skip_body
  key_taken t key rest a short =
      let b = a.batch in
      let n = a.keylen_is in
      let (u, r, enough) =
        gather os ht incoming sent laws feeds (length (incoming t.net t.conn.sfd)) t t
          t.conn.binary_header.keylen (here os ht incoming sent t b) (inr a.work) (omega arith)
          (omega (arith, ap length b.input_is, length-append key rest))
          (starve_body os ht incoming sent t a.work a.cmd) (omega arith) in
      let d = Reached-InBatch os ht incoming sent t u b r in
      let (more, come, left) =
        front_come (pending u.conn) key (incoming u.net u.conn.sfd) rest d.input_is
          (omega (arith, length-pending u.conn d.buffered)) in
      let c = record (skip_body u.conn (length key)) { key = key; work_state = query_key } in
      let v = record u { conn = c } in
      let s = skip_body-IsBuffered u.conn (length key) d.buffered (omega arith) in
      (
        v,
        Runs-trans os ht incoming t u v r.runs (
            Runs-deal os ht incoming read_key_value u (c, u.net, u.table) v r.running r.dealing
              (r.work.work ∙ a.work)
              (ap (λ x. ok (after_key_value x, u.net, u.table))
                (read_get_body u.conn d.buffered key more
                  (ap (λ (h : Header). h.keylen) r.work.header ∙ n) come (r.work.command ∙ a.cmd)))
              (done v)),
        record {
          batch = record {
            running = d.running;
            dealing = d.dealing;
            buffered = record { size = s.size; held = s.held; fits = s.fits };
            fd_is = d.fd_is;
            batching = d.batching;
            count_is = d.count_is;
            num_is = d.num_is;
            filled = d.filled;
            queued = d.queued;
            replies_are = d.replies_are;
            input_is =
                ap (λ xs. xs ++ incoming u.net u.conn.sfd)
                  (pending-skip_body u.conn key more (length key) d.buffered come refl)
                ∙ left;
            sent_is = d.sent_is;
            table_is = d.table_is;
          };
          work = refl;
          key_is = refl;
        },
      )
