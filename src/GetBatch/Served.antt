-- ===== src/GetBatch/Served.antt =====
-- The batches of `con_database` at the server: what server.cpp answers to one of them.
pub mod One
pub mod Whole
use mathlib.Core.Path.{subst, subst₂}
use multiport_network.Base.{
  ℕ, zero, suc, ◌+◌, ◌-◌, ◌*◌, ◌%◌, ◌^◌, ◌≤◌, ◌<◌, ◌≡◌, refl, sym, ap, ◌∙◌, true, false, inl,
  Option, some, List, [], ◌∷◌, ◌++◌, length, length-append, append_assoc, append-nil, arith,
}
use multiport_network.Interfaces.{Os, OsLaws, HashTable, Feeds, Moves}
use multiport_network.Protocol.{Header, head_len, swap16, swap32, store_header, u16}
use multiport_network.Protocol.RoundTrip.{
  IsHeader, length-store_header, swap16-lt, swap32-lt, swap16-swap16, swap32-swap32,
}
use multiport_network.Connection.{
  Conn, BatchBuf, conn_deal_with, parse_head, write_bcak, ok, ◌>>=◌, pending, batch_buf_size,
}
use multiport_network.Connection.Parse.{new_batchbuf}
use multiport_network.Connection.Process.{Turn, deal_with}
use multiport_network.Connection.Buffered.{IsBuffered}
use multiport_network.Connection.Requests.Begun.{
  IsBatchHeader, begun, deal_head-begun, IsBegun, begun-IsBegun,
}
use multiport_network.Connection.Outbox.{IsFilled, AllFilled, unsent}
use multiport_network.Connection.Outbox.Queue.{Queued, Loaded}
use multiport_network.Connection.Service.Store.Session.{IsGetHeader}
use multiport_network.Connection.Turns.{Runs, done, Runs-trans, Runs-deal}
use multiport_network.Connection.Turns.Reading.{stream, Reached}
use multiport_network.Connection.Turns.Gathering.{gather, starve_head, length-pending}
use multiport_network.Connection.Batched.{Frame, InBatch, IsAnswered}
use multiport_network.Connection.Batched.Heads.{front_come}
use multiport_network.Connection.Batched.Answers.{batch_packet, get-IsAnswered, next_of_batch}
use multiport_network.GetBatch.{batch_size, batch_head, get_head, get_package}
use multiport_network.GetBatch.Packed.{packages, batch_bytes}

-- The replies to these keys, numbered from the given number.
abbrev pub replies_of : (List ℕ → List ℕ) → ℕ → List (List ℕ) → List ℕ
replies_of value n [] = []
replies_of value n (key ∷ keys) = batch_packet n key (value key) ++ replies_of value (n + 1) keys

-- The keys have the length of the client's, the table has their values, and a reply fits a buffer.
abbrev pub Found : {Map : Type 0} → HashTable Map → Map → (List ℕ → List ℕ) → List (List ℕ) → Type 0
Found ht m value [] = Unit {0}
Found ht m value (key ∷ keys) =
    (length key ≡ 8)
    × (ht.find m key ≡ some (value key))
    × (head_len + length key + length (value key) ≤ batch_buf_size)
    × Found ht m value keys

get_head-IsGetHeader : (num port : ℕ) → IsGetHeader (get_head num port) 8
get_head-IsGetHeader num port = record {
  is_header = record {
    keylen_fits = swap16-lt 8;
    batchnum_fits = swap16-lt num;
    totalbodylen_fits = swap32-lt 8;
  };
  magic = refl;
  op = refl;
  key = swap16-swap16 8 (omega arith);
  body = swap32-swap32 8 (omega arith);
}

pub batch_head-IsBatchHeader : (port : ℕ) → IsBatchHeader (batch_head port) batch_size
batch_head-IsBatchHeader port = record {
  is_header = record {
    keylen_fits = swap16-lt 8;
    batchnum_fits = swap16-lt 100;
    totalbodylen_fits = swap32-lt 8;
  };
  magic = refl;
  op = refl;
  covers = omega (arith, swap16-swap16 8, swap32-swap32 8);
  num_is = swap16-swap16 100 (omega arith);
}

package_split :
    (num port : ℕ) (key more rest : List ℕ)
    → (get_package num port key ++ more) ++ rest
      ≡ store_header (get_head num port) ++ (key ++ (more ++ rest))
unfolding get_package
package_split num port key more rest = simp append_assoc

module _ {Net Map : Type 0} (os : Os Net) (ht : HashTable Map) (incoming sent : Net → ℕ → List ℕ)
    (laws : OsLaws os) (feeds : Feeds os incoming sent) where
  module _ (f : Frame Map) (port : ℕ) (small : f.num < 2 ^ 16) where
    one_served :
        (count : ℕ) (replies key value more rest : List ℕ) (t : Turn Net Map)
        → InBatch os ht incoming sent f count replies
            ((get_package count port key ++ more) ++ rest)
            t
        → t.conn.work_state ≡ parse_head
        → count < f.num
        → length key ≡ 8
        → ht.find f.table key ≡ some value
        → head_len + length key + length value ≤ batch_buf_size
        → (u : Turn Net Map) × Runs os ht incoming t u
          × IsAnswered os ht incoming sent f
              (count + 1)
              (replies ++ batch_packet count key value)
              (more ++ rest)
              u
    one_served count replies key value more rest t b w few len finds fits =
        let (u, r, a) =
          get-IsAnswered os ht incoming sent laws feeds f count replies t (get_head count port) key
            value (more ++ rest)
            (subst (λ xs. InBatch os ht incoming sent f count replies xs t)
              (package_split count port key more rest) b)
            w
            (subst (IsGetHeader (get_head count port)) (sym len) (get_head-IsGetHeader count port))
            (omega (arith, len)) (omega (arith, len)) (sym (swap16-swap16 count (omega arith)))
            finds fits in
        (
          u,
          r,
          subst
              (λ n.
                IsAnswered os ht incoming sent f n (replies ++ batch_packet count key value)
                  (more ++ rest) u)
              (omega arith) a,
        )

    pub keys_served :
        (value : List ℕ → List ℕ) (key : List ℕ) (keys : List (List ℕ)) (count : ℕ)
        (replies rest : List ℕ) (t : Turn Net Map)
        → InBatch os ht incoming sent f count replies (packages port count (key ∷ keys) ++ rest) t
        → t.conn.work_state ≡ parse_head
        → count + suc (length keys) ≡ f.num
        → Found ht f.table value (key ∷ keys)
        → 1000 < length rest
        → (u : Turn Net Map) × Runs os ht incoming t u
          × IsAnswered os ht incoming sent f f.num
              (replies ++ replies_of value count (key ∷ keys))
              rest
              u
    keys_served value key [] count replies rest t b w len h much =
        let (u, r, a) =
          one_served count replies key (value key) [] rest t b w (omega (arith, len)) h.0 h.1 h.2 in
        (
          u,
          r,
          subst₂ (λ n xs. IsAnswered os ht incoming sent f n xs rest u) (omega (arith, len))
              (ap (◌++◌ replies) (sym (append-nil (batch_packet count key (value key))))) a,
        )
    keys_served value key (k ∷ keys) count replies rest t b w len h much =
        let more = packages port (count + 1) (k ∷ keys) in
        let reply = batch_packet count key (value key) in
        let (u, r, a) =
          one_served count replies key (value key) more rest t b w (omega (arith, len)) h.0 h.1
            h.2 in
        let (x, q, c, next) =
          next_of_batch os ht incoming sent laws feeds f (count + 1) (replies ++ reply) u
            (more ++ rest) a (omega (arith, len)) (omega (arith, length-append more rest)) in
        let (y, s, d) =
          keys_served value k keys (count + 1) (replies ++ reply) rest x c next (omega (arith, len))
            h.3 much in
        (
          y,
          Runs-trans os ht incoming t u y r (Runs-trans os ht incoming u x y q s),
          subst (λ xs. IsAnswered os ht incoming sent f f.num xs rest y)
              (append_assoc replies reply (replies_of value (count + 1) (k ∷ keys))) d,
        )
