-- ===== src/MicroTest/Sender/Flow.antt =====
-- What a connection of the client has gathered, as one sequence of bytes, in `fetch_and_send`,
-- `clean` and a whole run of packages.
use mathlib.Core.Path.{subst₂}
use multiport_network.Base.{
  le→ltb, ℕ, ◌+◌, ◌*◌, ◌≤◌, ◌<◌, ◌≡◌, ◌≢◌, refl, Bool, true, false, Option, none, some, List, [],
  ◌++◌, arith, length, length-take, take, leb, if◌then◌else◌, length-replicate,
}
use multiport_network.Base.Buffers.{take-patch, length-patch}
use multiport_network.Interfaces.{Sockets}
use multiport_network.Connection.{Outcome, ok, exits, fault, ◌>>=◌}
use multiport_network.MicroTest.{package_len, send_batch_num}
use multiport_network.MicroTest.Sender.{
  Sender, send_buf_size, init, gather, flushed, whole, flush, fetch_and_send,
}

-- Between two calls.
pub record IsSender (s : Sender) : Type 0 where
  pub held : length s.send_buf ≡ send_buf_size
  pub packages : s.offset ≡ s.op_count * package_len
  pub below : s.op_count < send_batch_num

-- The bytes that are gathered and not written.
abbrev pub gathered : Sender → List ℕ
gathered s = take s.offset s.send_buf

pub init-IsSender : (con_id fd : ℕ) → IsSender (init con_id fd)
unfolding init
init-IsSender con_id fd = record {
  held = length-replicate {A = ℕ} send_buf_size 0;
  packages = refl;
  below = omega arith;
}

-- What a `write` of these bytes made of a connection: all were taken, or the program ended.
abbrev pub Flushes :
    {Net : Type 0} → Sockets Net → ℕ → List ℕ → Net → Outcome (Sender × Net) → Type 0
Flushes so fd bytes net (ok (s', net')) =
    (so.write net fd bytes ≡ (some (length bytes), net'))
    × (gathered s' ≡ [])
    × IsSender s'
    × (s'.fd ≡ fd)
Flushes so fd bytes net exits = (so.write net fd bytes).0 ≢ some (length bytes)
Flushes so fd bytes net fault = ⊥

-- What `fetch_and_send` makes of a package.
abbrev pub Fetches :
    {Net : Type 0} → Sockets Net → Sender → List ℕ → Net → Outcome (Bool × Sender × Net) → Type 0
Fetches so s p net (ok (false, s', net')) =
    (gathered s' ≡ gathered s ++ p)
    × (net' ≡ net)
    × IsSender s'
    × (s'.fd ≡ s.fd)
    × (s'.op_count ≡ s.op_count + 1)
Fetches so s p net (ok (true, s', net')) =
    (s.op_count + 1 ≡ send_batch_num) × Flushes so s.fd (gathered s ++ p) net (ok (s', net'))
Fetches so s p net exits =
    (s.op_count + 1 ≡ send_batch_num) × Flushes so s.fd (gathered s ++ p) net exits
Fetches so s p net fault = ⊥

gather_lem :
    (s : Sender) (p : List ℕ)
    → IsSender s
    → length p ≡ package_len
    → (gathered (gather s p) ≡ gathered s ++ p)
      × (length (gather s p).send_buf ≡ send_buf_size)
      × ((gather s p).offset ≡ s.offset + package_len)
      × ((gather s p).op_count ≡ s.op_count + 1)
      × ((gather s p).fd ≡ s.fd)
unfolding gather
gather_lem s p v len = ground (
  arith,
  length-patch s.send_buf s.offset p,
  take-patch s.send_buf s.offset (s.offset + length p) p,
)

module _ {Net : Type 0} (so : Sockets Net) where
  write-Flushes :
      (s : Sender) (net net' : Net) (ret : Option ℕ)
      → length s.send_buf ≡ send_buf_size
      → s.offset ≡ length (gathered s)
      → so.write net s.fd (gathered s) ≡ (ret, net')
      → Flushes so s.fd
          (gathered s)
          net
          (if whole ret s.offset then ok (flushed s, net') else exits)
  unfolding flushed whole
  write-Flushes s net net' none held len e = ground arith
  write-Flushes s net net' (some n) held len e = ground arith

  pub flush-Flushes :
      (s : Sender) (net : Net)
      → length s.send_buf ≡ send_buf_size
      → s.offset ≤ send_buf_size
      → Flushes so s.fd (gathered s) net (flush so s net)
  unfolding flush
  flush-Flushes s net held fits =
      write-Flushes s net (so.write net s.fd (gathered s)).1 (so.write net s.fd (gathered s)).0 held
        (omega (arith, length-take s.offset s.send_buf)) refl

  sent-Fetches :
      (s : Sender) (p : List ℕ) (net : Net) (o : Outcome (Sender × Net))
      → s.op_count + 1 ≡ send_batch_num
      → Flushes so s.fd (gathered s ++ p) net o
      → Fetches so s p net (o >>= λ r. ok (true, r.0, r.1))
  sent-Fetches s p net (ok r) last fl = (last, fl)
  sent-Fetches s p net exits last fl = (last, fl)
  sent-Fetches s p net fault last fl = absurd fl

  choice-Fetches :
      (s : Sender) (p : List ℕ) (net : Net) (b : Bool)
      → IsSender s
      → length p ≡ package_len
      → leb send_batch_num (gather s p).op_count ≡ b
      → Fetches so s p net (
          if b
          then (flush so (gather s p) net >>= λ r. ok (true, r.0, r.1))
          else ok (false, gather s p, net))
  choice-Fetches s p net false v len e =
      let (g, h, o, n, f) = gather_lem s p v len in
      (
        g,
        refl,
        record { held = h; packages = omega (arith, v.packages, o, n); below = ground (arith, n) },
        f,
        n,
      )
  choice-Fetches s p net true v len e =
      let (g, h, o, n, f) = gather_lem s p v len in
      sent-Fetches s p net (flush so (gather s p) net) (ground (arith, n, v.below)) (
        subst₂ (λ fd bytes. Flushes so fd bytes net (flush so (gather s p) net)) f g
          (flush-Flushes (gather s p) net h (omega (arith, v.packages, v.below, o))))

  -- A `fetch_and_send` of one package of the fixed length gathers it behind the others, or, for
  -- the last package of a batch, writes all of them with it in one call: then nothing is
  -- gathered, or the program ends because `write` did not take all. The buffer is never left.
  pub fetch_and_send-Fetches :
      (s : Sender) (p : List ℕ) (net : Net)
      → IsSender s
      → length p ≡ package_len
      → Fetches so s p net (fetch_and_send so s p net)
  unfolding fetch_and_send
  fetch_and_send-Fetches s p net v len =
      rw (le→ltb send_buf_size (s.offset + length p) (omega (arith, v.packages, v.below, len)))
        (choice-Fetches s p net (leb send_batch_num (gather s p).op_count) v len refl)
