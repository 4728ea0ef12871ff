-- ===== src/Connection/Buffered.antt =====
-- The receive buffer of a connection, as the sequence of bytes that were received and not dealt
-- with: what the reads and the parser of server.cpp do to that sequence.
use multiport_network.Base.{
  ℕ, ◌+◌, ◌-◌, ◌≤◌, ◌≡◌, refl, ap, List, [], ◌∷◌, ◌++◌, arith, length, length-append,
}
use multiport_network.Base.Buffers.{slice, length-slice, length-patch, take-patch, slice_rest}
use mathlib.Core.Path.{subst₃}
use multiport_network.Interfaces.{ReadReply, got, failed, Os, OsLaws}
use multiport_network.Connection.{Conn, pending, init_read_buf_size}
use multiport_network.Connection.Input.{
  TryReadResult, compact, received, try_read_network, read_data_received, read_no_data_received,
  read_error,
}
use multiport_network.Connection.Parse.{skip_body}

-- The unread bytes lie within the buffer.
pub record IsBuffered (c : Conn) : Type 0 where
  pub size : c.read_buf_size ≡ init_read_buf_size
  pub held : length c.read_buf ≡ c.read_buf_size
  pub fits : c.working_buf + c.remaining_bytes ≤ c.read_buf_size

pub compact-IsBuffered : (c : Conn) → IsBuffered c → IsBuffered (compact c)
unfolding compact
compact-IsBuffered c v = ground (
  arith,
  length-slice c.read_buf c.working_buf c.remaining_bytes,
  length-patch c.read_buf 0 (slice c.read_buf c.working_buf c.remaining_bytes),
)

pub pending-compact : (c : Conn) → IsBuffered c → pending (compact c) ≡ pending c
unfolding compact
pending-compact c v = ground (
  arith,
  length-slice c.read_buf c.working_buf c.remaining_bytes,
  take-patch c.read_buf 0 c.remaining_bytes (slice c.read_buf c.working_buf c.remaining_bytes),
)

pub compact_front :
    (c : Conn)
    → ((compact c).working_buf ≡ 0)
      × ((compact c).remaining_bytes ≡ c.remaining_bytes)
      × ((compact c).read_buf_size ≡ c.read_buf_size)
      × ((compact c).sfd ≡ c.sfd)
unfolding compact
compact_front c = ground arith

-- What a read leaves: the result that `process_func` sees, and the input.
abbrev pub Reads : List ℕ → ReadReply → TryReadResult × Conn → Type 0
Reads input (got []) (res, c') = (res ≡ read_error) × (pending c' ≡ input)
Reads input (got (b ∷ bytes)) (res, c') =
    (res ≡ read_data_received) × (pending c' ≡ input ++ b ∷ bytes)
Reads input (failed errno) (res, c') = (res ≡ read_no_data_received) × (pending c' ≡ input)

module _ (c : Conn) (v : IsBuffered c) (front : c.working_buf ≡ 0) where
  received-IsBuffered :
      (r : ReadReply)
      → ((bytes : List ℕ) → r ≡ got bytes → length bytes ≤ c.read_buf_size - c.remaining_bytes)
      → IsBuffered (received c r).1
  unfolding received
  received-IsBuffered (got []) h = v
  received-IsBuffered (got (b ∷ bytes)) h =
      let room = h (b ∷ bytes) refl in
      ground (arith, length-patch c.read_buf c.remaining_bytes (b ∷ bytes))
  received-IsBuffered (failed errno) h = v

  received-Reads :
      (r : ReadReply)
      → ((bytes : List ℕ) → r ≡ got bytes → length bytes ≤ c.read_buf_size - c.remaining_bytes)
      → Reads (pending c) r (received c r)
  unfolding received
  received-Reads (got []) h = (refl, refl)
  received-Reads (got (b ∷ bytes)) h =
      let room = h (b ∷ bytes) refl in
      (
        refl,
        ground (
          arith,
          take-patch c.read_buf c.remaining_bytes (c.remaining_bytes + length (b ∷ bytes))
              (b ∷ bytes),
        ),
      )
  received-Reads (failed errno) h = (refl, refl)

module _ {Net : Type 0} (os : Os Net) (laws : OsLaws os) where
  pub try_read_network-IsBuffered :
      (c : Conn) (net : Net) → IsBuffered c → IsBuffered (try_read_network os c net).1
  unfolding try_read_network
  try_read_network-IsBuffered c net v =
      received-IsBuffered (compact c) (compact-IsBuffered c v) (compact_front c).0 _
        (laws.read_bound net _ _)

  -- Over sockets that keep `OsLaws`, a read of a connection whose unread bytes lie within its
  -- buffer appends what `read` returned to the input, and loses and reorders nothing.
  pub try_read_network-Reads :
      (c : Conn) (net : Net)
      → IsBuffered c
      → let (res, c', net') = try_read_network os c net in
        Reads (pending c) (os.read net c.sfd (c.read_buf_size - c.remaining_bytes)).0 (res, c')
  unfolding try_read_network
  try_read_network-Reads c net v =
      let (w, r, s, f) = compact_front c in
      subst₃
        (λ input fd n.
          Reads input (os.read net fd n).0
            ((try_read_network os c net).0, (try_read_network os c net).1))
        (pending-compact c v) f (omega arith)
        (received-Reads (compact c) (compact-IsBuffered c v) w _ (laws.read_bound net _ _))

pub skip_body-IsBuffered :
    (c : Conn) (n : ℕ) → IsBuffered c → n ≤ c.remaining_bytes → IsBuffered (skip_body c n)
unfolding skip_body
skip_body-IsBuffered c n v h = ground arith

pub pending-skip_body :
    (c : Conn) (xs ys : List ℕ) (n : ℕ)
    → IsBuffered c
    → pending c ≡ xs ++ ys
    → n ≡ length xs
    → pending (skip_body c n) ≡ ys
unfolding skip_body
pending-skip_body c xs ys n v e l =
    slice_rest c.read_buf xs ys c.working_buf c.remaining_bytes n e l (
      omega (
        arith,
        length-slice c.read_buf c.working_buf c.remaining_bytes,
        ap length e,
        length-append xs ys,
      ))
