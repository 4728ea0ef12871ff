-- ===== src/Connection/Input.antt =====
-- server.cpp: `try_read_network`.
use multiport_network.Base.{◌+◌, ◌-◌, not, [], ◌∷◌, length, ◌==◌, if◌then◌else◌}
use multiport_network.Base.Buffers.{slice, patch}
use multiport_network.Interfaces.{ReadReply, got, failed, Os}
use multiport_network.Connection.{Conn}

pub data TryReadResult : Type 0 where
  read_data_received read_no_data_received read_error read_memory_error : TryReadResult

-- The unread bytes move to the front of the buffer, `memmove(read_buf, working_buf, remaining)`.
unfoldable pub compact : Conn → Conn
compact c =
    if not (c.working_buf == 0)
    then record c {
      read_buf =
          if not (c.remaining_bytes == 0)
          then patch c.read_buf 0 (slice c.read_buf c.working_buf c.remaining_bytes)
          else c.read_buf;
      working_buf = 0;
    }
    else c

-- What follows the call of `read`, which has written its bytes behind the unread ones.
-- Every `errno` is answered like EAGAIN.
unfoldable pub received : Conn → ReadReply → TryReadResult × Conn
received c (got []) = (read_error, c)
received c (got (b ∷ bytes)) = (
  read_data_received,
  record c {
    read_buf = patch c.read_buf c.remaining_bytes (b ∷ bytes);
    recv_bytes = length (b ∷ bytes);
    total_bytes = c.remaining_bytes + length (b ∷ bytes);
    remaining_bytes = c.remaining_bytes + length (b ∷ bytes);
    worked_bytes = 0;
  },
)
received c (failed errno) = (read_no_data_received, c)

module _ {Net : Type 0} (os : Os Net) where
  unfoldable pub try_read_network : Conn → Net → TryReadResult × Conn × Net
  try_read_network c net =
      let c' = compact c in
      let (reply, net') = os.read net c'.sfd (c'.read_buf_size - c'.remaining_bytes) in
      let (res, c'') = received c' reply in (res, c'', net')
