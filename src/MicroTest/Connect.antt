-- ===== src/MicroTest/Connect.antt =====
-- micro_test/Connection.h: `connect_server` and the destructor.
use multiport_network.Base.{ℕ, ◌+◌, ◌-◌, ◌^◌, ltb, if◌then◌else◌}
use multiport_network.Protocol.{swap16}
use multiport_network.Interfaces.{Dialer}
use multiport_network.DoubleBuf.Threads.{connect_fd}
use multiport_network.MicroTest.{client_port_base}
use multiport_network.MicroTest.Sender.{Sender, init}

module _ {Net : Type 0} (dl : Dialer Net) where
  -- The connection of `con_id`; the test `connect_fd < 0` of an unsigned number never holds, and
  -- where `connect` fails `fd` stays as it was.
  unfoldable pub connect_server : Sender → ℕ → Net → Sender × Net
  connect_server s ip net =
      let (sock, net₁) = dl.socket net in
      let descriptor = connect_fd sock in
      let (connected, net₂) =
        dl.connect net₁ descriptor ip (swap16 (client_port_base + s.con_id)) in
      if ltb descriptor 0
      then (s, net₁)
      else if connected
      then (record s { fd = descriptor }, net₂)
      else (s, dl.close net₂ descriptor)

  -- The constructor, which sets `fd` to -1, and `init`.
  unfoldable pub init_connected : ℕ → ℕ → Net → Sender × Net
  init_connected con_id ip net = connect_server (init con_id (2 ^ 32 - 1)) ip net

  -- ~Connection
  unfoldable pub destroy : Sender → Net → Net
  destroy s net = dl.close net s.fd
