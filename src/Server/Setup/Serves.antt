-- ===== src/Server/Setup/Serves.antt =====
-- What `main` of server.cpp has set up when it enters its event loop.
use multiport_network.Base.{ℕ, ◌+◌, ◌<◌, ◌≡◌, List, [], ◌∷◌, length}
use multiport_network.Protocol.{swap16}
use multiport_network.Server.Ports.{port_base}
use multiport_network.Server.Setup.{dispatch, ThreadInfos, Listener}
use multiport_network.Server.Setup.Calls.{Call, watches, binds, listens, IsRunning}

-- A connection to the port `port_base + i` is dispatched to the worker `i` by the loop of `base`.
pub record IsListening (base i : ℕ) (l : Listener) : Type 0 where
  pub port : l.sin_port ≡ swap16 (port_base + i)
  pub event : l.listener_event ≡ record { base = base; fd = l.listener; handler = dispatch i }

abbrev pub AllListening : ℕ → ℕ → List Listener → Type 0
AllListening base i [] = Unit {0}
AllListening base i (l ∷ ls) = IsListening base i l × AllListening base (i + 1) ls

-- The calls that make these listeners.
abbrev pub opens : List Listener → List Call
opens [] = []
opens (l ∷ ls) =
    binds l.listener l.sin_port ∷ listens l.listener 16 ∷ watches l.listener_event ∷ opens ls

-- A server with this many ports, each with its worker.
pub record Serves (port_num base : ℕ) (infos : ThreadInfos) (ls : List Listener) : Type 0 where
  pub workers : (i : ℕ) → i < port_num → IsRunning i (infos i)
  pub ports : length ls ≡ port_num
  pub listening : AllListening base 0 ls
