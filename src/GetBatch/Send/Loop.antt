-- ===== src/GetBatch/Send/Loop.antt =====
-- The loop of `data_dispatch` of get_batch_test.cpp on all ports.
use multiport_network.Base.{ℕ, ◌+◌, ◌<◌, ◌≡◌, ◌⊎◌, List, [], ◌∷◌, length}
use multiport_network.Interfaces.{Sockets}
use multiport_network.Connection.{Outcome, ok, exits, fault}
use multiport_network.GetBatch.Send.{Lane}
use multiport_network.GetBatch.Send.Lanes.{to_send, IsLane}
use multiport_network.GetBatch.Send.Steps.{CallFails, Reaches, Steps}

abbrev pub AllLanes : List Lane → Type 0
AllLanes [] = Unit {0}
AllLanes (l ∷ lanes) = IsLane l × AllLanes lanes

-- The number of bytes to be sent on all ports.
abbrev pub total : List Lane → ℕ
total [] = 0
total (l ∷ lanes) = length (to_send l) + total lanes

-- Some call on a socket fails, after any number of calls from these sockets on.
abbrev pub SomeFails : {Net : Type 0} → Sockets Net → Net → Type 0
SomeFails {Net} so net =
    (net' : Net) × Reaches so net net' × (fd : ℕ) × (bytes : List ℕ) × CallFails so net' fd bytes

-- What a sweep over the ports does.
abbrev pub Sweeps :
    {Net : Type 0} → Sockets Net → Net → List Lane → Outcome (ℕ × List Lane × Net) → Type 0
Sweeps so net lanes (ok (stop_count, lanes', net')) =
    Reaches so net net'
    × (length lanes' ≡ length lanes)
    × AllLanes lanes'
    × (((stop_count ≡ length lanes) × (total lanes' ≡ 0) × (total lanes ≡ 0))
        ⊎ ((stop_count < length lanes) × (total lanes' < total lanes)))
Sweeps so net lanes exits = SomeFails so net
Sweeps so net lanes fault = ⊥

-- What the whole loop does on this many ports.
abbrev pub Completes :
    {Net : Type 0} → Sockets Net → Net → ℕ → Outcome (ℕ × List Lane × Net) → Type 0
Completes so net port_num (ok (stop_count, lanes', net')) =
    (length lanes' ≡ port_num) × (stop_count ≡ port_num) × (total lanes' ≡ 0)
Completes so net port_num exits = SomeFails so net
Completes so net port_num fault = ⊥
