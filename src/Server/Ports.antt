-- ===== src/Server/Ports.antt =====
-- server.cpp: `init_portlist`, the ports of `main`, and settings.h.
use multiport_network.Base.{ℕ, zero, suc, ◌+◌, ◌<◌, ◌≡◌, refl, List, [], ◌∷◌, arith, length, get_or}

abbrev pub port_base : ℕ
port_base = 8033

-- for (i = 0; i < PORT_NUM; i++) portList[i] = PORT_BASE + i
ports_from : ℕ → ℕ → List ℕ
ports_from zero i = []
ports_from (suc n) i = (port_base + i) ∷ ports_from n (i + 1)

unfoldable pub init_portlist : ℕ → List ℕ
unfolding ports_from
init_portlist port_num = ports_from port_num 0

ports_from-get_or : (n i j : ℕ) → j < n → get_or (ports_from n i) j 0 ≡ port_base + (i + j)
unfolding ports_from
ports_from-get_or zero i j h = absurd (omega arith)
ports_from-get_or (suc n) i zero h = omega arith
ports_from-get_or (suc n) i (suc j) h = omega (arith, ports_from-get_or n (i + 1) j (omega arith))

length-ports_from : (n i : ℕ) → length (ports_from n i) ≡ n
unfolding ports_from
length-ports_from zero i = refl
length-ports_from (suc n) i = omega (arith, length-ports_from n (i + 1))

pub length-init_portlist : (port_num : ℕ) → length (init_portlist port_num) ≡ port_num
unfolding init_portlist
length-init_portlist n = length-ports_from n 0

pub init_portlist-get_or :
    (port_num i : ℕ) → i < port_num → get_or (init_portlist port_num) i 0 ≡ port_base + i
unfolding init_portlist
init_portlist-get_or n i h = omega (arith, ports_from-get_or n 0 i h)
