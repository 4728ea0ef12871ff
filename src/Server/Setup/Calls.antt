-- ===== src/Server/Setup/Calls.antt =====
-- The platform of server.cpp where every call succeeds, and what the start of the server asks of it.
use multiport_network.Base.{ℕ, zero, suc, ◌+◌, ◌≡◌, true, Option, none, some, List, [], ◌∷◌, ◌++◌}
use multiport_network.Server.Setup.{
  Handler, libevent_process, Event, Platform, ThreadInfo, ThreadInfos,
}

-- What the start of the server asks of the system: an event to be watched, a thread to be started,
-- a socket to be bound to a port (in network byte order), and to listen with a backlog.
pub data Call : Type 0 where
  watches : Event → Call
  starts : (tid : ℕ) → Call
  binds : (fd port : ℕ) → Call
  listens : (fd backlog : ℕ) → Call

-- A platform on which every call succeeds, and that keeps a log of these calls.
pub record Works {Sys : Type 0} (pl : Platform Sys) (log : Sys → List Call) : Type 0 where
  pub pipe_works :
      (s : Sys) → (f : ℕ × ℕ) × (s' : Sys) × (pl.pipe s ≡ (some f, s')) × (log s' ≡ log s)
  pub base_works :
      (s : Sys) → (b : ℕ) × (s' : Sys) × (pl.event_base_new s ≡ (some b, s')) × (log s' ≡ log s)
  pub nolock_works :
      (s : Sys)
      → (b : ℕ) × (s' : Sys) × (pl.event_base_new_nolock s ≡ (some b, s')) × (log s' ≡ log s)
  pub new_works :
      (s : Sys) (base fd : ℕ) (h : Handler)
      → (s' : Sys) × (pl.event_new s base fd h
          ≡ (some (record { base = base; fd = fd; handler = h }), s'))
        × (log s' ≡ log s)
  pub add_works :
      (s : Sys) (e : Event)
      → (s' : Sys) × (pl.event_add s e ≡ (true, s')) × (log s' ≡ log s ++ watches e ∷ [])
  pub create_works :
      (s : Sys) (tid : ℕ)
      → (id : ℕ) × (s' : Sys) × (pl.pthread_create s tid ≡ (some id, s'))
        × (log s' ≡ log s ++ starts tid ∷ [])
  pub sigpipe_works : (s : Sys) → log (pl.ignore_sigpipe s) ≡ log s
  pub socket_works :
      (s : Sys) → (fd : ℕ) × (s' : Sys) × (pl.socket s ≡ (some fd, s')) × (log s' ≡ log s)
  pub nonblocking_works : (s : Sys) (fd : ℕ) → log (pl.make_socket_nonblocking s fd) ≡ log s
  pub bind_works :
      (s : Sys) (fd port : ℕ)
      → (s' : Sys) × (pl.bind s fd port ≡ (true, s')) × (log s' ≡ log s ++ binds fd port ∷ [])
  pub listen_works :
      (s : Sys) (fd backlog : ℕ)
      → (s' : Sys) × (pl.listen s fd backlog ≡ (true, s'))
        × (log s' ≡ log s ++ listens fd backlog ∷ [])

-- The worker `i` is woken by its own pipe, on its own event base.
pub record IsSetUp (i : ℕ) (me : ThreadInfo) : Type 0 where
  pub index : me.thread_index ≡ i
  pub own_base : ℕ
  pub has_base : me.base ≡ some own_base
  pub watches_pipe :
      me.notify_event
      ≡ some (record { base = own_base; fd = me.notify_receive_fd; handler = libevent_process i })

-- Its thread runs, too.
pub record IsRunning (i : ℕ) (me : ThreadInfo) : Type 0 where
  pub set_up : IsSetUp i me
  pub id : ℕ
  pub created : me.thread_id ≡ some id

-- The calls that watch the pipes of the `n` workers from the `i`-th on.
abbrev pub wake_calls : Option Event → List Call
wake_calls none = []
wake_calls (some e) = watches e ∷ []

abbrev pub wakes : ThreadInfos → ℕ → ℕ → List Call
wakes infos zero i = []
wakes infos (suc n) i = wake_calls (infos i).notify_event ++ wakes infos n (i + 1)

-- The calls that start their threads.
abbrev pub spawns : ℕ → ℕ → List Call
spawns zero i = []
spawns (suc n) i = starts i ∷ spawns n (i + 1)
