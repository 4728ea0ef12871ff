-- ===== src/Server/Setup.antt =====
-- server.cpp: `worker`, `setup_worker`, `init_workers` and `main`, over the calls of libevent, pthread
-- and the socket interface, which are the parameter `Platform`. An `event` of libevent is what it
-- watches and the handler with its argument.
pub mod Calls
pub mod Running
pub mod Serves
use multiport_network.Base.{
  ℕ, zero, suc, ◌+◌, Bool, Option, none, some, List, [], ◌∷◌, ◌++◌, get_or, ◌==◌, if◌then◌else◌,
}
use multiport_network.Protocol.{swap16}
use multiport_network.Connection.{Outcome, ok, exits, fault, ◌>>=◌}
use multiport_network.Server.Ports.{init_portlist}

-- The handlers that the server registers: `thread_libevent_process` for the worker `me`, and
-- `conn_dispatch`, whose argument points to `thread_index` of a worker.
pub data Handler : Type 0 where
  libevent_process : (me : ℕ) → Handler
  dispatch : (port_index : ℕ) → Handler

-- struct event; all are EV_READ | EV_PERSIST.
pub record Event : Type 0 where
  pub base : ℕ
  pub fd : ℕ
  pub handler : Handler

-- `none` stands for a null pointer, the descriptor -1 or a failed call, `false` for a failed call.
-- `bind` takes the port in network byte order.
pub record Platform (Sys : Type 0) : Type 0 where
  pub pipe : Sys → Option (ℕ × ℕ) × Sys
  pub event_base_new : Sys → Option ℕ × Sys
  pub event_base_new_nolock : Sys → Option ℕ × Sys
  pub event_new : Sys → (base fd : ℕ) → Handler → Option Event × Sys
  pub event_add : Sys → Event → Bool × Sys
  pub event_base_loop : Sys → ℕ → Sys
  pub event_base_free : Sys → ℕ → Sys
  pub pthread_create : Sys → (tid : ℕ) → Option ℕ × Sys
  pub ignore_sigpipe : Sys → Sys
  pub socket : Sys → Option ℕ × Sys
  pub make_socket_nonblocking : Sys → ℕ → Sys
  pub bind : Sys → ℕ → (port : ℕ) → Bool × Sys
  pub listen : Sys → ℕ → (backlog : ℕ) → Bool × Sys

-- THREAD_INFO without the queue and the bytes in the pipe, which are `Worker`; `none` is what
-- `calloc` leaves.
pub record ThreadInfo : Type 0 where
  pub thread_index : ℕ
  pub thread_id : Option ℕ
  pub base : Option ℕ
  pub notify_event : Option Event
  pub notify_receive_fd : ℕ
  pub notify_send_fd : ℕ

abbrev pub ThreadInfos : Type 0
ThreadInfos = ℕ → ThreadInfo

abbrev pub blank_infos : ThreadInfos
blank_infos i = record {
  thread_index = 0;
  thread_id = none;
  base = none;
  notify_event = none;
  notify_receive_fd = 0;
  notify_send_fd = 0;
}

unfoldable pub set_info : ThreadInfos → ℕ → ThreadInfo → ThreadInfos
set_info infos i me j = if j == i then me else infos j

-- A listening socket of `main`, with the port that it is bound to (in network byte order), and its
-- event.
pub record Listener : Type 0 where
  pub listener : ℕ
  pub sin_port : ℕ
  pub listener_event : Event

-- `main` returns 0 after its usage message, or -1, or enters the event loop of `base` with
-- these listeners.
pub data Startup (Sys : Type 0) : Type 0 where
  usage : Startup Sys
  failed : Sys → Startup Sys
  serving : ThreadInfos → List Listener → (base : ℕ) → Sys → Startup Sys

module _ {Sys : Type 0} (pl : Platform Sys) where
  -- The thread of the worker `tid`: its event loop, until that ends.
  unfoldable pub worker : ThreadInfos → ℕ → Sys → Sys
  worker infos tid s = elim (infos tid).base [
    | none ↦ s
    | some base ↦ pl.event_base_free (pl.event_base_loop s base) base
  ]

  -- `event_set` and `event_base_set`, and then `event_add`.
  unfoldable pub watch_pipe : ThreadInfo → ℕ → ℕ → Sys → Outcome (ThreadInfo × Sys)
  watch_pipe me i base s =
      let event : Event = record {
        base = base;
        fd = me.notify_receive_fd;
        handler = libevent_process i;
      } in
      let (added, s') = pl.event_add s event in
      if added then ok (record me { base = some base; notify_event = some event }, s') else exits

  unfoldable pub setup_worker : ThreadInfo → ℕ → Sys → Outcome (ThreadInfo × Sys)
  setup_worker me i s =
      let (base, s') = pl.event_base_new_nolock s in
      elim base [ none ↦ exits | some b ↦ watch_pipe me i b s' ]

  -- The worker `i` in the first loop of `init_workers`.
  unfoldable pub create_info : ℕ → ThreadInfo → Sys → Outcome (ThreadInfo × Sys)
  create_info i me s =
      let (fds, s') = pl.pipe s in
      elim fds [
        | none ↦ exits
        | some f ↦
            setup_worker
              (record me { notify_receive_fd = f.0; notify_send_fd = f.1; thread_index = i }) i s'
      ]

  -- The first loop of `init_workers`, over the `n` workers from the `i`-th on.
  unfoldable pub create_infos : ℕ → ℕ → ThreadInfos → Sys → Outcome (ThreadInfos × Sys)
  create_infos zero i infos s = ok (infos, s)
  create_infos (suc n) i infos s =
      create_info i (infos i) s >>= λ r. create_infos n (i + 1) (set_info infos i r.0) r.1

  unfoldable pub create_thread : ThreadInfo → Sys → Outcome (ThreadInfo × Sys)
  create_thread me s =
      let (id, s') = pl.pthread_create s me.thread_index in
      elim id [ none ↦ exits | some t ↦ ok (record me { thread_id = some t }, s') ]

  -- The second loop.
  unfoldable pub create_threads : ℕ → ℕ → ThreadInfos → Sys → Outcome (ThreadInfos × Sys)
  create_threads zero i infos s = ok (infos, s)
  create_threads (suc n) i infos s =
      create_thread (infos i) s >>= λ r. create_threads n (i + 1) (set_info infos i r.0) r.1

  unfoldable pub init_workers : ℕ → Sys → Outcome (ThreadInfos × Sys)
  init_workers thread_num s =
      create_infos thread_num 0 blank_infos s >>= λ r. create_threads thread_num 0 r.0 r.1

  -- The event of a listener that is bound to `port` and listens. A null pointer from `event_new` is
  -- handed on to `event_add`, which reads it; the return of `event_add` is not looked at.
  unfoldable pub watch_listener : ℕ → ℕ → ℕ → ThreadInfo → Sys → Outcome (Option Listener × Sys)
  watch_listener base fd sin_port me s =
      let (event, s') = pl.event_new s base fd (dispatch me.thread_index) in
      elim event [
        | none ↦ fault
        | some e ↦ ok (
          some (record { listener = fd; sin_port = sin_port; listener_event = e }),
          (pl.event_add s' e).1,
        )
      ]

  -- The listener of the port `port` for the worker `me`; `none` where `bind` or `listen` fails. A
  -- failed `socket` is not looked at: `bind` then fails on the descriptor -1.
  unfoldable pub open_listener : ℕ → ℕ → ThreadInfo → Sys → Outcome (Option Listener × Sys)
  open_listener base port me s =
      let (sock, s₁) = pl.socket s in
      elim sock [
        | none ↦ ok (none, s₁)
        | some fd ↦
            let (bound, s₂) = pl.bind (pl.make_socket_nonblocking s₁ fd) fd (swap16 port) in
            let (listening, s₃) = pl.listen s₂ fd 16 in
            if bound
            then (if listening then watch_listener base fd (swap16 port) me s₃ else ok (none, s₃))
            else ok (none, s₂)
      ]

  -- The loop of `main` over the `n` ports from the `i`-th on.
  unfoldable pub open_listeners :
      ℕ → ℕ → ℕ → List ℕ → ThreadInfos → List Listener → Sys → Outcome (Startup Sys)
  open_listeners base zero i ports infos opened s = ok (serving infos opened base s)
  open_listeners base (suc n) i ports infos opened s =
      open_listener base (get_or ports i 0) (infos i) s >>= λ r. elim r.0 [
        | none ↦ ok (failed r.1)
        | some l ↦ open_listeners base n (i + 1) ports infos (opened ++ l ∷ []) r.1
      ]

  unfoldable pub listen_all : ℕ → ThreadInfos → Sys → Outcome (Startup Sys)
  listen_all port_num infos s =
      let (base, s') = pl.event_base_new (pl.ignore_sigpipe s) in
      elim base [
        | none ↦ ok (failed s')
        | some b ↦ open_listeners b port_num 0 (init_portlist port_num) infos [] s'
      ]

  -- The arguments behind the program's name, as `atol` reads them. `init_conns` allocates the
  -- empty array `Create.init_conns`.
  unfoldable pub main : List ℕ → Sys → Outcome (Startup Sys)
  main (port_num ∷ []) s = init_workers port_num s >>= λ r. listen_all port_num r.0 r.1
  main [] s = ok usage
  main (port_num ∷ more ∷ rest) s = ok usage
