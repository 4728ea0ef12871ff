-- ===== src/Server/Dispatch/Channel.antt =====
-- The channel from the main thread to one worker, with the two threads interleaved in any order.
pub mod Handlers
use multiport_network.Base.{
  ℕ, suc, ◌+◌, ◌≤◌, ◌<◌, ◌≡◌, ◌≢◌, refl, sym, ap, ◌∙◌, Bool, true, false, Option, none, some, List,
  [], ◌∷◌, ◌++◌, append_assoc, append-nil, length, length-append, arith,
}
use mathlib.Core.Path.{ap₂}
use multiport_network.Connection.{Outcome, ok, exits}
use multiport_network.Server.Dispatch.{
  Mode, queue_new_conn, queue_redispatch, ConnItem, Worker, push_item, notify, read_pipe, pop_item,
  new_conn, woken, thread_libevent_process, Workers, set_worker, connection, conn_dispatch,
}

-- `pushed`: the main thread is between its push and its write to the pipe. `awake`: the worker has
-- read a byte and not popped yet. `accepted`, `handed` and `unheard` record what was pushed, what
-- `conn_new` was called with, and how many writes to the pipe failed.
pub record Channel : Type 0 where
  pub worker : Worker
  pub pushed : Bool
  pub awake : Bool
  pub accepted : List ℕ
  pub handed : List ℕ
  pub unheard : ℕ

-- What a popped item adds to the descriptors that `conn_new` was called with.
abbrev pub handed_by : Option (ℕ × ℕ) → List ℕ
handed_by none = []
handed_by (some (fd, i)) = fd ∷ []

pub data Step (s : Channel) : Channel → Type 0 where
  push :
      (fd : ℕ)
      → s.pushed ≡ false
      → 2 < fd
      → Step s (record s {
        worker =
            push_item s.worker
              (record { sfd = fd; mode = queue_new_conn; thread = s.worker.thread_index });
        pushed = true;
        accepted = s.accepted ++ fd ∷ [];
      })
  tell : s.pushed ≡ true → Step s (record s { worker = notify s.worker true; pushed = false })
  tell_fails :
      s.pushed ≡ true
      → Step s
          (record s { worker = notify s.worker false; pushed = false; unheard = suc s.unheard })
  hear :
      s.awake ≡ false
      → (read_pipe s.worker).0 ≡ some b'c'
      → Step s (record s { worker = (read_pipe s.worker).1; awake = true })
  pop :
      s.awake ≡ true
      → Step s (record s {
        worker = (pop_item s.worker).1;
        awake = false;
        handed = s.handed ++ handed_by (new_conn (pop_item s.worker).0 s.worker.thread_index);
      })

abbrev pub start : ℕ → Channel
start i = record {
  worker = record { thread_index = i; queue = []; pipe = [] };
  pushed = false;
  awake = false;
  accepted = [];
  handed = [];
  unheard = 0;
}

pub data Reach (i : ℕ) : Channel → Type 0 where
  here : Reach i (start i)
  next : {s t : Channel} → Reach i s → Step s t → Reach i t

abbrev pub sfds : List ConnItem → List ℕ
sfds [] = []
sfds (item ∷ items) = item.sfd ∷ sfds items

abbrev AllNew : List ConnItem → Type 0
AllNew [] = Unit {0}
AllNew (item ∷ items) = (item.mode ≡ queue_new_conn) × AllNew items

abbrev one : Bool → ℕ
one true = 1
one false = 0

record IsBalanced (s : Channel) : Type 0 where
  fifo : s.accepted ≡ s.handed ++ sfds s.worker.queue
  news : AllNew s.worker.queue
  wakes : length s.worker.queue ≡ length s.worker.pipe + one s.pushed + one s.awake + s.unheard

sfds-append : (xs ys : List ConnItem) → sfds (xs ++ ys) ≡ sfds xs ++ sfds ys
sfds-append [] ys = refl
sfds-append (x ∷ xs) ys = ap (◌∷◌ x.sfd) (sfds-append xs ys)

AllNew-append : (xs ys : List ConnItem) → AllNew xs → AllNew ys → AllNew (xs ++ ys)
AllNew-append [] ys hx hy = hy
AllNew-append (x ∷ xs) ys hx hy = (hx.0, AllNew-append xs ys hx.1 hy)

push-IsBalanced :
    (s : Channel) (item : ConnItem)
    → item.mode ≡ queue_new_conn
    → s.pushed ≡ false
    → IsBalanced s
    → IsBalanced (record s {
      worker = push_item s.worker item;
      pushed = true;
      accepted = s.accepted ++ item.sfd ∷ [];
    })
unfolding push_item
push-IsBalanced s item new p v = ground (
  arith,
  sfds-append s.worker.queue (item ∷ []),
  append_assoc s.handed (sfds s.worker.queue) (item.sfd ∷ []),
  length-append s.worker.queue (item ∷ []),
  AllNew-append s.worker.queue (item ∷ []) v.news (new, tt),
)

pop-IsBalanced :
    (s : Channel) (queue : List ConnItem)
    → s.worker.queue ≡ queue
    → s.awake ≡ true
    → IsBalanced s
    → IsBalanced (record s {
      worker = (pop_item s.worker).1;
      awake = false;
      handed = s.handed ++ handed_by (new_conn (pop_item s.worker).0 s.worker.thread_index);
    })
unfolding pop_item new_conn
pop-IsBalanced s [] e a v = absurd (omega (arith, v.wakes, ap length e, ap one a))
pop-IsBalanced s (item ∷ rest) e a v =
    ground (arith, append_assoc s.handed (item.sfd ∷ []) (sfds rest))

Step-IsBalanced : {s t : Channel} → Step s t → IsBalanced s → IsBalanced t
unfolding notify read_pipe
Step-IsBalanced {s} (push fd p h) v = push-IsBalanced s _ refl p v
Step-IsBalanced {s} (tell p) v = ground (arith, length-append s.worker.pipe (b'c' ∷ []))
Step-IsBalanced {s} (tell_fails p) v = ground arith
Step-IsBalanced {s} (hear a r) v = ground arith
Step-IsBalanced {s} (pop a) v = pop-IsBalanced s s.worker.queue refl a v

Reach-IsBalanced : {i : ℕ} {s : Channel} → Reach i s → IsBalanced s
Reach-IsBalanced here = record { fifo = refl; news = tt; wakes = refl }
Reach-IsBalanced (next r st) = Step-IsBalanced st (Reach-IsBalanced r)

pop_item_some :
    (w : Worker) (queue : List ConnItem)
    → w.queue ≡ queue
    → 0 < length queue
    → (pop_item w).0 ≢ none
unfolding pop_item
pop_item_some w [] e h = absurd (omega arith)
pop_item_some w (item ∷ rest) e h = ground arith

sfds_none : (items : List ConnItem) → length items ≡ 0 → sfds items ≡ []
sfds_none [] e = refl
sfds_none (x ∷ xs) e = absurd (omega arith)

-- In every interleaving, `conn_new` is called once for each accepted connection and in the order
-- of acceptance, up to those that still wait in the queue.
pub handed_in_order :
    {i : ℕ} {s : Channel} → Reach i s → s.accepted ≡ s.handed ++ sfds s.worker.queue
handed_in_order r = (Reach-IsBalanced r).fifo

-- A worker that was woken finds a connection in its queue: the branch for an empty queue is dead.
pub woken_finds_item :
    {i : ℕ} {s : Channel} → Reach i s → s.awake ≡ true → (pop_item s.worker).0 ≢ none
unfolding pop_item
woken_finds_item {i} {s} r a =
    let v = Reach-IsBalanced r in
    pop_item_some s.worker s.worker.queue refl (omega (arith, v.wakes, ap one a))

-- Once the main thread and the worker are at rest and the pipe is drained, every accepted
-- connection was handed on, unless a write to the pipe had failed.
pub quiet_all_handed :
    {i : ℕ} {s : Channel}
    → Reach i s
    → s.pushed ≡ false
    → s.awake ≡ false
    → s.worker.pipe ≡ []
    → s.unheard ≡ 0
    → s.handed ≡ s.accepted
quiet_all_handed {i} {s} r p a d u =
    let v = Reach-IsBalanced r in
    sym (
      v.fifo
      ∙ ap (◌++◌ s.handed)
          (sfds_none s.worker.queue (omega (arith, v.wakes, ap one p, ap one a, ap length d)))
      ∙ append-nil s.handed)

-- A connection whose wake-up was lost is left in the queue when all is at rest.
pub unheard_left_behind :
    {i : ℕ} {s : Channel}
    → Reach i s
    → s.pushed ≡ false
    → s.awake ≡ false
    → s.worker.pipe ≡ []
    → length s.worker.queue ≡ s.unheard
unheard_left_behind {i} {s} r p a d =
    omega (arith, (Reach-IsBalanced r).wakes, ap one p, ap one a, ap length d)
