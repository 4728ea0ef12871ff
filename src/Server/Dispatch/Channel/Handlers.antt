-- ===== src/Server/Dispatch/Channel/Handlers.antt =====
-- `conn_dispatch` and `thread_libevent_process` leave the channel as two of its steps do.
use multiport_network.Base.{
  ℕ, suc, ◌<◌, ◌≡◌, refl, sym, ap, ◌∙◌, Bool, true, false, List, [], ◌∷◌, ◌++◌, arith,
}
use mathlib.Core.Path.{ap₂}
use multiport_network.Connection.{ok}
use multiport_network.Server.Dispatch.{
  queue_new_conn, ConnItem, Worker, push_item, notify, read_pipe, pop_item, new_conn, woken,
  thread_libevent_process, Workers, set_worker, connection, conn_dispatch,
}
use multiport_network.Server.Dispatch.Channel.{
  Channel, Step, push, tell, tell_fails, hear, pop, handed_by,
}

-- What the two handlers do to the channel is what its steps do.
record TwoSteps (s t : Channel) : Type 0 where
  pub between : Channel
  pub first : Step s between
  pub second : Step between t

-- A `thread_libevent_process` that reads a 'c' has the outcome of the steps `hear` and `pop`, and
-- the call of `conn_new` that it makes is what they hand on.
thread_libevent_process-TwoSteps :
    (s : Channel) (bytes : List ℕ)
    → s.awake ≡ false
    → s.worker.pipe ≡ b'c' ∷ bytes
    → (t : Channel) × TwoSteps s t
      × ((thread_libevent_process s.worker).1 ≡ t.worker)
      × (t.handed ≡ s.handed ++ handed_by (thread_libevent_process s.worker).0)
unfolding thread_libevent_process woken read_pipe
thread_libevent_process-TwoSteps s bytes a e =
    let u : Channel = record s { worker = (read_pipe s.worker).1; awake = true } in
    (
      record u {
        worker = (pop_item u.worker).1;
        awake = false;
        handed = u.handed ++ handed_by (new_conn (pop_item u.worker).0 u.worker.thread_index);
      },
      record { between = u; first = hear a (ground arith); second = pop refl },
      ground arith,
      ground arith,
    )

abbrev item_for : ℕ → ℕ → ConnItem
item_for i fd = record { sfd = fd; mode = queue_new_conn; thread = i }

conn_dispatch_ok :
    (ws ws' : Workers) (i fd : ℕ) (written : Bool)
    → conn_dispatch ws i (connection fd) true written ≡ ok ws'
    → (2 < fd) × (ws' ≡ set_worker ws i (notify (push_item (ws i) (item_for i fd)) written))
unfolding conn_dispatch
conn_dispatch_ok ws ws' i fd written e = ground arith

-- The second step, by the success of the write.
told : Channel → Bool → Channel
told s true = record s { worker = notify s.worker true; pushed = false }
told s false = record s { worker = notify s.worker false; pushed = false; unheard = suc s.unheard }

told-Step : (s : Channel) (written : Bool) → s.pushed ≡ true → Step s (told s written)
unfolding told
told-Step s true p = tell p
told-Step s false p = tell_fails p

told_lem :
    (s : Channel) (written : Bool)
    → ((told s written).worker ≡ notify s.worker written) × ((told s written).accepted ≡ s.accepted)
unfolding told
told_lem s true = (refl, refl)
told_lem s false = (refl, refl)

-- A `conn_dispatch` of an accepted connection has the outcome of the step `push` of its worker's
-- channel, and then `tell` or `tell_fails`; no other worker is touched.
conn_dispatch-TwoSteps :
    (ws ws' : Workers) (i fd : ℕ) (written : Bool) (s : Channel)
    → s.pushed ≡ false
    → s.worker ≡ ws i
    → (ws i).thread_index ≡ i
    → conn_dispatch ws i (connection fd) true written ≡ ok ws'
    → (t : Channel) × TwoSteps s t
      × (ws' ≡ set_worker ws i t.worker)
      × (t.accepted ≡ s.accepted ++ fd ∷ [])
conn_dispatch-TwoSteps ws ws' i fd written s p w x e =
    let (big, same) = conn_dispatch_ok ws ws' i fd written e in
    let item = item_for s.worker.thread_index fd in
    let u : Channel = record s {
      worker = push_item s.worker item;
      pushed = true;
      accepted = s.accepted ++ fd ∷ [];
    } in
    let at : s.worker.thread_index ≡ i = ap (λ (v : Worker). v.thread_index) w ∙ x in
    (
      told u written,
      record { between = u; first = push fd p big; second = told-Step u written refl },
      same
          ∙ ap (set_worker ws i) (
              ap₂ (λ v k. notify (push_item v (item_for k fd)) written) (sym w) (sym at)
              ∙ sym (told_lem u written).0),
      (told_lem u written).1,
    )
