-- ===== src/Server/Setup/Running.antt =====
-- The workers that `init_workers` of server.cpp sets up and starts, where every call succeeds.
use mathlib.Core.Path.{subst, ap₂}
use multiport_network.Base.{
  ℕ, zero, suc, ◌+◌, ◌≤◌, ◌<◌, ◌≡◌, refl, sym, ap, ◌∙◌, Bool-cases, inl, inr, none, some, List, [],
  ◌∷◌, ◌++◌, append_assoc, append-nil, arith, ◌==◌, if◌then◌else◌,
}
use multiport_network.Connection.{ok, exits, ◌>>=◌}
use multiport_network.Server.Setup.Calls.{
  Call, watches, starts, Works, IsSetUp, IsRunning, wake_calls, wakes, spawns,
}
use multiport_network.Server.Setup.{
  libevent_process, Event, Platform, ThreadInfo, ThreadInfos, blank_infos, set_info, watch_pipe,
  setup_worker, create_info, create_infos, create_thread, create_threads, init_workers,
}

set_info-same : (infos : ThreadInfos) (i : ℕ) (me : ThreadInfo) → set_info infos i me i ≡ me
unfolding set_info
set_info-same infos i me = ground arith

set_info-below :
    (infos : ThreadInfos) (i j : ℕ) (me : ThreadInfo) → j < i → set_info infos i me j ≡ infos j
unfolding set_info
set_info-below infos i j me less = ground arith

set_info-above :
    (infos : ThreadInfos) (i j : ℕ) (me : ThreadInfo) → i < j → set_info infos i me j ≡ infos j
unfolding set_info
set_info-above infos i j me less = ground arith

-- What holds at `i` and from `i + 1` on.
from_next :
    (P : ℕ → Type 0) (i n : ℕ)
    → P i
    → ((j : ℕ) → i + 1 ≤ j → j < i + 1 + n → P j)
    → (j : ℕ) → i ≤ j
    → j < i + suc n
    → P j
from_next P i n here later j from to = elim (Bool-cases (j == i)) [
  | inl same ↦ let e : i ≡ j = ground arith in subst P e here
  | inr other ↦ later j (ground arith) (omega arith)
]

wakes-eq :
    (infos infos' : ThreadInfos) (n i : ℕ)
    → ((j : ℕ) → i ≤ j → j < i + n → (infos' j).notify_event ≡ (infos j).notify_event)
    → wakes infos n i ≡ wakes infos' n i
wakes-eq infos infos' zero i h = refl
wakes-eq infos infos' (suc n) i h =
    ap₂ (λ e xs. wake_calls e ++ xs) (sym (h i (omega arith) (omega arith)))
      (wakes-eq infos infos' n (i + 1) (λ j from to. h j (omega arith) (omega arith)))

module _ {Sys : Type 0} (pl : Platform Sys) (log : Sys → List Call) (w : Works pl log) where
  abbrev pipe_event : ThreadInfo → ℕ → ℕ → Event
  pipe_event me i base = record {
    base = base;
    fd = me.notify_receive_fd;
    handler = libevent_process i;
  }

  watch_pipe_works :
      (me : ThreadInfo) (i base : ℕ) (s : Sys)
      → (s' : Sys) × (watch_pipe pl me i base s
          ≡ ok (record me { base = some base; notify_event = some (pipe_event me i base) }, s'))
        × (log s' ≡ log s ++ watches (pipe_event me i base) ∷ [])
  unfolding watch_pipe
  watch_pipe_works me i base s =
      let (s', e, l) = w.add_works s (pipe_event me i base) in
      (
        s',
        ap
            (λ x.
              if x.0
              then ok
                  (record me { base = some base; notify_event = some (pipe_event me i base) }, x.1)
              else exits)
            e,
        l,
      )

  create_info_works :
      (i : ℕ) (me : ThreadInfo) (s : Sys)
      → (me' : ThreadInfo) × (s' : Sys) × (create_info pl i me s ≡ ok (me', s'))
        × IsSetUp i me'
        × (log s' ≡ log s ++ wake_calls me'.notify_event)
  unfolding create_info setup_worker
  create_info_works i me s =
      let (f, s₁, e₁, l₁) = w.pipe_works s in
      let (base, s₂, e₂, l₂) = w.nolock_works s₁ in
      let me₁ = record me { notify_receive_fd = f.0; notify_send_fd = f.1; thread_index = i } in
      let (s₃, e₃, l₃) = watch_pipe_works me₁ i base s₂ in
      (
        record me₁ { base = some base; notify_event = some (pipe_event me₁ i base) },
        s₃,
        ap
              (λ x. elim x.0 [
                | none ↦ exits
                | some g ↦
                    setup_worker pl
                      (record me {
                        notify_receive_fd = g.0;
                        notify_send_fd = g.1;
                        thread_index = i;
                      })
                      i x.1
              ])
              e₁
            ∙ ap (λ x. elim x.0 [ none ↦ exits | some b ↦ watch_pipe pl me₁ i b x.1 ]) e₂
            ∙ e₃,
        record { index = refl; own_base = base; has_base = refl; watches_pipe = refl },
        l₃ ∙ ap (λ xs. xs ++ watches (pipe_event me₁ i base) ∷ []) (l₂ ∙ l₁),
      )

  create_infos_works :
      (n i : ℕ) (infos : ThreadInfos) (s : Sys)
      → (infos' : ThreadInfos) × (s' : Sys) × (create_infos pl n i infos s ≡ ok (infos', s'))
        × ((j : ℕ) → j < i → infos' j ≡ infos j)
        × ((j : ℕ) → i ≤ j → j < i + n → IsSetUp j (infos' j))
        × (log s' ≡ log s ++ wakes infos' n i)
  unfolding create_infos
  create_infos_works zero i infos s =
      (infos, s, refl, λ j less. refl, λ j from to. absurd (omega arith), sym (append-nil (log s)))
  create_infos_works (suc n) i infos s =
      let (me, s₁, e₁, v, l₁) = create_info_works i (infos i) s in
      let infos₁ = set_info infos i me in
      let (infos', s', e, kept, set_up, l) = create_infos_works n (i + 1) infos₁ s₁ in
      let here : infos' i ≡ me = kept i (omega arith) ∙ set_info-same infos i me in
      (
        infos',
        s',
        ap (λ o. o >>= λ r. create_infos pl n (i + 1) (set_info infos i r.0) r.1) e₁ ∙ e,
        λ j less. kept j (omega arith) ∙ set_info-below infos i j me less,
        from_next (λ j. IsSetUp j (infos' j)) i n (subst (IsSetUp i) (sym here) v) set_up,
        l
            ∙ ap (λ xs. xs ++ wakes infos' n (i + 1)) l₁
            ∙ append_assoc (log s) (wake_calls me.notify_event) (wakes infos' n (i + 1))
            ∙ ap
                (λ (x : ThreadInfo). log s ++ (wake_calls x.notify_event ++ wakes infos' n (i + 1)))
                (sym here),
      )

  create_thread_works :
      (i : ℕ) (me : ThreadInfo) (s : Sys)
      → IsSetUp i me
      → (me' : ThreadInfo) × (s' : Sys) × (create_thread pl me s ≡ ok (me', s'))
        × IsRunning i me'
        × (me'.notify_event ≡ me.notify_event)
        × (log s' ≡ log s ++ starts i ∷ [])
  unfolding create_thread
  create_thread_works i me s v =
      let (id, s', e, l) = w.create_works s me.thread_index in
      (
        record me { thread_id = some id },
        s',
        ap (λ x. elim x.0 [ none ↦ exits | some t ↦ ok (record me { thread_id = some t }, x.1) ]) e,
        record {
          set_up = record {
            index = v.index;
            own_base = v.own_base;
            has_base = v.has_base;
            watches_pipe = v.watches_pipe;
          };
          id = id;
          created = refl;
        },
        refl,
        l ∙ ap (λ k. log s ++ starts k ∷ []) v.index,
      )

  create_threads_works :
      (n i : ℕ) (infos : ThreadInfos) (s : Sys)
      → ((j : ℕ) → i ≤ j → j < i + n → IsSetUp j (infos j))
      → (infos' : ThreadInfos) × (s' : Sys) × (create_threads pl n i infos s ≡ ok (infos', s'))
        × ((j : ℕ) → j < i → infos' j ≡ infos j)
        × ((j : ℕ)
            → i ≤ j
            → j < i + n
            → IsRunning j (infos' j) × ((infos' j).notify_event ≡ (infos j).notify_event))
        × (log s' ≡ log s ++ spawns n i)
  unfolding create_threads
  create_threads_works zero i infos s h =
      (infos, s, refl, λ j less. refl, λ j from to. absurd (omega arith), sym (append-nil (log s)))
  create_threads_works (suc n) i infos s h =
      let (me, s₁, e₁, v, same, l₁) =
        create_thread_works i (infos i) s (h i (omega arith) (omega arith)) in
      let infos₁ = set_info infos i me in
      let above : (j : ℕ) → i < j → infos₁ j ≡ infos j =
        λ j less. set_info-above infos i j me less in
      let (infos', s', e, kept, running, l) = create_threads_works n (i + 1) infos₁ s₁ (λ j from to.
        subst (IsSetUp j) (sym (above j (omega arith))) (h j (omega arith) (omega arith))) in
      let here : infos' i ≡ me = kept i (omega arith) ∙ set_info-same infos i me in
      (
        infos',
        s',
        ap (λ o. o >>= λ r. create_threads pl n (i + 1) (set_info infos i r.0) r.1) e₁ ∙ e,
        λ j less. kept j (omega arith) ∙ set_info-below infos i j me less,
        from_next (λ j. IsRunning j (infos' j) × ((infos' j).notify_event ≡ (infos j).notify_event))
            i n
            (subst (IsRunning i) (sym here) v, ap (λ (x : ThreadInfo). x.notify_event) here ∙ same)
            (λ j from to. (
              (running j from to).0,
              (running j from to).1
                  ∙ ap (λ (x : ThreadInfo). x.notify_event) (above j (omega arith)),
            )),
        l
            ∙ ap (λ xs. xs ++ spawns n (i + 1)) l₁
            ∙ append_assoc (log s) (starts i ∷ []) (spawns n (i + 1)),
      )

  pub init_workers_works :
      (n : ℕ) (s : Sys)
      → (infos : ThreadInfos) × (s' : Sys) × (init_workers pl n s ≡ ok (infos, s'))
        × ((i : ℕ) → i < n → IsRunning i (infos i))
        × (log s' ≡ log s ++ (wakes infos n 0 ++ spawns n 0))
  unfolding init_workers
  init_workers_works n s =
      let (infos₁, s₁, e₁, kept, set_up, l₁) = create_infos_works n 0 blank_infos s in
      let (infos, s', e, same, running, l) = create_threads_works n 0 infos₁ s₁ set_up in
      (
        infos,
        s',
        ap (λ o. o >>= λ r. create_threads pl n 0 r.0 r.1) e₁ ∙ e,
        λ i less. (running i (omega arith) (omega arith)).0,
        l
            ∙ ap (λ xs. xs ++ spawns n 0) l₁
            ∙ append_assoc (log s) (wakes infos₁ n 0) (spawns n 0)
            ∙ ap (λ xs. log s ++ (xs ++ spawns n 0))
                (wakes-eq infos₁ infos n 0 (λ j from to. (running j from to).1)),
      )
