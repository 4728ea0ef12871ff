-- ===== src/DoubleBuf/Threads/Delivery.antt =====
-- The loop of `send_thread` of double_buf_get.cpp on all ports, over connections that move on.
use mathlib.Core.Path.{subst}
use multiport_network.Base.{
  ℕ, zero, suc, ◌+◌, ◌<◌, ◌≡◌, ◌≢◌, refl, sym, ap, ◌∙◌, Bool, ◌⊎◌, inl, inr, List, [], ◌∷◌, ◌++◌,
  arith, length, append-nil, if◌then◌else◌,
}
use multiport_network.Interfaces.{Os, OsLaws, Moves}
use multiport_network.Connection.{Outcome, ok, exits, fault, ◌>>=◌}
use multiport_network.GetBatch.Send.{Lane}
use multiport_network.GetBatch.Send.Lanes.{IsLane, to_send}
use multiport_network.GetBatch.Send.Loop.{AllLanes, total}
use multiport_network.DoubleBuf.{send_step}
use multiport_network.DoubleBuf.Threads.{send_sweep, send_sweeps}
use multiport_network.DoubleBuf.Threads.Advance.{Advances, Advanced, send_step-Advanced}

-- Descriptors, each with all that is to have been sent on it in the end.
abbrev pub Targets : Type 0
Targets = List (ℕ × List ℕ)

abbrev pub Without : ℕ → Targets → Type 0
Without fd [] = Unit {0}
Without fd (t ∷ ts) = (fd ≢ t.0) × Without fd ts

abbrev pub AllDistinct : Targets → Type 0
AllDistinct [] = Unit {0}
AllDistinct (t ∷ ts) = Without t.0 ts × AllDistinct ts

length-eq-0 : {A : Type 0} → (xs : List A) → length xs ≡ 0 → xs ≡ []
length-eq-0 [] e = refl
length-eq-0 (x ∷ xs) e = absurd (omega arith)

module _ {Net : Type 0} (sent : Net → ℕ → List ℕ) (stalls : Net → ℕ) where
  begins :
      (lanes : List Lane) (net : Net) (n : ℕ)
      → total lanes + stalls net < n
      → ((0 ≡ length lanes) × (total lanes ≡ 0))
        ⊎ ((0 < length lanes) × (total lanes + stalls net < n))
  begins [] net n enough = inl (refl, refl)
  begins (l ∷ lanes) net n enough = inr (omega arith, enough)

  -- The lanes on the way to their targets.
  abbrev pub Sending : Net → Targets → List Lane → Type 0
  Sending net [] [] = Unit {0}
  Sending net [] (l ∷ ls) = ⊥
  Sending net (t ∷ ts) [] = ⊥
  Sending net (t ∷ ts) (l ∷ ls) =
      IsLane l × (l.fd ≡ t.0) × (sent net t.0 ++ to_send l ≡ t.1) × Sending net ts ls

  abbrev pub Delivered : Net → Targets → Type 0
  Delivered net [] = Unit {0}
  Delivered net (t ∷ ts) = (sent net t.0 ≡ t.1) × Delivered net ts

  pub record Swept (ts : Targets) (ls ls' : List Lane) (net net' : Net) (stop_count : ℕ)
      : Type 0 where
    pub sending : Sending net' ts ls'
    pub lanes : length ls' ≡ length ls
    pub others : (fd : ℕ) → Without fd ts → sent net' fd ≡ sent net fd
    pub less :
        ((stop_count ≡ length ls) × (total ls ≡ 0) × (total ls' ≡ 0) × (stalls net' ≡ stalls net))
        ⊎ ((stop_count < length ls) × (total ls' + stalls net' < total ls + stalls net))

  abbrev pub Sweeps : Targets → List Lane → Net → Outcome (ℕ × List Lane × Net) → Type 0
  Sweeps ts ls net (ok (stop_count, ls', net')) = Swept ts ls ls' net net' stop_count
  Sweeps ts ls net exits = ⊥
  Sweeps ts ls net fault = ⊥

  -- What is sent on another connection does not matter.
  frame :
      (fd : ℕ) (net net' : Net) (ts : Targets) (ls : List Lane)
      → ((other : ℕ) → other ≢ fd → sent net' other ≡ sent net other)
      → Without fd ts
      → Sending net ts ls
      → Sending net' ts ls
  frame fd net net' [] [] same w h = tt
  frame fd net net' [] (l ∷ ls) same w h = h
  frame fd net net' (t ∷ ts) [] same w h = h
  frame fd net net' (t ∷ ts) (l ∷ ls) same (here, w) (v, at, e, h) = (
    v,
    at,
    ap (λ bs. bs ++ to_send l) (same t.0 (λ x. here (sym x))) ∙ e,
    frame fd net net' ts ls same w h,
  )

  swept-Sweeps :
      (t : ℕ × List ℕ) (ts : Targets) (l l' : Lane) (ls : List Lane) (net net₁ : Net)
      (stopped : Bool) (o : Outcome (ℕ × List Lane × Net))
      → l.fd ≡ t.0
      → sent net t.0 ++ to_send l ≡ t.1
      → Without t.0 ts
      → Advances sent stalls stopped l l' net net₁
      → Sweeps ts ls net₁ o
      → Sweeps
          (t ∷ ts)
          (l ∷ ls)
          net
          (o >>= λ s. ok ((if stopped then s.0 + 1 else s.0), l' ∷ s.1, s.2))
  swept-Sweeps t ts l l' ls net net₁ stopped exits at e w a h = absurd h
  swept-Sweeps t ts l l' ls net net₁ stopped fault at e w a h = absurd h
  swept-Sweeps t ts l l' ls net net₁ stopped (ok (stop_count, ls', net')) at e w a h = record {
    sending = (
      a.lane,
      a.same_fd ∙ at,
      ap (λ bs. bs ++ to_send l') (h.others t.0 w)
          ∙ subst (λ fd. sent net₁ fd ++ to_send l' ≡ sent net fd ++ to_send l) at a.same_bytes
          ∙ e,
      h.sending,
    );
    lanes = omega (arith, h.lanes);
    others = λ fd (here, more). h.others fd more ∙ a.others fd (λ x. here (x ∙ at));
    less = ground arith;
  }

  module _ (os : Os Net) (laws : OsLaws os) (moves : Moves os sent stalls) where
    stepped-Sweeps :
        (t : ℕ × List ℕ) (ts : Targets) (l : Lane) (ls : List Lane) (net : Net)
        (o : Outcome (Bool × Lane × Net))
        → l.fd ≡ t.0
        → sent net t.0 ++ to_send l ≡ t.1
        → Without t.0 ts
        → Advanced sent stalls l net o
        → Sending net ts ls
        → ((net₁ : Net) → Sending net₁ ts ls → Sweeps ts ls net₁ (send_sweep os ls net₁))
        → Sweeps (t ∷ ts) (l ∷ ls) net (
            o >>= λ r.
            send_sweep os ls r.2 >>= λ s. ok ((if r.0 then s.0 + 1 else s.0), r.1 ∷ s.1, s.2))
    stepped-Sweeps t ts l ls net exits at e w a h go = absurd a
    stepped-Sweeps t ts l ls net fault at e w a h go = absurd a
    stepped-Sweeps t ts l ls net (ok (stopped, l', net₁)) at e w a h go =
        swept-Sweeps t ts l l' ls net net₁ stopped (send_sweep os ls net₁) at e w a
          (go net₁ (frame t.0 net net₁ ts ls (λ fd other. a.others fd (λ x. other (x ∙ at))) w h))

    send_sweep-Sweeps :
        (ts : Targets) (ls : List Lane) (net : Net)
        → AllDistinct ts
        → Sending net ts ls
        → Sweeps ts ls net (send_sweep os ls net)
    unfolding send_sweep
    send_sweep-Sweeps [] [] net d h = record {
      sending = tt;
      lanes = refl;
      others = λ fd w. refl;
      less = inl (refl, refl, refl, refl);
    }
    send_sweep-Sweeps [] (l ∷ ls) net d h = absurd h
    send_sweep-Sweeps (t ∷ ts) [] net d h = absurd h
    send_sweep-Sweeps (t ∷ ts) (l ∷ ls) net (w, d) (v, at, e, h) =
        stepped-Sweeps t ts l ls net (send_step os l net) at e w
          (send_step-Advanced sent stalls os laws moves l net v) h
          (λ net₁ h₁. send_sweep-Sweeps ts ls net₁ d h₁)

    -- The whole loop: it returns, with every port stopped and all that was to be sent delivered.
    abbrev pub Completes : Targets → ℕ → Outcome (ℕ × List Lane × Net) → Type 0
    Completes ts port_num (ok (stop_count, ls', net')) =
        (stop_count ≡ port_num) × Sending net' ts ls' × (total ls' ≡ 0)
    Completes ts port_num exits = ⊥
    Completes ts port_num fault = ⊥

    swept-Completes :
        (n : ℕ) (ts : Targets) (ls : List Lane) (net : Net) (o : Outcome (ℕ × List Lane × Net))
        → total ls + stalls net < suc n
        → Sweeps ts ls net o
        → ((stop_count : ℕ) (ls' : List Lane) (net' : Net)
            → Sending net' ts ls'
            → ((stop_count ≡ length ls') × (total ls' ≡ 0))
              ⊎ ((stop_count < length ls') × (total ls' + stalls net' < n))
            → Completes ts (length ls') (send_sweeps os n stop_count ls' net'))
        → Completes ts (length ls) (o >>= λ s. send_sweeps os n s.0 s.1 s.2)
    swept-Completes n ts ls net exits less h go = absurd h
    swept-Completes n ts ls net fault less h go = absurd h
    swept-Completes n ts ls net (ok (stop_count, ls', net')) less h go =
        subst (λ k. Completes ts k (send_sweeps os n stop_count ls' net')) h.lanes
          (go stop_count ls' net' h.sending (ground (arith, h.less, h.lanes)))

    send_sweeps_done :
        (n stop_count : ℕ) (ls : List Lane) (net : Net)
        → stop_count ≡ length ls
        → send_sweeps os (suc n) stop_count ls net ≡ ok (stop_count, ls, net)
    unfolding send_sweeps
    send_sweeps_done n stop_count ls net s = ground arith

    send_sweeps_more :
        (n stop_count : ℕ) (ls : List Lane) (net : Net)
        → stop_count < length ls
        → send_sweeps os (suc n) stop_count ls net
          ≡ (send_sweep os ls net >>= λ s. send_sweeps os n s.0 s.1 s.2)
    unfolding send_sweeps
    send_sweeps_more n stop_count ls net s = ground arith

    send_sweeps_none :
        (stop_count : ℕ) (ls : List Lane) (net : Net)
        → send_sweeps os zero stop_count ls net ≡ ok (stop_count, ls, net)
    unfolding send_sweeps
    send_sweeps_none stop_count ls net = refl

    send_sweeps-Completes :
        (n stop_count : ℕ) (ts : Targets) (ls : List Lane) (net : Net)
        → AllDistinct ts
        → Sending net ts ls
        → ((stop_count ≡ length ls) × (total ls ≡ 0))
          ⊎ ((stop_count < length ls) × (total ls + stalls net < n))
        → Completes ts (length ls) (send_sweeps os n stop_count ls net)
    send_sweeps-Completes zero stop_count ts ls net d h (inl (s, t)) =
        subst (Completes ts (length ls)) (sym (send_sweeps_none stop_count ls net)) (s, h, t)
    send_sweeps-Completes zero stop_count ts ls net d h (inr (s, t)) = absurd (omega arith)
    send_sweeps-Completes (suc n) stop_count ts ls net d h (inl (s, t)) =
        subst (Completes ts (length ls)) (sym (send_sweeps_done n stop_count ls net s)) (s, h, t)
    send_sweeps-Completes (suc n) stop_count ts ls net d h (inr (s, t)) =
        subst (Completes ts (length ls)) (sym (send_sweeps_more n stop_count ls net s)) (
          swept-Completes n ts ls net (send_sweep os ls net) t (send_sweep-Sweeps ts ls net d h)
            (λ k ls' net' h' c. send_sweeps-Completes n k ts ls' net' d h' c))

  -- All that the lanes are to send, behind what was sent before.
  abbrev pub targets_of : Net → List Lane → Targets
  targets_of net [] = []
  targets_of net (l ∷ ls) = (l.fd, sent net l.fd ++ to_send l) ∷ targets_of net ls

  targets_of-Sending :
      (net : Net) (ls : List Lane) → AllLanes ls → Sending net (targets_of net ls) ls
  targets_of-Sending net [] h = tt
  targets_of-Sending net (l ∷ ls) (v, h) = (v, refl, refl, targets_of-Sending net ls h)

  Sending-Delivered :
      (net : Net) (ts : Targets) (ls : List Lane)
      → Sending net ts ls
      → total ls ≡ 0
      → Delivered net ts
  Sending-Delivered net [] [] h t = tt
  Sending-Delivered net [] (l ∷ ls) h t = absurd h
  Sending-Delivered net (x ∷ ts) [] h t = absurd h
  Sending-Delivered net (x ∷ ts) (l ∷ ls) (v, at, e, h) t = (
    sym (append-nil (sent net x.0))
        ∙ ap (◌++◌ (sent net x.0)) (sym (length-eq-0 (to_send l) (omega arith)))
        ∙ e,
    Sending-Delivered net ts ls h (omega arith),
  )

  -- What the loop returns where it delivers.
  abbrev pub Delivers : Net → List Lane → Outcome (ℕ × List Lane × Net) → Type 0
  Delivers net lanes (ok (stop_count, lanes', net')) =
      (stop_count ≡ length lanes) × Delivered net' (targets_of net lanes)
  Delivers net lanes exits = ⊥
  Delivers net lanes fault = ⊥

  Completes-Delivers :
      (os : Os Net) (laws : OsLaws os) (moves : Moves os sent stalls) (net : Net)
      (lanes : List Lane) (o : Outcome (ℕ × List Lane × Net))
      → Completes os laws moves (targets_of net lanes) (length lanes) o
      → Delivers net lanes o
  Completes-Delivers os laws moves net lanes (ok (stop_count, lanes', net')) (s, h, t) =
      (s, Sending-Delivered net' (targets_of net lanes) lanes' h t)
  Completes-Delivers os laws moves net lanes exits h = h
  Completes-Delivers os laws moves net lanes fault h = h

  -- Over connections of their own that move on, where the thread's parts lie in the vectors, the
  -- loop of a round returns within as many sweeps as there are bytes to send and refusals to
  -- come, and one: with every port stopped, and on each connection just the bytes that were to be
  -- sent there, in their order, behind what was sent before.
  pub send_sweeps-Delivers :
      (os : Os Net)
      → OsLaws os
      → Moves os sent stalls
      → (lanes : List Lane) (net : Net) (n : ℕ) → AllLanes lanes
      → AllDistinct (targets_of net lanes)
      → total lanes + stalls net < n
      → Delivers net lanes (send_sweeps os n 0 lanes net)
  send_sweeps-Delivers os laws moves lanes net n h d enough =
      Completes-Delivers os laws moves net lanes (send_sweeps os n 0 lanes net) (
        send_sweeps-Completes os laws moves n 0 (targets_of net lanes) lanes net d
          (targets_of-Sending net lanes h) (begins lanes net n enough))
