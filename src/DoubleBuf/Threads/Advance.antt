-- ===== src/DoubleBuf/Threads/Advance.antt =====
-- A step and a sweep of `send_thread` of double_buf_get.cpp, on what is sent on each connection.
use mathlib.Core.Path.{subst, ap₂}
use multiport_network.Base.{
  ℕ, zero, suc, ◌+◌, ◌<◌, ◌≡◌, ◌≢◌, refl, sym, ap, ◌∙◌, Bool, true, false, ◌⊎◌, inl, inr, List,
  ◌++◌, arith, length, take, drop, append_assoc, take-append-drop, length-drop, length-take,
}
use multiport_network.Interfaces.{Os, OsLaws, Moves}
use multiport_network.Connection.{Outcome, ok, exits, fault}
use multiport_network.GetBatch.Send.{Lane}
use multiport_network.GetBatch.Send.Lanes.{IsLane, ahead, to_send}
use multiport_network.GetBatch.Send.Steps.{front}
use multiport_network.DoubleBuf.{send_step}
use multiport_network.DoubleBuf.Sending.{Tries, send_step-Tries}

zero_or_more : (n : ℕ) → (n ≡ 0) ⊎ (0 < n)
zero_or_more zero = inl refl
zero_or_more (suc n) = inr (omega arith)

module _ {Net : Type 0} (sent : Net → ℕ → List ℕ) (stalls : Net → ℕ) where
  -- From one lane and network to the next: what is sent and what is to be sent are together the
  -- same bytes, and no other connection is touched.
  pub record Advances (stopped : Bool) (l l' : Lane) (net net' : Net) : Type 0 where
    pub lane : IsLane l'
    pub same_fd : l'.fd ≡ l.fd
    pub same_bytes : sent net' l.fd ++ to_send l' ≡ sent net l.fd ++ to_send l
    pub others : (fd : ℕ) → fd ≢ l.fd → sent net' fd ≡ sent net fd
    pub less :
        ((stopped ≡ true)
          × (length (to_send l) ≡ 0)
          × (length (to_send l') ≡ 0)
          × (stalls net' ≡ stalls net))
        ⊎ ((stopped ≡ false)
            × (length (to_send l') + stalls net' < length (to_send l) + stalls net))

  abbrev pub Advanced : Lane → Net → Outcome (Bool × Lane × Net) → Type 0
  Advanced l net (ok (stopped, l', net')) = Advances stopped l l' net net'
  Advanced l net exits = ⊥
  Advanced l net fault = ⊥

  module _ (os : Os Net) (laws : OsLaws os) (moves : Moves os sent stalls) where
    moved_less :
        (l l' : Lane) (net : Net)
        → let call = os.write net l.fd (front (ahead l)) in
          to_send l' ≡ drop call.0.count (to_send l)
          → 0 < length (front (ahead l))
          → take call.0.count (front (ahead l)) ≡ take call.0.count (to_send l)
          → length (to_send l') + stalls call.1 < length (to_send l) + stalls net
    moved_less l l' net d some_bytes t =
        let handed = front (ahead l) in
        let count = (os.write net l.fd handed).0.count in
        elim (zero_or_more count) [
          | inl none_taken ↦ omega (
            arith,
            ap length d,
            length-drop count (to_send l),
            moves.write_waits net l.fd handed some_bytes none_taken,
          )
          | inr taken ↦ omega (
            arith,
            ap length d,
            length-drop count (to_send l),
            ap length t,
            length-take count handed,
            length-take count (to_send l),
            laws.write_bound net l.fd handed,
            moves.write_moves net l.fd handed taken,
          )
        ]

    tried-Advanced :
        (l : Lane) (net : Net) (o : Outcome (Bool × Lane × Net))
        → IsLane l
        → Tries os l net o
        → Advanced l net o
    tried-Advanced l net fault v h = absurd h
    tried-Advanced l net exits v (none_taken, why, some_bytes) =
        absurd (why (moves.write_waits net l.fd (front (ahead l)) some_bytes none_taken).0)
    tried-Advanced l net (ok (true, l', net')) v (done, same, same_net) =
        subst (λ x. Advances true l x net net') (sym same)
          (subst (Advances true l l net) (sym same_net) (record {
            lane = v;
            same_fd = refl;
            same_bytes = refl;
            others = λ fd h. refl;
            less = inl (refl, ap length done, ap length done, refl);
          }))
    tried-Advanced l net (ok (false, l', net')) v (d, v', same_fd, n, some_bytes, t) =
        let handed = front (ahead l) in
        let count = (os.write net l.fd handed).0.count in
        subst (Advances false l l' net) (sym n) (record {
          lane = v';
          same_fd = same_fd;
          same_bytes =
              ap₂ ◌++◌ (moves.write_self net l.fd handed ∙ ap (◌++◌ (sent net l.fd)) t) d
              ∙ append_assoc (sent net l.fd) (take count (to_send l)) (drop count (to_send l))
              ∙ ap (◌++◌ (sent net l.fd)) (take-append-drop count (to_send l));
          others = λ fd h. moves.write_other net l.fd fd handed h;
          less = inr (refl, moved_less l l' net d some_bytes t);
        })

    -- A step on a port where the thread's part lies in the vector.
    pub send_step-Advanced : (l : Lane) (net : Net) → IsLane l → Advanced l net (send_step os l net)
    send_step-Advanced l net v =
        tried-Advanced l net (send_step os l net) v (send_step-Tries os laws l net v)
