-- ===== src/DoubleBuf/Receiving.antt =====
-- The loop of `recv_thread` of double_buf_get.cpp.
use multiport_network.Base.{
  ℕ, zero, suc, ◌+◌, ◌≤◌, ◌<◌, ◌^◌, ◌≡◌, refl, ap, ◌∙◌, Bool, Bool-cases, true, false, ◌⊎◌, inl,
  inr, List, [], ◌∷◌, length, leb, ltb, if◌then◌else◌, arith,
}
use multiport_network.Interfaces.{Os, ReadReply, got, failed, eagain, ewouldblock}
use multiport_network.Connection.{Outcome, ok, ◌>>=◌}
use multiport_network.DoubleBuf.{Inbox, counted, recv_and_count, recv_sweep, recv_loop}

-- The inbox is one of these.
abbrev pub Has : Inbox → List Inbox → Type 0
Has i [] = ⊥
Has i (x ∷ xs) = (x ≡ i) ⊎ Has i xs

-- The error of a read that finds nothing.
abbrev pub IsTransient : ReadReply → Type 0
IsTransient (got bytes) = Unit {0}
IsTransient (failed errno) = (errno ≡ ewouldblock) ⊎ (errno ≡ eagain)

counted_goes :
    (x : Inbox) (r : ReadReply) → IsTransient r → (c : Bool × Inbox) × (counted x r ≡ ok c)
unfolding counted
counted_goes x (got bytes) h = (_, refl)
counted_goes x (failed errno) h = ((true, x), ground arith)

module _ {Net : Type 0} (os : Os Net) (i : Inbox) (Closed : Net → Type 0)
    (stays : (net : Net) (fd : ℕ) → Closed net → Closed (os.read net fd 3000).1)
    (transient : (net : Net) (fd : ℕ) → Closed net → IsTransient (os.read net fd 3000).0)
    (ended : (net : Net) → Closed net → (os.read net i.fd 3000).0 ≡ got [])
    (short : i.recved_bytes < i.target_recv_bytes) (small : i.recved_bytes < 2 ^ 64) where
  counted_closed : (r : ReadReply) → r ≡ got [] → counted i r ≡ ok (true, i)
  unfolding counted
  counted_closed (got []) e = ground arith
  counted_closed (got (b ∷ bytes)) e = cc
  counted_closed (failed errno) e = cc

  step_closed :
      (net : Net) → Closed net → recv_and_count os i net ≡ ok (true, i, (os.read net i.fd 3000).1)
  unfolding recv_and_count
  step_closed net c = ground (arith, counted_closed (os.read net i.fd 3000).0 (ended net c))

  step_goes :
      (x : Inbox) (net : Net)
      → Closed net
      → (b : Bool) × (x' : Inbox) × (net' : Net) × (recv_and_count os x net ≡ ok (b, x', net'))
        × Closed net'
  unfolding recv_and_count
  step_goes x net c = elim (Bool-cases (leb x.target_recv_bytes x.recved_bytes)) [
    | inl all_came ↦ (false, x, net, ground arith, c)
    | inr more ↦
        let ((b, x'), e) = counted_goes x (os.read net x.fd 3000).0 (transient net x.fd c) in
        (b, x', (os.read net x.fd 3000).1, ground arith, stays net x.fd c)
  ]

  -- A sweep over these leaves so many stopped, these inboxes, and these sockets.
  record Swept (inboxes : List Inbox) (o : Outcome (ℕ × List Inbox × Net)) (stop_count : ℕ)
      (left : List Inbox) (net : Net) : Type 0 where
    returns : o ≡ ok (stop_count, left, net)
    closed : Closed net
    same : length left ≡ length inboxes
    bound : stop_count ≤ length inboxes

  swept :
      (x x' : Inbox) (xs left : List Inbox) (net net' net'' : Net) (b : Bool) (k : ℕ)
      → recv_and_count os x net ≡ ok (b, x', net')
      → Swept xs (recv_sweep os xs net') k left net''
      → Swept (x ∷ xs) (recv_sweep os (x ∷ xs) net) (if b then k else k + 1) (x' ∷ left) net''
  unfolding recv_sweep
  swept x x' xs left net net' net'' b k e s = record {
    returns =
        ap
          (λ o. o >>= λ r.
            recv_sweep os xs r.2 >>= λ t. ok ((if r.0 then t.0 else t.0 + 1), r.1 ∷ t.1, t.2))
          e
        ∙ ap (λ o. o >>= λ t. ok ((if b then t.0 else t.0 + 1), x' ∷ t.1, t.2)) s.returns;
    closed = s.closed;
    same = omega (arith, s.same);
    bound = ground (arith, s.bound);
  }

  sweep_any :
      (xs : List Inbox) (net : Net)
      → Closed net
      → (k : ℕ) × (left : List Inbox) × (net' : Net) × Swept xs (recv_sweep os xs net) k left net'
  unfolding recv_sweep
  sweep_any [] net c =
      (0, [], net, record { returns = refl; closed = c; same = refl; bound = omega arith })
  sweep_any (x ∷ xs) net c =
      let (b, x', net', e, c') = step_goes x net c in
      let (k, left, net'', s) = sweep_any xs net' c' in
      (_, _, _, swept x x' xs left net net' net'' b k e s)

  -- A port that is short of its target does not stop.
  sweep_short :
      (xs : List Inbox) (net : Net)
      → Closed net
      → Has i xs
      → (k : ℕ) × (left : List Inbox) × (net' : Net) × Swept xs (recv_sweep os xs net) k left net'
        × Has i left
        × (k < length xs)
  sweep_short [] net c h = absurd h
  sweep_short (x ∷ xs) net c (inl same) =
      let net' = (os.read net i.fd 3000).1 in
      let (k, left, net'', s) = sweep_any xs net' (stays net i.fd c) in
      (
        k,
        i ∷ left,
        net'',
        swept x i xs left net net' net'' true k
            (ap (λ y. recv_and_count os y net) same ∙ step_closed net c) s,
        inl refl,
        omega (arith, s.bound),
      )
  sweep_short (x ∷ xs) net c (inr later) =
      let (b, x', net', e, c') = step_goes x net c in
      let (k, left, net'', s, h, less) = sweep_short xs net' c' later in
      (_, _, _, swept x x' xs left net net' net'' b k e s, inr h, ground (arith, less))

  goes :
      (n stop_count k : ℕ) (inboxes left : List Inbox) (net net' : Net)
      → Swept inboxes (recv_sweep os inboxes net) k left net'
      → stop_count < length inboxes
      → recv_loop os (suc n) stop_count inboxes net ≡ recv_loop os n k left net'
  unfolding recv_loop
  goes n stop_count k inboxes left net net' s less =
      let running : ltb stop_count (length inboxes) ≡ true = ground arith in
      ap
        (λ b. elim b [
          | false ↦ ok (stop_count, inboxes, net)
          | true ↦ recv_sweep os inboxes net >>= λ r. recv_loop os n r.0 r.1 r.2
        ])
        running
      ∙ ap (λ o. o >>= λ r. recv_loop os n r.0 r.1 r.2) s.returns

  -- `recv_thread` on any ports, on one of which the peer has closed the connection before all the
  -- bytes came that are awaited there: where reads go on to find the end of the stream on it, and
  -- reads on the other ports return what they may but no error other than EAGAIN or EWOULDBLOCK,
  -- its loop goes on for ever. However many sweeps it is given, it has neither stopped nor exited,
  -- and the bytes counted for that port are the same.
  pub recv_loop_spins :
      (n : ℕ) (inboxes : List Inbox) (net : Net) (stop_count : ℕ)
      → Closed net
      → Has i inboxes
      → stop_count < length inboxes
      → (k : ℕ) × (inboxes' : List Inbox) × (net' : Net) × (recv_loop os n stop_count inboxes net
          ≡ ok (k, inboxes', net'))
        × (k < length inboxes')
        × Has i inboxes'
  unfolding recv_loop
  recv_loop_spins zero inboxes net stop_count c h less = (stop_count, inboxes, net, refl, less, h)
  recv_loop_spins (suc n) inboxes net stop_count c h less =
      let (m, left, next, s, h', less') = sweep_short inboxes net c h in
      let (k, inboxes', net', e, more, has) =
        recv_loop_spins n left next m s.closed h' (omega (arith, s.same)) in
      (k, inboxes', net', goes n stop_count m inboxes left net next s less ∙ e, more, has)
