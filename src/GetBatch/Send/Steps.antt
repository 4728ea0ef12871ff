-- ===== src/GetBatch/Send/Steps.antt =====
-- `fetch_and_send` and a step of the loop of `data_dispatch` of get_batch_test.cpp on one port.
use multiport_network.Base.{
  ℕ, zero, suc, ◌+◌, ◌-◌, ◌≤◌, ◌<◌, ◌≡◌, ◌⊎◌, inl, inr, sym, refl, ap, ◌∙◌, Bool, true, false, ◌&&◌,
  Option, none, some, List, [], ◌∷◌, arith, length, take, drop, leb, if◌then◌else◌, length-take,
  length-drop,
}
use mathlib.Core.Path.{ap₂}
use multiport_network.Base.Buffers.{slice}
use multiport_network.Interfaces.{Sockets}
use multiport_network.Connection.{Outcome, ok, exits, fault, ◌>>=◌}
use multiport_network.GetBatch.{BatchObj}
use multiport_network.GetBatch.Send.{
  Lane, after_write, after_recv, receive, after_send, fetch_and_send, lane_step,
}
use multiport_network.GetBatch.Send.Lanes.{
  ahead, to_send, unsent_objs, IsLane, after_write-Steps, ahead_lem,
}

-- `write` takes at most what it is handed.
pub record IsBounded {Net : Type 0} (so : Sockets Net) : Type 0 where
  pub write_bound :
      (net : Net) (fd : ℕ) (bytes : List ℕ) (n : ℕ)
      → (so.write net fd bytes).0 ≡ some n
      → n ≤ length bytes

-- The bytes that the next `write` is handed.
abbrev pub front : List BatchObj → List ℕ
front [] = []
front (b ∷ bs) = slice b.buf b.offset (b.datalen - b.offset)

-- A call on a descriptor failed: the `write` of these bytes, or it took nothing, or the `read`
-- behind it failed.
abbrev pub CallFails : {Net : Type 0} → Sockets Net → Net → ℕ → List ℕ → Type 0
CallFails so net fd bytes =
    ((so.write net fd bytes).0 ≡ none)
    ⊎ (((so.write net fd bytes).0 ≡ some 0)
        ⊎ ((so.read (so.write net fd bytes).1 fd 4000).0 ≡ none))

-- What the sockets are after any number of such calls.
pub data Reaches {Net : Type 0} (so : Sockets Net) : Net → Net → Type 0 where
  none_called : (net : Net) → Reaches so net net
  called :
      (net net' : Net) (fd : ℕ) (bytes : List ℕ)
      → Reaches so (so.read (so.write net fd bytes).1 fd 4000).1 net'
      → Reaches so net net'

-- A step of a lane: it had nothing to send; or `write` was handed the rest of the batch in front
-- and took some bytes, which are off the front of what is to be sent, and `read` followed; or the program ended, on a
-- call that failed.
abbrev pub Steps : {Net : Type 0} → Sockets Net → Lane → Net → Outcome (Bool × Lane × Net) → Type 0
Steps so l net (ok (true, l', net')) = (to_send l ≡ []) × (l' ≡ l) × (net' ≡ net)
Steps so l net (ok (false, l', net')) =
    (n : ℕ) × ((so.write net l.fd (front (ahead l))).0 ≡ some n)
    × (to_send l' ≡ drop n (to_send l))
    × (length (to_send l') < length (to_send l))
    × IsLane l'
    × (net' ≡ (so.read (so.write net l.fd (front (ahead l))).1 l.fd 4000).1)
Steps so l net exits = CallFails so net l.fd (front (ahead l))
Steps so l net fault = ⊥

abbrev with_net : {Net : Type 0} → Net → Lane → Outcome (Lane × Net)
with_net net l = ok (l, net)

after_write-fd :
    (l : Lane) (before : List BatchObj) (b : BatchObj) (behind : List BatchObj) (ret : ℕ)
    → (after_write l before b behind ret).fd ≡ l.fd
unfolding after_write
after_write-fd l before b behind ret = ground arith

recv-IsLane : (l : Lane) (n : ℕ) → IsLane l → IsLane (record l { recv_bytes = n })
recv-IsLane l n v = record {
  within = v.within;
  reached = v.reached;
  last = v.last;
  small = v.small;
  ready = v.ready;
}

module _ {Net : Type 0} (so : Sockets Net) (bounded : IsBounded so) where
  module _ (l : Lane) (v : IsLane l) (net : Net) (more : l.working_offset < l.work_len) where
    recv-Steps :
        (n : ℕ) (l' : Lane) (net' : Net) (r : Option (List ℕ))
        → (so.write net l.fd (front (ahead l))).0 ≡ some n
        → to_send l' ≡ drop n (to_send l)
        → length (to_send l') < length (to_send l)
        → IsLane l'
        → so.read (so.write net l.fd (front (ahead l))).1 l.fd 4000 ≡ (r, net')
        → Steps so l net ((after_recv l' r >>= with_net net') >>= λ y. ok (false, y.0, y.1))
    unfolding after_recv
    recv-Steps n l' net' none w d less v' e = inr (inr (ap (λ x. x.0) e))
    recv-Steps n l' net' (some bytes) w d less v' e =
        (n, w, d, less, recv-IsLane l' _ v', sym (ap (λ x. x.1) e))

    handed :
        (b : BatchObj) (behind : List BatchObj)
        → drop (l.working_list + l.working_offset) l.batches ≡ b ∷ behind
        → so.write net l.fd (front (ahead l))
          ≡ so.write net l.fd (slice b.buf b.offset (b.datalen - b.offset))
    handed b behind here =
        ap (λ bs. so.write net l.fd (front bs)) (ahead_lem l v b behind here more)

    sent-Steps :
        (b : BatchObj) (behind : List BatchObj) (ret : Option ℕ) (net' : Net)
        → drop (l.working_list + l.working_offset) l.batches ≡ b ∷ behind
        → so.write net l.fd (slice b.buf b.offset (b.datalen - b.offset)) ≡ (ret, net')
        → Steps so l net (
            after_send so l (take (l.working_list + l.working_offset) l.batches) b behind ret net'
            >>= λ r. ok (false, r.0, r.1))
    unfolding after_send receive
    sent-Steps b behind none net' here e = inl (ap (λ x. x.0) (handed b behind here ∙ e))
    sent-Steps b behind (some zero) net' here e =
        inr (inl (ap (λ x. x.0) (handed b behind here ∙ e)))
    sent-Steps b behind (some (suc n)) net' here e =
        let le : suc n ≤ b.datalen - b.offset = omega (
          arith,
          bounded.write_bound net l.fd (slice b.buf b.offset (b.datalen - b.offset)) (suc n)
              (ap (λ x. x.0) e),
          length-take (b.datalen - b.offset) (drop b.offset b.buf),
        ) in
        let (d, less, v') = after_write-Steps l v b behind here more (suc n) (omega arith) le in
        let l' =
          after_write l (take (l.working_list + l.working_offset) l.batches) b behind (suc n) in
        recv-Steps (suc n) l' (so.read net' l'.fd 4000).1 (so.read net' l'.fd 4000).0
          (ap (λ x. x.0) (handed b behind here ∙ e)) d less v'
          (ap₂ (λ x fd. so.read x.1 fd 4000) (handed b behind here ∙ e)
            (sym (
              after_write-fd l (take (l.working_list + l.working_offset) l.batches) b behind
                (suc n))))

    batch-Steps :
        (batches : List BatchObj)
        → drop (l.working_list + l.working_offset) l.batches ≡ batches
        → Steps so l net (
            fetch_and_send so l (take (l.working_list + l.working_offset) l.batches) batches net
            >>= λ r. ok (false, r.0, r.1))
    unfolding fetch_and_send
    batch-Steps [] here = absurd (
        omega (
          arith,
          ap length here,
          length-drop (l.working_list + l.working_offset) l.batches,
          v.within,
          more,
        ))
    batch-Steps (b ∷ behind) here = sent-Steps b behind _ _ here refl

  step_if-Steps :
      (l : Lane) (net : Net) (stopped : Bool)
      → IsLane l
      → (l.finish_send && leb l.work_len l.working_offset) ≡ stopped
      → Steps so l net (
          if stopped
          then ok (true, l, net)
          else (fetch_and_send so l
                (take (l.working_list + l.working_offset) l.batches)
                (drop (l.working_list + l.working_offset) l.batches)
                net
              >>= λ r. ok (false, r.0, r.1)))
  step_if-Steps l net true v e =
      let none_left : l.work_len ≤ l.working_offset = ground arith in
      let zero_left : l.work_len - l.working_offset ≡ 0 = omega arith in
      (
        ap (λ k. unsent_objs (take k (drop (l.working_list + l.working_offset) l.batches)))
            zero_left,
        refl,
        refl,
      )
  step_if-Steps l net false v e =
      let more : l.working_offset < l.work_len = ground (arith, v.last) in
      batch-Steps l v net more (drop (l.working_list + l.working_offset) l.batches) refl

  -- A step of a thread on a port where its part lies in the vector, over sockets that take at
  -- most what they are handed: it stops there if nothing is to be sent; else `write` is handed
  -- the rest of the batch in front, what it takes is off the front of what is to be sent, which is
  -- then less, and a `read` follows; or the program ends, and then that `write` failed or took
  -- nothing, or the `read` behind it failed. A batch outside the vector is never asked for.
  pub lane_step-Steps : (l : Lane) (net : Net) → IsLane l → Steps so l net (lane_step so l net)
  unfolding lane_step
  lane_step-Steps l net v = step_if-Steps l net _ v refl
