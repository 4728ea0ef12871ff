-- ===== src/DoubleBuf/Sending.antt =====
-- What a thread of double_buf_get has still to send on a port, in one step of its loop.
use mathlib.Core.Path.{subst}
use multiport_network.Base.{
  inl, inr, Bool-cases, ◌+◌, ◌-◌, ◌≤◌, ◌<◌, ◌≡◌, ◌≢◌, refl, sym, ap, ◌∙◌, Bool, true, false, ◌&&◌,
  List, ℕ, [], ◌∷◌, arith, length, take, drop, ltb, leb, if◌then◌else◌, length-take, length-drop,
  take-take, take-append_le,
}
use multiport_network.Base.Buffers.{slice}
use multiport_network.Interfaces.{Os, OsLaws, WriteReply, eagain}
use multiport_network.Connection.{Outcome, ok, exits, fault, ◌>>=◌}
use multiport_network.GetBatch.{BatchObj}
use multiport_network.GetBatch.Send.{Lane, after_write}
use multiport_network.GetBatch.Send.Lanes.{
  IsLane, ahead, to_send, unsent_objs, after_write-Steps, ahead_lem, length-unsent, ready_here,
  later,
}
use multiport_network.GetBatch.Send.Steps.{front}
use multiport_network.DoubleBuf.{after_try_write, fetch_and_send, send_step}

-- A step on one port, with what `write` is `handed`: it had nothing to send; or `write` was called
-- and what it took of the front of what is to be sent, maybe nothing, is off; or the program ended
-- because `write` took nothing and it was not for want of room.
abbrev pub TriesWith :
    {Net : Type 0} → Os Net → Lane → Net → List ℕ → Outcome (Bool × Lane × Net) → Type 0
TriesWith os l net handed (ok (true, l', net')) = (to_send l ≡ []) × (l' ≡ l) × (net' ≡ net)
TriesWith os l net handed (ok (false, l', net')) =
    let count = (os.write net l.fd handed).0.count in
    (to_send l' ≡ drop count (to_send l))
    × IsLane l'
    × (l'.fd ≡ l.fd)
    × (net' ≡ (os.write net l.fd handed).1)
    × (0 < length handed)
    × (take count handed ≡ take count (to_send l))
TriesWith os l net handed exits =
    ((os.write net l.fd handed).0.count ≡ 0)
    × ((os.write net l.fd handed).0.errno ≢ eagain)
    × (0 < length handed)
TriesWith os l net handed fault = ⊥

-- `write` is handed the rest of the batch in front.
abbrev pub Tries : {Net : Type 0} → Os Net → Lane → Net → Outcome (Bool × Lane × Net) → Type 0
Tries os l net o = TriesWith os l net (front (ahead l)) o

abbrev with_net : {Net : Type 0} → Net → Lane → Outcome (Lane × Net)
with_net net l = ok (l, net)

module _ {Net : Type 0} (os : Os Net) (laws : OsLaws os) where
  module _ (l : Lane) (v : IsLane l) (net : Net) (more : l.working_offset < l.work_len) where
    idle : IsLane (record l { finish_send = false })
    idle = record {
      within = v.within;
      reached = v.reached;
      last = inl more;
      small = v.small;
      ready = v.ready;
    }

    never_faults :
        {A : Type 0}
        → (b : BatchObj) (behind : List BatchObj) (reply : WriteReply)
        → after_try_write l (take (l.working_list + l.working_offset) l.batches) b behind reply
          ≡ fault
        → A
    unfolding after_try_write
    never_faults b behind reply e = ground arith

    ends :
        (b : BatchObj) (behind : List BatchObj) (reply : WriteReply)
        → after_try_write l (take (l.working_list + l.working_offset) l.batches) b behind reply
          ≡ exits
        → (reply.count ≡ 0) × (reply.errno ≢ eagain)
    unfolding after_try_write
    ends b behind reply e = ground arith

    after_write-fd :
        (b : BatchObj) (behind : List BatchObj) (count : ℕ)
        → (after_write l (take (l.working_list + l.working_offset) l.batches) b behind count).fd
          ≡ l.fd
    unfolding after_write
    after_write-fd b behind count = ground arith

    tried :
        (b : BatchObj) (behind : List BatchObj) (reply : WriteReply)
        → drop (l.working_list + l.working_offset) l.batches ≡ b ∷ behind
        → reply.count ≤ b.datalen - b.offset
        → (l' : Lane)
        → after_try_write l (take (l.working_list + l.working_offset) l.batches) b behind reply
          ≡ ok l'
        → (to_send l' ≡ drop reply.count (to_send l)) × IsLane l' × (l'.fd ≡ l.fd)
    unfolding after_try_write
    tried b behind reply here le l' e = elim (Bool-cases (ltb 0 reply.count)) [
      | inl took ↦
          let (d, less, v') =
            after_write-Steps l v b behind here more reply.count (ground arith) le in
          let w : after_write l (take (l.working_list + l.working_offset) l.batches) b behind
                reply.count
              ≡ l' =
            ground arith in
          (
            subst (λ x. to_send x ≡ drop reply.count (to_send l)) w d,
            subst IsLane w v',
            sym (ap (λ (x : Lane). x.fd) w) ∙ after_write-fd b behind reply.count,
          )
      | inr none_taken ↦
          let zero_count : reply.count ≡ 0 = ground arith in
          let w : record l { finish_send = false } ≡ l' = ground arith in
          (
            subst (λ x. to_send x ≡ drop reply.count (to_send l)) w
                (ap (λ n. drop n (to_send l)) (sym zero_count)),
            subst IsLane w idle,
            sym (ap (λ (x : Lane). x.fd) w),
          )
    ]

    -- The batch in front.
    module _ (b : BatchObj) (behind : List BatchObj)
        (here : drop (l.working_list + l.working_offset) l.batches ≡ b ∷ behind) where
      abbrev handed : List ℕ
      handed = slice b.buf b.offset (b.datalen - b.offset)

      length-handed : length handed ≡ b.datalen - b.offset
      length-handed = omega (
        arith,
        length-take (b.datalen - b.offset) (drop b.offset b.buf),
        length-unsent l v b behind here more,
      )

      some_handed : 0 < length handed
      some_handed = omega (arith, length-handed, (ready_here l v b behind here more).0.begun)

      take-handed : (n : ℕ) → n ≤ b.datalen - b.offset → take n handed ≡ take n (to_send l)
      take-handed n le =
          take-take n (b.datalen - b.offset) (drop b.offset b.buf) le
          ∙ sym (
              take-append_le n (drop b.offset b.buf) (unsent_objs (later l v b behind here more))
                (omega (arith, length-unsent l v b behind here more)))
          ∙ ap (take n) (sym (ap unsent_objs (ahead_lem l v b behind here more)))

      tried-Tries :
          (reply : WriteReply) (net' : Net) (o : Outcome Lane)
          → (os.write net l.fd handed).0 ≡ reply
          → (os.write net l.fd handed).1 ≡ net'
          → after_try_write l (take (l.working_list + l.working_offset) l.batches) b behind reply
            ≡ o
          → TriesWith os l net handed ((o >>= with_net net') >>= λ r. ok (false, r.0, r.1))
      tried-Tries reply net' exits w n e =
          let (none_taken, why) = ends b behind reply e in
          (
            ap (λ (r : WriteReply). r.count) w ∙ none_taken,
            λ again. why (sym (ap (λ (r : WriteReply). r.errno) w) ∙ again),
            some_handed,
          )
      tried-Tries reply net' fault w n e = never_faults b behind reply e
      tried-Tries reply net' (ok l') w n e =
          let le : reply.count ≤ b.datalen - b.offset = omega (
            arith,
            ap (λ (r : WriteReply). r.count) w,
            laws.write_bound net l.fd handed,
            length-handed,
          ) in
          let (d, v', same) = tried b behind reply here le l' e in
          (
            d ∙ ap (λ (r : WriteReply). drop r.count (to_send l)) (sym w),
            v',
            same,
            sym n,
            some_handed,
            take-handed (os.write net l.fd handed).0.count
                (omega (arith, ap (λ (r : WriteReply). r.count) w, le)),
          )

    front_is :
        (b : BatchObj) (behind : List BatchObj) (o : Outcome (Bool × Lane × Net))
        → drop (l.working_list + l.working_offset) l.batches ≡ b ∷ behind
        → TriesWith os l net (slice b.buf b.offset (b.datalen - b.offset)) o
        → Tries os l net o
    front_is b behind o here h =
        subst (λ bs. TriesWith os l net (front bs) o) (sym (ahead_lem l v b behind here more)) h

    batch-Tries :
        (batches : List BatchObj)
        → drop (l.working_list + l.working_offset) l.batches ≡ batches
        → Tries os l net (
            fetch_and_send os l (take (l.working_list + l.working_offset) l.batches) batches net
            >>= λ r. ok (false, r.0, r.1))
    unfolding fetch_and_send
    batch-Tries [] here = absurd (
        omega (
          arith,
          ap length here,
          length-drop (l.working_list + l.working_offset) l.batches,
          v.within,
          more,
        ))
    batch-Tries (b ∷ behind) here =
        let w = os.write net l.fd (slice b.buf b.offset (b.datalen - b.offset)) in
        let before = take (l.working_list + l.working_offset) l.batches in
        front_is b behind
          ((after_try_write l before b behind w.0 >>= with_net w.1) >>= λ r. ok (false, r.0, r.1))
          here (tried-Tries b behind here _ _ _ refl refl refl)

  step_if-Tries :
      (l : Lane) (net : Net) (stopped : Bool)
      → IsLane l
      → (l.finish_send && leb l.work_len l.working_offset) ≡ stopped
      → Tries os l net (
          if stopped
          then ok (true, l, net)
          else (fetch_and_send os l
                (take (l.working_list + l.working_offset) l.batches)
                (drop (l.working_list + l.working_offset) l.batches)
                net
              >>= λ r. ok (false, r.0, r.1)))
  step_if-Tries l net true v e =
      let none_left : l.work_len ≤ l.working_offset = ground arith in
      let zero_left : l.work_len - l.working_offset ≡ 0 = omega arith in
      (
        ap (λ k. unsent_objs (take k (drop (l.working_list + l.working_offset) l.batches)))
            zero_left,
        refl,
        refl,
      )
  step_if-Tries l net false v e =
      let more : l.working_offset < l.work_len = ground (arith, v.last) in
      batch-Tries l v net more (drop (l.working_list + l.working_offset) l.batches) refl

  -- A step of `send_thread` on one port where its part lies in the vector, over a non-blocking
  -- socket that keeps `OsLaws`: the port counts as stopped only where nothing is to be sent; else
  -- `write` is handed the rest of the batch in front, some bytes, and just what it takes, which
  -- may be nothing, is off the front of what is to be sent, or the program ends because `write`
  -- took nothing and `errno` is not EAGAIN. A batch outside the vector is never asked for.
  pub send_step-Tries : (l : Lane) (net : Net) → IsLane l → Tries os l net (send_step os l net)
  unfolding send_step
  send_step-Tries l net v = step_if-Tries l net _ v refl
