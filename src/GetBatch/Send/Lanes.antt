-- ===== src/GetBatch/Send/Lanes.antt =====
-- What a thread of get_batch has still to send on a port, in one step of its loop.
use mathlib.Core.Path.{ap₂, subst}
use multiport_network.Base.{
  ℕ, suc, ◌+◌, ◌-◌, ◌%◌, ◌^◌, ◌≤◌, ◌<◌, ◌≡◌, refl, sym, ap, ◌∙◌, true, false, ◌⊎◌, inl, inr, List,
  [], ◌∷◌, ◌++◌, arith, length, length-append, take, drop, drop-drop, drop-append, length-take,
  length-drop, drop-append_le,
}
use multiport_network.GetBatch.{BatchObj}
use multiport_network.GetBatch.Send.{Lane, written_obj, after_write}

-- A batch that is not sent to its end.
pub record IsReady (b : BatchObj) : Type 0 where
  pub held : length b.buf ≡ b.datalen
  pub begun : b.offset < b.datalen

abbrev pub AllReady : List BatchObj → Type 0
AllReady [] = Unit {0}
AllReady (b ∷ bs) = IsReady b × AllReady bs

-- The batches of the thread's part that are to be sent still, and their bytes.
abbrev pub ahead : Lane → List BatchObj
ahead l = take (l.work_len - l.working_offset) (drop (l.working_list + l.working_offset) l.batches)

abbrev pub unsent_objs : List BatchObj → List ℕ
unsent_objs [] = []
unsent_objs (b ∷ bs) = drop b.offset b.buf ++ unsent_objs bs

abbrev pub to_send : Lane → List ℕ
to_send l = unsent_objs (ahead l)

-- The thread's part lies in the vector.
pub record IsLane (l : Lane) : Type 0 where
  pub within : l.working_list + l.work_len ≤ length l.batches
  pub reached : l.working_offset ≤ l.work_len
  pub last : (l.working_offset < l.work_len) ⊎ (l.finish_send ≡ true)
  pub small : l.work_len < 2 ^ 63
  pub ready : AllReady (ahead l)

module _ (l : Lane) (v : IsLane l) (b : BatchObj) (behind : List BatchObj)
    (here : drop (l.working_list + l.working_offset) l.batches ≡ b ∷ behind)
    (more : l.working_offset < l.work_len) where
  abbrev pub before : List BatchObj
  before = take (l.working_list + l.working_offset) l.batches

  unfoldable pub later : List BatchObj
  later = take (l.work_len - (l.working_offset + 1)) behind

  pub ahead_lem : ahead l ≡ b ∷ later
  unfolding later
  ahead_lem =
      ap₂ take {x = l.work_len - l.working_offset} {y = suc (l.work_len - (l.working_offset + 1))}
        (omega arith) here

  length-before : length before ≡ l.working_list + l.working_offset
  length-before =
      omega (arith, length-take (l.working_list + l.working_offset) l.batches, v.within, more)

  length-batches : (b' : BatchObj) → length (before ++ b' ∷ behind) ≡ length l.batches
  length-batches b' = omega (
    arith,
    length-append before (b' ∷ behind),
    length-before,
    ap length here,
    length-drop (l.working_list + l.working_offset) l.batches,
  )

  pub ready_here : AllReady (b ∷ later)
  ready_here = subst AllReady ahead_lem v.ready

  pub length-unsent : length (drop b.offset b.buf) ≡ b.datalen - b.offset
  length-unsent = omega (arith, length-drop b.offset b.buf, ready_here.0.held)

  to_send_lem : to_send l ≡ drop b.offset b.buf ++ unsent_objs later
  to_send_lem = ap unsent_objs ahead_lem

  -- The lane with the batch written up to `offset`.
  abbrev partly : ℕ → Lane
  partly offset = record l {
    batches = before ++ record b { offset = offset } ∷ behind;
    finish_send = false;
  }

  ahead-partly : (offset : ℕ) → ahead (partly offset) ≡ record b { offset = offset } ∷ later
  unfolding later
  ahead-partly offset =
      ap₂ take {x = l.work_len - l.working_offset} {y = suc (l.work_len - (l.working_offset + 1))}
        (omega arith)
        (drop-append (l.working_list + l.working_offset) before
          (record b { offset = offset } ∷ behind) (sym length-before))

  partly-Steps :
      (ret : ℕ)
      → 0 < ret
      → ret < b.datalen - b.offset
      → (to_send (partly (b.offset + ret)) ≡ drop ret (to_send l))
        × (length (to_send (partly (b.offset + ret))) < length (to_send l))
        × IsLane (partly (b.offset + ret))
  partly-Steps ret some_bytes less =
      let sent : to_send (partly (b.offset + ret))
          ≡ drop (b.offset + ret) b.buf ++ unsent_objs later =
        ap unsent_objs (ahead-partly (b.offset + ret)) in
      let off =
        sent
        ∙ ap (λ xs. xs ++ unsent_objs later)
            (sym (drop-drop b.offset ret (b.offset + ret) b.buf refl))
        ∙ sym (
            drop-append_le ret (drop b.offset b.buf) (unsent_objs later)
              (omega (arith, length-unsent, less)))
        ∙ ap (drop ret) (sym to_send_lem) in
      (
        off,
        omega (
          arith,
          ap length off,
          length-drop ret (to_send l),
          ap length to_send_lem,
          length-append (drop b.offset b.buf) (unsent_objs later),
          length-unsent,
          less,
          some_bytes,
        ),
        record {
          within = omega (arith, v.within, length-batches (record b { offset = b.offset + ret }));
          reached = v.reached;
          last = inl more;
          small = v.small;
          ready =
              subst AllReady (sym (ahead-partly (b.offset + ret)))
                (record { held = ready_here.0.held; begun = omega (arith, less) }, ready_here.1);
        },
      )

  -- The lane with the batch written whole.
  abbrev wholly : Lane
  wholly = record l {
    batches = before ++ record b { offset = 0 } ∷ behind;
    finish_send = true;
    sent_bytes = (l.sent_bytes + b.datalen) % 2 ^ 64;
    working_offset = l.working_offset + 1;
  }

  ahead-wholly : ahead wholly ≡ later
  unfolding later
  ahead-wholly = ap (take (l.work_len - (l.working_offset + 1))) (
      sym (
        drop-drop (l.working_list + l.working_offset) 1 (l.working_list + (l.working_offset + 1))
          (before ++ record b { offset = 0 } ∷ behind) (omega arith))
      ∙ ap (drop 1) (
          drop-append (l.working_list + l.working_offset) before (record b { offset = 0 } ∷ behind)
            (sym length-before)))

  wholly-Steps :
      (ret : ℕ)
      → ret ≡ b.datalen - b.offset
      → (to_send wholly ≡ drop ret (to_send l))
        × (length (to_send wholly) < length (to_send l))
        × IsLane wholly
  wholly-Steps ret e =
      let off =
        ap unsent_objs ahead-wholly
        ∙ sym (
            drop-append ret (drop b.offset b.buf) (unsent_objs later)
              (omega (arith, e, length-unsent)))
        ∙ ap (drop ret) (sym to_send_lem) in
      (
        off,
        omega (
          arith,
          ap length off,
          length-drop ret (to_send l),
          ap length to_send_lem,
          length-append (drop b.offset b.buf) (unsent_objs later),
          length-unsent,
          e,
          ready_here.0.begun,
        ),
        record {
          within = omega (arith, v.within, length-batches (record b { offset = 0 }));
          reached = omega (arith, more);
          last = inr refl;
          small = v.small;
          ready = subst AllReady (sym ahead-wholly) ready_here.1;
        },
      )

  after_write_lem :
      (ret : ℕ)
      → ret ≤ b.datalen - b.offset
      → ((ret < b.datalen - b.offset)
          × (after_write l before b behind ret ≡ partly (b.offset + ret)))
        ⊎ ((ret ≡ b.datalen - b.offset) × (after_write l before b behind ret ≡ wholly))
  unfolding after_write written_obj
  after_write_lem ret le = ground (arith, v.small)

  pub after_write-Steps :
      (ret : ℕ)
      → 0 < ret
      → ret ≤ b.datalen - b.offset
      → (to_send (after_write l before b behind ret) ≡ drop ret (to_send l))
        × (length (to_send (after_write l before b behind ret)) < length (to_send l))
        × IsLane (after_write l before b behind ret)
  after_write-Steps ret some_bytes le = elim (after_write_lem ret le) [
    | inl (less, e) ↦ rw e (partly-Steps ret some_bytes less)
    | inr (all, e) ↦ rw e (wholly-Steps ret all)
  ]
