-- ===== src/DoubleBuf/Threads/Parts.antt =====
-- How the threads of double_buf_get.cpp share out the batches, and what one of them sends.
use mathlib.Core.Path.{subst, ap₂}
use multiport_network.Base.{
  ℕ, zero, suc, ◌+◌, ◌-◌, ◌*◌, ◌/◌, ◌%◌, ◌^◌, ◌≤◌, ◌<◌, ◌≡◌, sym, ap, ◌∙◌, inl, false, List, [],
  ◌∷◌, ◌++◌, arith, length, take, drop, take_split,
}
use multiport_network.GetBatch.{BatchObj}
use multiport_network.GetBatch.Send.{Lane}
use multiport_network.GetBatch.Send.Lanes.{IsLane, AllReady, ahead, to_send, unsent_objs}
use multiport_network.DoubleBuf.Threads.{open_lane}

-- The batches that the thread `ftid` of `thread_num` sends on a port.
abbrev pub part {ℓ} : {A : Type ℓ} → ℕ → ℕ → List A → List A
part thread_num ftid bs = take (length bs / thread_num) (drop (ftid * (length bs / thread_num)) bs)

abbrev pub parts {ℓ} : {A : Type ℓ} → ℕ → ℕ → List A → List A
parts thread_num zero bs = []
parts thread_num (suc k) bs = parts thread_num k bs ++ part thread_num k bs

pub part_within : (ftid t size : ℕ) → ftid < t → ftid * (size / t) + size / t ≤ size
part_within ftid t size h = grind arith

pub part_some : (t size : ℕ) → 0 < t → t ≤ size → 0 < size / t
part_some t size h k = grind arith

-- The parts of the first `k` threads are the first batches, each once and in their order.
pub parts-take {ℓ} :
    {A : Type ℓ} (t k : ℕ) (bs : List A) → parts t k bs ≡ take (k * (length bs / t)) bs
parts-take t zero bs = ap (λ n. take n bs) {x = 0} {y = 0 * (length bs / t)} (omega arith)
parts-take t (suc k) bs =
    ap (λ xs. xs ++ part t k bs) (parts-take t k bs)
    ∙ sym (
        take_split (suc k * (length bs / t)) (k * (length bs / t)) (length bs / t) bs (grind arith))

AllReady-take : (n : ℕ) (bs : List BatchObj) → AllReady bs → AllReady (take n bs)
AllReady-take zero bs h = tt
AllReady-take (suc n) [] h = tt
AllReady-take (suc n) (b ∷ bs) (r, h) = (r, AllReady-take n bs h)

AllReady-drop : (n : ℕ) (bs : List BatchObj) → AllReady bs → AllReady (drop n bs)
AllReady-drop zero bs h = h
AllReady-drop (suc n) [] h = tt
AllReady-drop (suc n) (b ∷ bs) (r, h) = AllReady-drop n bs h

-- The batches of a port that all threads have a part of.
pub record IsShared (thread_num : ℕ) (bs : List BatchObj) : Type 0 where
  pub many : thread_num ≤ length bs
  pub small : length bs < 2 ^ 63
  pub ready : AllReady bs

-- The view of the port `i` at the beginning of the round.
abbrev pub begin_lane : ℕ → ℕ → (ℕ → ℕ) → (ℕ → List BatchObj) → ℕ → Lane
begin_lane thread_num ftid fds database i =
    record (open_lane ftid fds (λ j. length (database j) / thread_num) database i) {
      working_offset = 0;
      finish_send = false;
    }

-- Without the reduction modulo 2^64, which does nothing.
plain_list :
    (t ftid size : ℕ) → ftid < t → size < 2 ^ 63 → (ftid * (size / t)) % 2 ^ 64 ≡ ftid * (size / t)
plain_list t ftid size h small =
    let q = ftid * (size / t) in
    let below : q < 2 ^ 64 = omega (arith, part_within ftid t size h) in omega arith

module _ (t ftid : ℕ) (fds : ℕ → ℕ) (database : ℕ → List BatchObj) (mine : ftid < t) where
  begin_ahead :
      (i : ℕ)
      → IsShared t (database i)
      → ahead (begin_lane t ftid fds database i) ≡ part t ftid (database i)
  unfolding open_lane
  begin_ahead i v =
      let list = plain_list t ftid (length (database i)) mine v.small in
      let q = length (database i) / t in
      let all : q - 0 ≡ q = omega arith in
      let at : (ftid * q) % 2 ^ 64 + 0 ≡ ftid * q = omega (arith, list) in
      ap₂ (λ k n. take k (drop n (database i))) all at

  pub begin_lane-IsLane :
      (i : ℕ) → IsShared t (database i) → IsLane (begin_lane t ftid fds database i)
  unfolding open_lane
  begin_lane-IsLane i v =
      let size = length (database i) in
      let list = plain_list t ftid size mine v.small in
      let within = part_within ftid t size mine in
      record {
        within = omega (arith, list, within);
        reached = omega arith;
        last = inl (part_some t size (omega arith) v.many);
        small = omega (arith, within, v.small);
        ready = subst AllReady (sym (begin_ahead i v)) (
            AllReady-take (size / t) (drop (ftid * (size / t)) (database i))
              (AllReady-drop (ftid * (size / t)) (database i) v.ready));
      }

  pub begin_lane-sends :
      (i : ℕ)
      → IsShared t (database i)
      → to_send (begin_lane t ftid fds database i) ≡ unsent_objs (part t ftid (database i))
  begin_lane-sends i v = ap unsent_objs (begin_ahead i v)
