-- ===== src/MicroTest/Dispatch/Cover.antt =====
-- The parts of the database that successive passages of the mutex hand out, by whichever threads.
use multiport_network.Base.{
  ℕ, zero, suc, ◌+◌, ◌-◌, ◌*◌, ◌≤◌, ◌<◌, ◌^◌, ◌≡◌, if◌then◌else◌, refl, ap, ◌∙◌, ◌⊎◌, inl, inr,
  Bool, true, false, Option, none, some, List, [], ◌∷◌, ◌++◌, append_assoc, append-nil, arith,
  length, drop, take_all, drop-drop, length-drop, take-append-drop,
}
use multiport_network.Base.Buffers.{slice}
use multiport_network.MicroTest.{kv_num, package_len, work_len}
use multiport_network.MicroTest.Dispatch.{Work, start_work, next_round, take_work}

-- Between two passages.
pub record IsWork (w : Work) : Type 0 where
  pub offset : w.g_offset ≡ w.g_count * package_len
  pub within : w.g_count ≤ kv_num
  pub rounds : 0 < w.myround ⊎ (w.stop ≡ true)
  pub few : w.myround < 2 ^ 31

-- The database `n` times.
abbrev pub repeated : ℕ → List ℕ → List ℕ
repeated zero db = []
repeated (suc n) db = db ++ repeated n db

-- The bytes that a passage hands to its thread.
abbrev pub handed : List ℕ → Option (ℕ × ℕ) → List ℕ
handed db none = []
handed db (some (offset, count)) = slice db offset (count * package_len)

-- The bytes that are not handed out yet.
abbrev pub left_if : Bool → List ℕ → Work → List ℕ
left_if true db w = []
left_if false db w = drop w.g_offset db ++ repeated (w.myround - 1) db

abbrev pub left : List ℕ → Work → List ℕ
left db w = left_if w.stop db w

take_work-IsWork :
    (port_num : ℕ) (w : Work) → port_num < 2 ^ 16 → IsWork w → IsWork (take_work port_num w).1
unfolding take_work next_round
take_work-IsWork port_num w small v = ground arith

repeated_pos : (n : ℕ) (db : List ℕ) → 0 < n → repeated n db ≡ db ++ repeated (n - 1) db
repeated_pos zero db h = absurd (omega arith)
repeated_pos (suc n) db h = ap (λ k. db ++ repeated k db) (omega arith)

repeated_none : (n : ℕ) (db : List ℕ) → n ≤ 0 → repeated n db ≡ []
repeated_none zero db h = refl
repeated_none (suc n) db h = absurd (omega arith)

left-next_round :
    (db : List ℕ) (w : Work) → 0 < w.myround → left db (next_round w) ≡ repeated (w.myround - 1) db
unfolding next_round
left-next_round db w h =
    ground (arith, repeated_pos (w.myround - 1) db, repeated_none (w.myround - 1) db)

take_work-left :
    (db : List ℕ) (port_num : ℕ) (w : Work)
    → length db ≡ kv_num * package_len
    → port_num < 2 ^ 16
    → IsWork w
    → handed db (take_work port_num w).0 ++ left db (take_work port_num w).1 ≡ left db w
unfolding take_work
take_work-left db port_num w len small v = ground (
  arith,
  left-next_round db w,
  append_assoc (slice db w.g_offset (work_len port_num)) (drop (w.g_offset + work_len port_num) db)
      (repeated (w.myround - 1) db),
  take-append-drop (work_len port_num) (drop w.g_offset db),
  drop-drop w.g_offset (work_len port_num) (w.g_offset + work_len port_num) db,
  take_all ((kv_num - w.g_count) * package_len) (drop w.g_offset db),
  length-drop w.g_offset db,
)

-- As many passages as given, by any threads.
unfoldable pub take_works : ℕ → ℕ → Work → List (Option (ℕ × ℕ)) × Work
take_works zero port_num w = ([], w)
take_works (suc n) port_num w =
    let (o, w') = take_work port_num w in let (os, w'') = take_works n port_num w' in (o ∷ os, w'')

abbrev pub all_handed : List ℕ → List (Option (ℕ × ℕ)) → List ℕ
all_handed db [] = []
all_handed db (o ∷ os) = handed db o ++ all_handed db os

-- A number that every passage lowers until the threads are stopped.
abbrev pub passages_left : Work → ℕ
passages_left w = if w.stop then 0 else (kv_num - w.g_count) + w.myround * (kv_num + 1)

take_work-progress :
    (port_num : ℕ) (w : Work)
    → 0 < port_num
    → port_num < 2 ^ 16
    → IsWork w
    → (passages_left (take_work port_num w).1 < passages_left w)
      ⊎ ((take_work port_num w).1.stop ≡ true)
unfolding take_work next_round
take_work-progress port_num w some_port small v = ground arith

stopped-take_work : (port_num : ℕ) (w : Work) → w.stop ≡ true → (take_work port_num w).1 ≡ w
unfolding take_work
stopped-take_work port_num w h = ground arith

module _ (port_num : ℕ) (some_port : 0 < port_num) (small : port_num < 2 ^ 16) where
  take_works-stops :
      (n : ℕ) (w : Work)
      → IsWork w
      → (w.stop ≡ true) ⊎ (passages_left w ≤ n)
      → (take_works n port_num w).1.stop ≡ true
  unfolding take_works
  take_works-stops zero w v h = ground arith
  take_works-stops (suc n) w v h =
      take_works-stops n (take_work port_num w).1 (take_work-IsWork port_num w small v) (
        ground
          (arith, take_work-progress port_num w some_port small v, stopped-take_work port_num w))

  module _ (db : List ℕ) (len : length db ≡ kv_num * package_len) where
    -- Whichever threads take the passages of the mutex, what they were handed and what is left are
    -- what was left before, each byte once and in the order of the database.
    pub take_works-left :
        (n : ℕ) (w : Work)
        → IsWork w
        → all_handed db (take_works n port_num w).0 ++ left db (take_works n port_num w).1
          ≡ left db w
    unfolding take_works
    take_works-left zero w v = refl
    take_works-left (suc n) w v =
        let (o, w') = take_work port_num w in
        append_assoc (handed db o) (all_handed db (take_works n port_num w').0)
          (left db (take_works n port_num w').1)
        ∙ ap (◌++◌ (handed db o)) (take_works-left n w' (take_work-IsWork port_num w small v))
        ∙ take_work-left db port_num w len small v

    -- With at least one port and fewer than 2^16, after enough passages of the mutex all threads
    -- are stopped, and together they were handed the database exactly as many times as there are
    -- rounds.
    pub take_works-whole :
        (rounds n : ℕ)
        → 0 < rounds
        → rounds < 2 ^ 31
        → kv_num + rounds * (kv_num + 1) ≤ n
        → ((take_works n port_num (start_work rounds)).1.stop ≡ true)
          × (all_handed db (take_works n port_num (start_work rounds)).0 ≡ repeated rounds db)
    take_works-whole rounds n some_round few enough =
        let v : IsWork (start_work rounds) = record {
          offset = refl;
          within = omega arith;
          rounds = inl some_round;
          few = few;
        } in
        let stops = take_works-stops n (start_work rounds) v (inr enough) in
        (
          stops,
          ground (
            arith,
            take_works-left n (start_work rounds) v,
            append-nil (all_handed db (take_works n port_num (start_work rounds)).0),
            repeated_pos rounds db,
          ),
        )
