-- ===== src/DoubleBuf/Database/Bytes.antt =====
-- The bytes of the batches that `con_database` of double_buf_get.cpp makes.
use mathlib.Core.Path.{subst}
use multiport_network.Base.{
  ℕ, zero, suc, ◌+◌, ◌*◌, ◌/◌, ◌%◌, ◌≤◌, ◌≡◌, refl, ap, Bool, true, false, List, [], ◌∷◌, ◌++◌,
  arith, length, length-append, take, drop, ◌==◌,
}
use multiport_network.Protocol.{store_header}
use multiport_network.Protocol.RoundTrip.{length-store_header}
use multiport_network.MicroTest.Package.Layout.{key_of, length-text, tens, AllBelow}
use multiport_network.GetBatch.{BatchObj, batch_head, get_package, get_package_len, get_port_of}
use multiport_network.GetBatch.Packed.{
  packages, batch_bytes, sealed, all_sealed, AllFull, flat, length-get_package,
}
use multiport_network.GetBatch.Packed.Whole.{key_if, keys_for}
use multiport_network.GetBatch.Send.Lanes.{AllReady, unsent_objs}
use multiport_network.DoubleBuf.Database.{draw_numbers}
use multiport_network.DoubleBuf.Database.Packs.{key_range, InBatches, draw_numbers-AllBelow}

-- The keys of a batch have eight bytes.
abbrev pub AllEight : List (List ℕ) → Type 0
AllEight [] = Unit {0}
AllEight (key ∷ keys) = (length key ≡ 8) × AllEight keys

abbrev pub AllGroups : List (List (List ℕ)) → Type 0
AllGroups [] = Unit {0}
AllGroups (group ∷ groups) = AllEight group × AllGroups groups

AllEight-append_left : (xs ys : List (List ℕ)) → AllEight (xs ++ ys) → AllEight xs
AllEight-append_left [] ys h = tt
AllEight-append_left (x ∷ xs) ys (e, h) = (e, AllEight-append_left xs ys h)

AllEight-append_right : (xs ys : List (List ℕ)) → AllEight (xs ++ ys) → AllEight ys
AllEight-append_right [] ys h = h
AllEight-append_right (x ∷ xs) ys (e, h) = AllEight-append_right xs ys h

AllGroups-flat : (groups : List (List (List ℕ))) → AllEight (flat groups) → AllGroups groups
AllGroups-flat [] h = tt
AllGroups-flat (group ∷ groups) h = (
  AllEight-append_left group (flat groups) h,
  AllGroups-flat groups (AllEight-append_right group (flat groups) h),
)

key_if-AllEight :
    (b : Bool) (key : List ℕ) (more : List (List ℕ))
    → length key ≡ 8
    → AllEight more
    → AllEight (key_if b [] key ++ more)
key_if-AllEight true key more e h = (e, h)
key_if-AllEight false key more e h = h

keys_for-AllEight :
    (hash_func : List ℕ → ℕ) (port_num p : ℕ) (array : List ℕ)
    → AllBelow (26 * tens 7) array
    → AllEight (keys_for hash_func port_num p array)
keys_for-AllEight hash_func port_num p [] h = tt
keys_for-AllEight hash_func port_num p (a ∷ array) (b, h) =
    key_if-AllEight (p == get_port_of hash_func port_num (key_of a)) (key_of a)
      (keys_for hash_func port_num p array) (length-text (a / 26) (b'a' + a % 26) (omega arith))
      (keys_for-AllEight hash_func port_num p array h)

length-packages :
    (port n : ℕ) (keys : List (List ℕ))
    → AllEight keys
    → length (packages port n keys) ≡ length keys * get_package_len
length-packages port n [] h = refl
length-packages port n (key ∷ keys) (e, h) = omega (
  arith,
  length-append (get_package n port key) (packages port (n + 1) keys),
  length-get_package n port key e,
  length-packages port (n + 1) keys h,
)

-- Batches of full groups of keys are to be sent from their start to their end.
pub all_sealed-AllReady :
    (port : ℕ) (groups : List (List (List ℕ)))
    → AllFull groups
    → AllGroups groups
    → AllReady (all_sealed port groups)
all_sealed-AllReady port [] f h = tt
all_sealed-AllReady port (group ∷ groups) (n, f) (e, h) = (
  record {
    held = omega (
      arith,
      length-append (store_header (batch_head port)) (packages port 0 group),
      length-store_header (batch_head port),
      length-packages port 0 group e,
    );
    begun = omega arith;
  },
  all_sealed-AllReady port groups f h,
)

-- The bytes of these batches.
abbrev pub groups_bytes : ℕ → List (List (List ℕ)) → List ℕ
groups_bytes port [] = []
groups_bytes port (group ∷ groups) = batch_bytes port group ++ groups_bytes port groups

pub unsent-all_sealed :
    (port : ℕ) (groups : List (List (List ℕ)))
    → unsent_objs (all_sealed port groups) ≡ groups_bytes port groups
unsent-all_sealed port [] = refl
unsent-all_sealed port (group ∷ groups) =
    ap (◌++◌ (batch_bytes port group)) (unsent-all_sealed port groups)

pub length-all_sealed :
    (port : ℕ) (groups : List (List (List ℕ))) → length (all_sealed port groups) ≡ length groups
length-all_sealed port [] = refl
length-all_sealed port (group ∷ groups) = ap suc (length-all_sealed port groups)

pub take-all_sealed :
    (port n : ℕ) (groups : List (List (List ℕ)))
    → take n (all_sealed port groups) ≡ all_sealed port (take n groups)
take-all_sealed port zero groups = refl
take-all_sealed port (suc n) [] = refl
take-all_sealed port (suc n) (group ∷ groups) =
    ap (◌∷◌ (sealed port group)) (take-all_sealed port n groups)

pub drop-all_sealed :
    (port n : ℕ) (groups : List (List (List ℕ)))
    → drop n (all_sealed port groups) ≡ all_sealed port (drop n groups)
drop-all_sealed port zero groups = refl
drop-all_sealed port (suc n) [] = refl
drop-all_sealed port (suc n) (group ∷ groups) = drop-all_sealed port n groups

-- The groups of keys of a port hold what a thread can send.
pub groups-AllGroups :
    (hash_func : List ℕ → ℕ) (port_num kv_num p : ℕ) (draw : ℕ → ℕ) (batches : List BatchObj)
    → ((i : ℕ) → draw i ≤ key_range)
    → (v : InBatches p (keys_for hash_func port_num p (draw_numbers draw kv_num 0)) batches)
    → AllGroups v.groups
groups-AllGroups hash_func port_num kv_num p draw batches h v = AllGroups-flat v.groups (
    AllEight-append_left (flat v.groups) v.rest (
      subst AllEight v.same (
        keys_for-AllEight hash_func port_num p (draw_numbers draw kv_num 0)
          (draw_numbers-AllBelow draw kv_num 0 h))))
