-- ===== src/DoubleBuf/Served/Kept.antt =====
-- What the server knows of the keys of a port, it knows of the keys of each thread's part of them.
use multiport_network.Base.{
  ℕ, zero, suc, ◌+◌, ◌≡◌, refl, sym, ap, ◌∙◌, length-append, append_assoc, ◌*◌, ◌/◌, ◌≤◌, ◌<◌, List,
  [], ◌∷◌, ◌++◌, length, arith, take, drop, length-take, length-drop,
}
use multiport_network.Interfaces.{HashTable}
use multiport_network.Protocol.{store_header}
use multiport_network.Protocol.RoundTrip.{length-store_header}
use multiport_network.GetBatch.{batch_size, batch_head, get_head, get_package}
use multiport_network.GetBatch.Packed.{AllFull, flat, packages, batch_bytes}
use multiport_network.DoubleBuf.Database.Bytes.{groups_bytes}
use multiport_network.GetBatch.Served.{Found}
use multiport_network.GetBatch.Served.Whole.{AllFound}
use multiport_network.DoubleBuf.Threads.Parts.{part, part_within}

module _ {Map : Type 0} (ht : HashTable Map) (m : Map) (value : List ℕ → List ℕ) where
  pub Found-append_left :
      (xs ys : List (List ℕ)) → Found ht m value (xs ++ ys) → Found ht m value xs
  Found-append_left [] ys h = tt
  Found-append_left (x ∷ xs) ys (e, f, g, h) = (e, f, g, Found-append_left xs ys h)

  Found-append_right : (xs ys : List (List ℕ)) → Found ht m value (xs ++ ys) → Found ht m value ys
  Found-append_right [] ys h = h
  Found-append_right (x ∷ xs) ys (e, f, g, h) = Found-append_right xs ys h

  pub Found-flat :
      (groups : List (List (List ℕ))) → Found ht m value (flat groups) → AllFound ht m value groups
  Found-flat [] h = tt
  Found-flat (group ∷ groups) h = (
    Found-append_left group (flat groups) h,
    Found-flat groups (Found-append_right group (flat groups) h),
  )

  pub AllFound-take :
      (n : ℕ) (groups : List (List (List ℕ)))
      → AllFound ht m value groups
      → AllFound ht m value (take n groups)
  AllFound-take zero groups h = tt
  AllFound-take (suc n) [] h = tt
  AllFound-take (suc n) (group ∷ groups) (f, h) = (f, AllFound-take n groups h)

  pub AllFound-drop :
      (n : ℕ) (groups : List (List (List ℕ)))
      → AllFound ht m value groups
      → AllFound ht m value (drop n groups)
  AllFound-drop zero groups h = h
  AllFound-drop (suc n) [] h = tt
  AllFound-drop (suc n) (group ∷ groups) (f, h) = AllFound-drop n groups h

  pub AllFound-part :
      (t ftid : ℕ) (groups : List (List (List ℕ)))
      → AllFound ht m value groups
      → AllFound ht m value (part t ftid groups)
  AllFound-part t ftid groups h =
      AllFound-take (length groups / t) (drop (ftid * (length groups / t)) groups)
        (AllFound-drop (ftid * (length groups / t)) groups h)

pub AllFull-take :
    (n : ℕ) (groups : List (List (List ℕ))) → AllFull groups → AllFull (take n groups)
AllFull-take zero groups h = tt
AllFull-take (suc n) [] h = tt
AllFull-take (suc n) (group ∷ groups) (f, h) = (f, AllFull-take n groups h)

pub AllFull-drop :
    (n : ℕ) (groups : List (List (List ℕ))) → AllFull groups → AllFull (drop n groups)
AllFull-drop zero groups h = h
AllFull-drop (suc n) [] h = tt
AllFull-drop (suc n) (group ∷ groups) (f, h) = AllFull-drop n groups h

two_each : (t size : ℕ) → 0 < t → 2 * t ≤ size → 2 ≤ size / t
two_each t size h k = grind arith

length-get_package : (num port : ℕ) (key : List ℕ) → 12 ≤ length (get_package num port key)
unfolding get_package
length-get_package num port key = omega (
  arith,
  length-append (store_header (get_head num port)) key,
  length-store_header (get_head num port),
)

pub AllFull-part :
    (t ftid : ℕ) (groups : List (List (List ℕ))) → AllFull groups → AllFull (part t ftid groups)
AllFull-part t ftid groups h =
    AllFull-take (length groups / t) (drop (ftid * (length groups / t)) groups)
      (AllFull-drop (ftid * (length groups / t)) groups h)

-- A thread has two batches or more, where there are two for each thread.
pub part_two :
    (t ftid : ℕ) (groups : List (List (List ℕ)))
    → ftid < t
    → 2 * t ≤ length groups
    → 2 ≤ length (part t ftid groups)
part_two t ftid groups mine many = omega (
  arith,
  length-take (length groups / t) (drop (ftid * (length groups / t)) groups),
  length-drop (ftid * (length groups / t)) groups,
  part_within ftid t (length groups) mine,
  two_each t (length groups) (omega arith) many,
)

-- Batches are longer than the server's receive buffer.
length-packages :
    (port n : ℕ) (keys : List (List ℕ)) → 12 * length keys ≤ length (packages port n keys)
length-packages port n [] = omega arith
length-packages port n (key ∷ keys) = omega (
  arith,
  length-append (get_package n port key) (packages port (n + 1) keys),
  length-get_package n port key,
  length-packages port (n + 1) keys,
)

length-batch_bytes :
    (port : ℕ) (group : List (List ℕ))
    → length group ≡ batch_size
    → 1000 < length (batch_bytes port group)
length-batch_bytes port group full = omega (
  arith,
  length-append (store_header (batch_head port)) (packages port 0 group),
  length-packages port 0 group,
)

pub length-groups_bytes :
    (port : ℕ) (groups : List (List (List ℕ)))
    → AllFull groups
    → 0 < length groups
    → 1000 < length (groups_bytes port groups)
length-groups_bytes port [] full some_groups = absurd (omega arith)
length-groups_bytes port (group ∷ groups) full some_groups = omega (
  arith,
  length-append (batch_bytes port group) (groups_bytes port groups),
  length-batch_bytes port group full.0,
)

pub groups_bytes_split :
    (port n : ℕ) (groups : List (List (List ℕ)))
    → groups_bytes port groups
      ≡ groups_bytes port (take n groups) ++ groups_bytes port (drop n groups)
groups_bytes_split port zero groups = refl
groups_bytes_split port (suc n) [] = refl
groups_bytes_split port (suc n) (group ∷ groups) =
    ap (◌++◌ (batch_bytes port group)) (groups_bytes_split port n groups)
    ∙ sym (
        append_assoc (batch_bytes port group) (groups_bytes port (take n groups))
          (groups_bytes port (drop n groups)))
