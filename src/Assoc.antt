-- ===== src/Assoc.antt =====
-- assoc.cpp: the wrappers of the shared hash table.
use multiport_network.Base.{Option, none, some, List, ℕ, ◌≡◌, ap}
use multiport_network.Interfaces.{HashTable, HashTableLaws}
use multiport_network.Connection.{Outcome, ok, exits}

-- The one-argument `find` throws where the key is missing, and nothing catches it.
found_or_exit : Option (List ℕ) → Outcome (List ℕ)
found_or_exit none = exits
found_or_exit (some v) = ok v

module _ {Map : Type 0} (ht : HashTable Map) where
  unfoldable pub assoc_upsert : Map → List ℕ → List ℕ → Map
  assoc_upsert m key value = ht.insert_or_assign m key value

  unfoldable pub assoc_find : Map → List ℕ → Outcome (List ℕ)
  unfolding found_or_exit
  assoc_find m key = found_or_exit (ht.find m key)

  -- Over a table that keeps `HashTableLaws`, a key that was stored last is found with its value.
  assoc_find-assoc_upsert :
      HashTableLaws ht
      → (m : Map) (key value : List ℕ) → assoc_find (assoc_upsert m key value) key ≡ ok value
  unfolding assoc_find assoc_upsert found_or_exit
  assoc_find-assoc_upsert laws m key value = ap found_or_exit (laws.find-insert_self m key value)
