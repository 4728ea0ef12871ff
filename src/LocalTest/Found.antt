-- ===== src/LocalTest/Found.antt =====
-- Which keys of cuckoo_local_test the table has.
use multiport_network.Base.{
  ◌==◌, ℕ, zero, suc, ◌+◌, ◌≤◌, ◌<◌, ◌≡◌, refl, ap, ◌∙◌, inl, inr, Bool-cases, some, List, [], ◌∷◌,
  arith,
}
use mathlib.Core.Path.{subst}
use multiport_network.Interfaces.{HashTable, HashTableLaws}
use multiport_network.Interfaces.Reference.{bytes_eq, bytes_eq_sound, bytes_eq_refl}
use multiport_network.Connection.{ok, ◌>>=◌}
use multiport_network.MicroTest.Package.{get}
use multiport_network.LocalTest.{
  KvItem, Database, insert_items, pre_insert, find_or_exit, run_items, run_rounds,
}

module _ {Map : Type 0} (ht : HashTable Map) where
  abbrev pub HasKey : Map → List ℕ → Type 0
  HasKey m key = (value : List ℕ) × (ht.find m key ≡ some value)

  abbrev pub AllHave : Map → List KvItem → Type 0
  AllHave m [] = Unit {0}
  AllHave m (kv ∷ items) = HasKey m kv.key × AllHave m items

  run_items_found :
      (items : List KvItem) (m : Map) (total_len : ℕ)
      → AllHave m items
      → (len : ℕ) × (run_items ht get items m total_len ≡ ok (m, len))
  unfolding run_items find_or_exit
  run_items_found [] m total_len h = (total_len, refl)
  run_items_found (kv ∷ items) m total_len ((value, e), h) =
      let (len, r) = run_items_found items m _ h in
      (len, ap (λ o. find_or_exit ht o total_len >>= λ n. run_items ht get items m n) e ∙ r)

  run_rounds_found :
      (k : ℕ) (items : List KvItem) (m : Map) (total_len : ℕ)
      → AllHave m items
      → (len : ℕ) × (run_rounds ht k get items m total_len ≡ ok (m, len))
  unfolding run_rounds
  run_rounds_found zero items m total_len h = (total_len, refl)
  run_rounds_found (suc k) items m total_len h =
      let (len, e) = run_items_found items m total_len h in
      let (len', e') = run_rounds_found k items m len h in
      (len', ap (λ o. o >>= λ r. run_rounds ht k get items r.0 r.1) e ∙ e')

  module _ (laws : HashTableLaws ht) where
    insert-HasKey :
        (m : Map) (j key value : List ℕ) → HasKey m key → HasKey (ht.insert_or_assign m j value) key
    insert-HasKey m j key value (v, e) = elim (Bool-cases (bytes_eq j key)) [
      | inl same ↦
          subst (HasKey (ht.insert_or_assign m j value)) (bytes_eq_sound j key same)
            (value, laws.find-insert_self m j value)
      | inr other ↦ (
        v,
        laws.find-insert_ne m j key value (λ s. ground (arith, bytes_eq_refl j, ap (bytes_eq j) s))
            ∙ e,
      )
    ]

    insert_items-HasKey :
        (items : List KvItem) (m : Map) (key : List ℕ)
        → HasKey m key
        → HasKey (insert_items ht m items) key
    unfolding insert_items
    insert_items-HasKey [] m key h = h
    insert_items-HasKey (kv ∷ items) m key h =
        insert_items-HasKey items (ht.insert_or_assign m kv.key kv.value) key
          (insert-HasKey m kv.key key kv.value h)

    insert_items-AllHave : (items : List KvItem) (m : Map) → AllHave (insert_items ht m items) items
    unfolding insert_items
    insert_items-AllHave [] m = tt
    insert_items-AllHave (kv ∷ items) m =
        let m' = ht.insert_or_assign m kv.key kv.value in
        (
          insert_items-HasKey items m' kv.key (kv.value, laws.find-insert_self m kv.key kv.value),
          insert_items-AllHave items m',
        )

    AllHave-insert_items :
        (later items : List KvItem) (m : Map)
        → AllHave m items
        → AllHave (insert_items ht m later) items
    AllHave-insert_items later [] m h = tt
    AllHave-insert_items later (kv ∷ items) m (k, h) =
        (insert_items-HasKey later m kv.key k, AllHave-insert_items later items m h)

    AllHave-pre_insert :
        (db : Database) (n i : ℕ) (items : List KvItem) (m : Map)
        → AllHave m items
        → AllHave (pre_insert ht db n i m) items
    unfolding pre_insert
    AllHave-pre_insert db zero i items m h = h
    AllHave-pre_insert db (suc n) i items m h =
        AllHave-pre_insert db n (i + 1) items (insert_items ht m (db i))
          (AllHave-insert_items (db i) items m h)

    pre_insert-AllHave :
        (db : Database) (n i tid : ℕ) (m : Map)
        → i ≤ tid
        → tid < i + n
        → AllHave (pre_insert ht db n i m) (db tid)
    unfolding pre_insert
    pre_insert-AllHave db zero i tid m h h' = absurd (omega arith)
    pre_insert-AllHave db (suc n) i tid m h h' = elim (Bool-cases (i == tid)) [
      | inl same ↦
          let at : i ≡ tid = ground arith in
          subst (λ j. AllHave (pre_insert ht db n (i + 1) (insert_items ht m (db i))) (db j)) at
            (AllHave-pre_insert db n (i + 1) (db i) (insert_items ht m (db i))
              (insert_items-AllHave (db i) m))
      | inr other ↦
          pre_insert-AllHave db n (i + 1) tid (insert_items ht m (db i)) (ground arith)
            (ground arith)
    ]

    -- With a table that keeps `HashTableLaws`: once `pre_insert` has run, the GETs of each thread
    -- find all their keys in every round, so that no `find` throws, and leave the table as it is.
    pub pre_insert_found :
        (db : Database) (thread_num tid rounds : ℕ) (m : Map)
        → tid < thread_num
        → (len : ℕ) × (run_rounds ht rounds get (db tid) (pre_insert ht db thread_num 0 m) 0
            ≡ ok (pre_insert ht db thread_num 0 m, len))
    pre_insert_found db thread_num tid rounds m h =
        run_rounds_found rounds (db tid) (pre_insert ht db thread_num 0 m) 0
          (pre_insert-AllHave db thread_num 0 tid m (omega arith) (omega arith))
