-- ===== src/GetBatch/Packed/Whole.antt =====
-- `con_database` of get_batch_test.cpp over the whole sequence.
use mathlib.Core.Path.{subst}
use multiport_network.Base.{
  ℕ, ◌+◌, ◌-◌, ◌*◌, ◌/◌, ◌%◌, ◌<◌, ◌≡◌, refl, sym, ap, ◌∙◌, Bool, true, false, List, [], ◌∷◌, ◌++◌,
  arith, length, append_assoc, append-nil, leb, ◌==◌,
}
use multiport_network.Connection.{ok, ◌>>=◌}
use multiport_network.MicroTest.Package.Layout.{key_of, length-text, fill_text-fits, tens, AllBelow}
use multiport_network.GetBatch.{
  BatchObj, batch_size, add_package, Build, start_build, put_batch, put_key, build, get_port_of,
  checked_get_port,
}
use multiport_network.GetBatch.Packed.{IsPacked, IsAdded, new_batch_obj-IsOpen, add_package-IsAdded}
use multiport_network.GetBatch.Packed.Groups.{
  put_open-IsPacked, put_full-IsPacked, put_other-IsPacked,
}

-- `keys` with one more, where it went to this port.
abbrev pub key_if : Bool → List (List ℕ) → List ℕ → List (List ℕ)
key_if true keys key = keys ++ key ∷ []
key_if false keys key = keys

put_same-IsPacked :
    (s : Build) (port : ℕ) (keys : List (List ℕ)) (key : List ℕ) (b : BatchObj) (full : Bool)
    → (v : IsPacked port keys s) → IsAdded port (v.rest ++ key ∷ []) b
    → leb (batch_size - 1) (s.batch_obj_list port).num ≡ full
    → IsPacked port (keys ++ key ∷ []) (put_batch s port full b)
put_same-IsPacked s port keys key b true v added e =
    put_full-IsPacked s port keys key b v added (ground (arith, v.open_batch.num, v.open_batch.few))
put_same-IsPacked s port keys key b false v added e =
    put_open-IsPacked s port keys key b v added (ground (arith, v.open_batch.num, v.open_batch.few))

module _ (s : Build) (port : ℕ) (key : List ℕ) (len : length key ≡ 8) (keys : ℕ → List (List ℕ))
    (packed : (p : ℕ) → IsPacked p (keys p) s) where
  abbrev added :
      (b' : BatchObj) × (add_package (s.batch_obj_list port) port key ≡ ok b')
      × IsAdded port ((packed port).rest ++ key ∷ []) b'
  added =
      add_package-IsAdded port (packed port).rest (s.batch_obj_list port) key
        (packed port).open_batch len

  abbrev full : Bool
  full = leb (batch_size - 1) (s.batch_obj_list port).num

  put_key_ok : put_key s port key ≡ ok (put_batch s port full added.0)
  unfolding put_key
  put_key_ok = ap (λ o. o >>= λ b'. ok (put_batch s port full b')) added.1

  put_batch-IsPacked :
      (p : ℕ) (same : Bool)
      → (p == port) ≡ same
      → IsPacked p (key_if same (keys p) key) (put_batch s port full added.0)
  put_batch-IsPacked p false e = put_other-IsPacked s port p (keys p) full added.0 e (packed p)
  put_batch-IsPacked p true e =
      let at : port ≡ p = ground arith in
      subst (λ q. IsPacked q (keys q ++ key ∷ []) (put_batch s port full added.0)) at
        (put_same-IsPacked s port (keys port) key added.0 full (packed port) added.2 refl)

module _ (hash_func : List ℕ → ℕ) (port_num : ℕ) where
  -- The keys of a sequence that hash to a port, in their order.
  abbrev pub keys_for : ℕ → List ℕ → List (List ℕ)
  keys_for p [] = []
  keys_for p (a ∷ array) =
      key_if (p == get_port_of hash_func port_num (key_of a)) [] (key_of a) ++ keys_for p array

  key_if-append :
      (b : Bool) (keys more : List (List ℕ)) (key : List ℕ)
      → key_if b keys key ++ more ≡ keys ++ (key_if b [] key ++ more)
  key_if-append true keys more key = append_assoc keys (key ∷ []) more
  key_if-append false keys more key = refl

  checked_get_port_lem :
      (key : List ℕ)
      → 0 < port_num
      → checked_get_port hash_func port_num key ≡ ok (get_port_of hash_func port_num key)
  unfolding checked_get_port
  checked_get_port_lem key some_port = ground arith

  build-IsPacked_from :
      0 < port_num
      → (array : List ℕ) (s : Build) (keys : ℕ → List (List ℕ)) → AllBelow (26 * tens 7) array
      → ((p : ℕ) → IsPacked p (keys p) s)
      → (s' : Build) × (build hash_func port_num s array ≡ ok s')
        × ((p : ℕ) → IsPacked p (keys p ++ keys_for p array) s')
  unfolding build
  build-IsPacked_from some_port [] s keys h packed =
      (s, refl, λ p. subst (λ ks. IsPacked p ks s) (sym (append-nil (keys p))) (packed p))
  build-IsPacked_from some_port (a ∷ array) s keys (b, h) packed =
      let n : a / 26 < tens 7 = omega arith in
      let key = key_of a in
      let len = length-text (a / 26) (b'a' + a % 26) n in
      let port = get_port_of hash_func port_num key in
      let s₁ =
        put_batch s port (full s port key len keys packed) (added s port key len keys packed).0 in
      let (s', e, packed') =
        build-IsPacked_from some_port array s₁ (λ p. key_if (p == port) (keys p) key) h
          (λ p. put_batch-IsPacked s port key len keys packed p (p == port) refl) in
      (
        s',
        ap
              (λ o. o >>= λ k. checked_get_port hash_func port_num k >>= λ q.
                put_key s q k >>= λ u. build hash_func port_num u array)
              (fill_text-fits (a / 26) (b'a' + a % 26) n)
            ∙ ap (λ o. o >>= λ q. put_key s q key >>= λ u. build hash_func port_num u array)
                (checked_get_port_lem key some_port)
            ∙ ap (λ o. o >>= λ u. build hash_func port_num u array)
                (put_key_ok s port key len keys packed)
            ∙ e,
        λ p.
            subst (λ ks. IsPacked p ks s')
              (key_if-append (p == port) (keys p) (keys_for p array) key) (packed' p),
      )

  -- With one port or more and numbers below 26 * 10^8, `con_database` never leaves a buffer; for each port the database
  -- has the keys of the sequence that hash to it, in their order and in full batches of the
  -- protocol's bytes, and the keys that are left over, fewer than a batch, are in the batch that
  -- is discarded.
  pub build-IsPacked :
      0 < port_num
      → (array : List ℕ) → AllBelow (26 * tens 7) array
      → (s : Build) × (build hash_func port_num start_build array ≡ ok s)
        × ((p : ℕ) → IsPacked p (keys_for p array) s)
  unfolding start_build
  build-IsPacked some_port array h =
      build-IsPacked_from some_port array start_build (λ p. []) h
        (λ p. record {
          groups = [];
          rest = [];
          same = refl;
          full = tt;
          in_database = refl;
          open_batch = new_batch_obj-IsOpen p;
        })
