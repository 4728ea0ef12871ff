-- ===== src/GetBatch/Packed.antt =====
-- What `con_database` packs: for each port the keys that hash to it, in groups of a batch.
pub mod Groups
pub mod Whole
use mathlib.Core.Path.{ap₂, subst}
use multiport_network.Base.{
  ℕ, zero, suc, ◌+◌, ◌-◌, ◌*◌, ◌/◌, ◌%◌, ◌^◌, ◌≤◌, ◌<◌, ◌≡◌, ◌≢◌, refl, sym, ap, ◌∙◌, Bool, true,
  false, Bool-cases, ◌⊎◌, inl, inr, List, [], ◌∷◌, ◌++◌, arith, length, length-append,
  length-replicate, append_assoc, append-nil, take, replicate, leb, ltb, ◌==◌, if◌then◌else◌,
  take_all, take-append,
}
use multiport_network.Base.Buffers.{patch, take-patch, length-patch, slice-patch}
use multiport_network.Protocol.{store_header, head_len}
use multiport_network.Protocol.RoundTrip.{length-store_header}
use multiport_network.Connection.{Outcome, ok, fault, ◌>>=◌}
use multiport_network.MicroTest.Package.Layout.{key_of, length-text, fill_text-fits, tens, AllBelow}
use multiport_network.GetBatch.{
  BatchObj, batch_size, batch_len, get_package_len, batch_head, get_head, new_batch_obj,
  get_package, add_package, Build, start_build, set_port, put_batch, put_key, build, get_port_of,
}

-- The bytes of a batch of these keys.
abbrev pub packages : ℕ → ℕ → List (List ℕ) → List ℕ
packages port num [] = []
packages port num (key ∷ keys) = get_package num port key ++ packages port (num + 1) keys

abbrev pub batch_bytes : ℕ → List (List ℕ) → List ℕ
batch_bytes port keys = store_header (batch_head port) ++ packages port 0 keys

-- A batch as it stands in the database.
abbrev pub sealed : ℕ → List (List ℕ) → BatchObj
sealed port keys = record {
  buf = batch_bytes port keys;
  offset = 0;
  datalen = batch_len;
  num = batch_size;
}

abbrev pub all_sealed : ℕ → List (List (List ℕ)) → List BatchObj
all_sealed port [] = []
all_sealed port (group ∷ groups) = sealed port group ∷ all_sealed port groups

abbrev pub AllFull : List (List (List ℕ)) → Type 0
AllFull [] = Unit {0}
AllFull (group ∷ groups) = (length group ≡ batch_size) × AllFull groups

abbrev pub flat : List (List (List ℕ)) → List (List ℕ)
flat [] = []
flat (group ∷ groups) = group ++ flat groups

-- A batch that is being packed with these keys.
pub record IsOpen (port : ℕ) (keys : List (List ℕ)) (b : BatchObj) : Type 0 where
  pub few : length keys < batch_size
  pub num : b.num ≡ length keys
  pub offset : b.offset ≡ head_len + length keys * get_package_len
  pub datalen : b.datalen ≡ batch_len
  pub held : length b.buf ≡ batch_len
  pub written : take b.offset b.buf ≡ batch_bytes port keys

-- The keys that went to a port: full groups in the database, and the rest in the open batch.
pub record IsPacked (port : ℕ) (keys : List (List ℕ)) (s : Build) : Type 0 where
  pub groups : List (List (List ℕ))
  pub rest : List (List ℕ)
  pub same : keys ≡ flat groups ++ rest
  pub full : AllFull groups
  pub in_database : s.database port ≡ all_sealed port groups
  pub open_batch : IsOpen port rest (s.batch_obj_list port)

pub length-get_package :
    (num port : ℕ) (key : List ℕ)
    → length key ≡ 8
    → length (get_package num port key) ≡ get_package_len
unfolding get_package
length-get_package num port key len = omega (
  arith,
  length-append (store_header (get_head num port)) key,
  length-store_header (get_head num port),
)

packages-append :
    (port num : ℕ) (keys : List (List ℕ)) (key : List ℕ)
    → packages port num (keys ++ key ∷ [])
      ≡ packages port num keys ++ get_package (num + length keys) port key
packages-append port num [] key =
    append-nil (get_package num port key) ∙ ap (λ n. get_package n port key) (omega arith)
packages-append port num (k ∷ keys) key =
    ap (◌++◌ (get_package num port k)) (
      packages-append port (num + 1) keys key
      ∙ ap (λ n. packages port (num + 1) keys ++ get_package n port key) (omega arith))
    ∙ sym (
        append_assoc (get_package num port k) (packages port (num + 1) keys)
          (get_package (num + length (k ∷ keys)) port key))

pub new_batch_obj-IsOpen : (port : ℕ) → IsOpen port [] (new_batch_obj port)
unfolding new_batch_obj patch store_header
new_batch_obj-IsOpen port = record {
  few = omega arith;
  num = refl;
  offset = refl;
  datalen = refl;
  held =
      length-patch (replicate batch_len 0) 0 (store_header (batch_head port))
        (omega (arith, length-store_header (batch_head port), length-replicate {A = ℕ} batch_len 0))
      ∙ length-replicate {A = ℕ} batch_len 0;
  written =
      slice-patch (replicate batch_len 0) 0 (store_header (batch_head port)) (omega arith)
      ∙ sym (append-nil (store_header (batch_head port)));
}

-- One more key: the batch is open still, or it is full and all of it is written.
pub record IsAdded (port : ℕ) (keys : List (List ℕ)) (b : BatchObj) : Type 0 where
  pub num : b.num ≡ length keys
  pub offset : b.offset ≡ head_len + length keys * get_package_len
  pub datalen : b.datalen ≡ batch_len
  pub held : length b.buf ≡ batch_len
  pub written : take b.offset b.buf ≡ batch_bytes port keys

pub add_package-IsAdded :
    (port : ℕ) (keys : List (List ℕ)) (b : BatchObj) (key : List ℕ)
    → IsOpen port keys b
    → length key ≡ 8
    → (b' : BatchObj) × (add_package b port key ≡ ok b') × IsAdded port (keys ++ key ∷ []) b'
unfolding add_package
add_package-IsAdded port keys b key v len =
    let p = get_package b.num port key in
    let plen = length-get_package b.num port key len in
    (
      record b {
        buf = patch b.buf b.offset p;
        num = (b.num + 1) % 2 ^ 16;
        offset = b.offset + get_package_len;
      },
      ground (arith, v.held, v.offset, v.few),
      record {
        num = omega (arith, v.num, v.few, length-append keys (key ∷ []));
        offset = omega (arith, v.offset, length-append keys (key ∷ []));
        datalen = v.datalen;
        held =
            length-patch b.buf b.offset p (omega (arith, v.held, v.offset, v.few, plen)) ∙ v.held;
        written =
            take-patch b.buf b.offset (b.offset + get_package_len) p
              (omega (arith, v.held, v.offset, v.few)) (omega (arith, plen))
            ∙ ap₂ (λ xs n. xs ++ get_package n port key) v.written v.num
            ∙ append_assoc (store_header (batch_head port)) (packages port 0 keys)
                (get_package (length keys) port key)
            ∙ ap (◌++◌ (store_header (batch_head port))) (
                ap (λ n. packages port 0 keys ++ get_package n port key) (omega arith)
                ∙ sym (packages-append port 0 keys key));
      },
    )
