-- ===== src/GetBatch/Packed/Groups.antt =====
-- A batch that is put back or moved to the database, in `con_database` of get_batch_test.cpp.
use mathlib.Core.Path.{ap₂, subst}
use multiport_network.Base.{
  ℕ, ◌+◌, ◌<◌, ◌≡◌, refl, sym, ap, ◌∙◌, Bool, true, false, List, [], ◌∷◌, ◌++◌, arith, length,
  length-append, append_assoc, append-nil, ◌==◌, take_all,
}
use multiport_network.GetBatch.{BatchObj, batch_size, new_batch_obj, Build, set_port, put_batch}
use multiport_network.GetBatch.Packed.{
  sealed, all_sealed, AllFull, flat, IsOpen, IsPacked, IsAdded, new_batch_obj-IsOpen,
}

flat-append :
    (groups : List (List (List ℕ))) (group : List (List ℕ))
    → flat (groups ++ group ∷ []) ≡ flat groups ++ group
flat-append [] group = append-nil group
flat-append (g ∷ groups) group =
    ap (◌++◌ g) (flat-append groups group) ∙ sym (append_assoc g (flat groups) group)

all_sealed-append :
    (port : ℕ) (groups : List (List (List ℕ))) (group : List (List ℕ))
    → all_sealed port (groups ++ group ∷ []) ≡ all_sealed port groups ++ sealed port group ∷ []
all_sealed-append port [] group = refl
all_sealed-append port (g ∷ groups) group =
    ap (◌∷◌ (sealed port g)) (all_sealed-append port groups group)

AllFull-append :
    (groups : List (List (List ℕ))) (group : List (List ℕ))
    → AllFull groups
    → length group ≡ batch_size
    → AllFull (groups ++ group ∷ [])
AllFull-append [] group h len = (len, tt)
AllFull-append (g ∷ groups) group h len = (h.0, AllFull-append groups group h.1 len)

IsAdded-sealed :
    (port : ℕ) (keys : List (List ℕ)) (b : BatchObj)
    → IsAdded port keys b
    → length keys ≡ batch_size
    → record b { offset = 0 } ≡ sealed port keys
IsAdded-sealed port keys b v len =
    ground (arith, take_all b.offset b.buf (omega (arith, v.held, v.offset, len)))

set_port_self : {A : Type 0} → (f : ℕ → A) (port : ℕ) (x : A) → set_port f port x port ≡ x
set_port_self f port x = ground arith

set_port_other :
    {A : Type 0}
    → (f : ℕ → A) (port p : ℕ) (x : A) → (p == port) ≡ false
    → set_port f port x p ≡ f p
set_port_other f port p x h = ground arith

module _ (s : Build) (port : ℕ) (keys : List (List ℕ)) (key : List ℕ) (b : BatchObj)
    (v : IsPacked port keys s) (added : IsAdded port (v.rest ++ key ∷ []) b) where
  same_keys : keys ++ key ∷ [] ≡ flat v.groups ++ (v.rest ++ key ∷ [])
  same_keys = ap (λ xs. xs ++ key ∷ []) v.same ∙ append_assoc (flat v.groups) v.rest (key ∷ [])

  pub put_open-IsPacked :
      length v.rest + 1 < batch_size → IsPacked port (keys ++ key ∷ []) (put_batch s port false b)
  unfolding put_batch
  put_open-IsPacked few = record {
    groups = v.groups;
    rest = v.rest ++ key ∷ [];
    same = same_keys;
    full = v.full;
    in_database = v.in_database;
    open_batch =
        subst (λ o. IsOpen port (v.rest ++ key ∷ []) o)
          (sym (set_port_self s.batch_obj_list port b))
          (record {
            few = omega (arith, few, length-append v.rest (key ∷ []));
            num = added.num;
            offset = added.offset;
            datalen = added.datalen;
            held = added.held;
            written = added.written;
          });
  }

  pub put_full-IsPacked :
      length v.rest + 1 ≡ batch_size → IsPacked port (keys ++ key ∷ []) (put_batch s port true b)
  unfolding put_batch
  put_full-IsPacked last =
      let len : length (v.rest ++ key ∷ []) ≡ batch_size =
        omega (arith, last, length-append v.rest (key ∷ [])) in
      record {
        groups = v.groups ++ (v.rest ++ key ∷ []) ∷ [];
        rest = [];
        same =
            same_keys
            ∙ sym (flat-append v.groups (v.rest ++ key ∷ []))
            ∙ sym (append-nil (flat (v.groups ++ (v.rest ++ key ∷ []) ∷ [])));
        full = AllFull-append v.groups (v.rest ++ key ∷ []) v.full len;
        in_database =
            set_port_self s.database port (s.database port ++ record b { offset = 0 } ∷ [])
            ∙ ap₂ (λ xs x. xs ++ x ∷ []) v.in_database (IsAdded-sealed port _ b added len)
            ∙ sym (all_sealed-append port v.groups (v.rest ++ key ∷ []));
        open_batch =
            subst (λ o. IsOpen port [] o)
              (sym (set_port_self s.batch_obj_list port (new_batch_obj port)))
              (new_batch_obj-IsOpen port);
      }

pub put_other-IsPacked :
    (s : Build) (port p : ℕ) (keys : List (List ℕ)) (full : Bool) (b : BatchObj)
    → (p == port) ≡ false
    → IsPacked p keys s
    → IsPacked p keys (put_batch s port full b)
unfolding put_batch
put_other-IsPacked s port p keys true b ne v = record {
  groups = v.groups;
  rest = v.rest;
  same = v.same;
  full = v.full;
  in_database = set_port_other s.database port p _ ne ∙ v.in_database;
  open_batch =
      subst (λ o. IsOpen p v.rest o) (sym (set_port_other s.batch_obj_list port p _ ne))
        v.open_batch;
}
put_other-IsPacked s port p keys false b ne v = record {
  groups = v.groups;
  rest = v.rest;
  same = v.same;
  full = v.full;
  in_database = v.in_database;
  open_batch =
      subst (λ o. IsOpen p v.rest o) (sym (set_port_other s.batch_obj_list port p _ ne))
        v.open_batch;
}
