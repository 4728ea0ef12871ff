-- ===== src/Kvobj.antt =====
-- kvobj.h and kvobj.cpp. The fields of `struct KVOBJ` are aligned to their sizes: `key_len` at 0,
-- `value_len` at 4 and `kv` at 8. Lengths and bytes are as the caller gives them; `memcpy` reads the
-- given number of bytes.
use multiport_network.Base.{
  ℕ, ◌+◌, ◌≡◌, refl, codes, Bool, true, Option, none, some, List, [], ◌∷◌, ◌++◌, ◌==◌, arith,
  length, take, ltb, if◌then◌else◌, take-append, drop-append, take_all,
}
use multiport_network.Base.Buffers.{slice}
use multiport_network.MicroTest.Package.{sprintf_d}
use multiport_network.Connection.{Outcome, ok, exits, fault}

-- offsetof(struct KVOBJ, kv)
abbrev pub kv_offset : ℕ
kv_offset = 8

-- The object: its two lengths and the bytes from `kv` on.
pub record KvObj : Type 0 where
  pub key_len : ℕ
  pub value_len : ℕ
  pub kv : List ℕ

-- The assignments and copies into an allocation of `size` bytes.
unfoldable pub fill_kvobj : (size key_len : ℕ) → List ℕ → ℕ → List ℕ → Outcome KvObj
fill_kvobj size key_len key value_len value =
    if ltb size (kv_offset + key_len + value_len)
    then fault
    else ok (record {
      key_len = key_len;
      value_len = value_len;
      kv = take key_len key ++ take value_len value;
    })

unfoldable pub create_kvobj : ℕ → List ℕ → ℕ → List ℕ → Outcome KvObj
create_kvobj key_len key value_len value =
    fill_kvobj (2 + 4 + key_len + value_len) key_len key value_len value

-- KVOBJ_KEY and KVOBJ_VALUE, read to their lengths.
unfoldable pub kvobj_key : KvObj → List ℕ
kvobj_key o = slice o.kv 0 o.key_len

unfoldable pub kvobj_value : KvObj → List ℕ
kvobj_value o = slice o.kv o.key_len o.value_len

-- `free`, of an object that is there.
unfoldable pub kvobj_destory : Option KvObj → Outcome Bool
kvobj_destory none = exits
kvobj_destory (some kv) = ok true

-- The bytes up to a NUL, as "%.*s" prints them.
unfoldable pub until_nul : List ℕ → List ℕ
until_nul [] = []
until_nul (b ∷ bs) = if b == 0 then [] else b ∷ until_nul bs

-- The two lines that are printed.
unfoldable pub showkv : KvObj → List ℕ
unfolding sprintf_d kvobj_key kvobj_value until_nul
showkv kv =
    codes "key_len:"
    ++ sprintf_d kv.key_len
    ++ codes "\tvalue_len:"
    ++ sprintf_d kv.value_len
    ++ codes "\n"
    ++ until_nul (kvobj_key kv)
    ++ codes ":"
    ++ until_nul (kvobj_value kv)
    ++ codes "\n"

-- Into an allocation that is large enough, key and value are laid out so that the macros find them.
pub fill_kvobj_layout :
    (size : ℕ) (key value : List ℕ) (o : KvObj)
    → fill_kvobj size (length key) key (length value) value ≡ ok o
    → (kvobj_key o ≡ key) × (kvobj_value o ≡ value)
unfolding fill_kvobj kvobj_key kvobj_value
fill_kvobj_layout size key value o e = ground (
  arith,
  take_all (length key) key (omega arith),
  take_all (length value) value (omega arith),
  take-append (length key) key value refl,
  drop-append (length key) key value refl,
)

-- `create_kvobj` asks for 6 bytes beside key and value, two less than stand before them: whatever
-- it is called with, it writes out of its allocation.
pub create_kvobj_overflows :
    (key_len value_len : ℕ) (key value : List ℕ) → create_kvobj key_len key value_len value ≡ fault
unfolding create_kvobj fill_kvobj
create_kvobj_overflows key_len value_len key value = ground arith
