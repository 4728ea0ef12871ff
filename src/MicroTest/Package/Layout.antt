-- ===== src/MicroTest/Package/Layout.antt =====
-- The packages of `con_database` as the server's protocol reads them.
use multiport_network.Base.{
  ℕ, zero, suc, ◌+◌, ◌-◌, ◌*◌, ◌/◌, ◌%◌, ◌≤◌, ◌<◌, ◌≡◌, refl, sym, ap, ◌∙◌, List, [], ◌∷◌, ◌++◌,
  length, take, replicate, arith, length-append, length-replicate, take-append, append_assoc,
}
use multiport_network.Base.Buffers.{patch}
use multiport_network.Protocol.{Header, store_header, swap16, swap32}
use multiport_network.Connection.{ok, ◌>>=◌}
use multiport_network.MicroTest.{key_len, value_len}
use multiport_network.MicroTest.Package.{
  Instruct, get_opcode, digits, sprintf_d, fill_text, fill_package, make_package, checked_port,
  con_database, port_of,
}

-- The header of a package.
abbrev pub package_header : ℕ → ℕ → Header
package_header opcode pre_hash = record {
  magic = 0x80;
  opcode = opcode;
  keylen = swap16 key_len;
  batchnum = swap16 1;
  prehash = pre_hash;
  reserved = 0;
  totalbodylen = swap32 (key_len + value_len);
}

body_lem :
    (key value xs ys : List ℕ)
    → length key ≡ 8
    → length value ≡ 8
    → take 16 (take 8 (key ++ xs) ++ (value ++ ys)) ≡ key ++ value
body_lem key value xs ys k v =
    ap (λ zs. take 16 (zs ++ (value ++ ys))) (take-append 8 key xs (sym k))
    ∙ ap (take 16) (sym (append_assoc key value ys))
    ∙ take-append 16 (key ++ value) ys (omega (arith, length-append key value))

-- The offsets of the macros are those of the header's struct, and the key and the value stand
-- behind it.
pub fill_package_layout :
    (opcode pre_hash : ℕ) (key value : List ℕ)
    → length key ≡ key_len
    → length value ≡ value_len
    → fill_package opcode pre_hash key value
      ≡ store_header (package_header opcode pre_hash) ++ (key ++ value)
unfolding fill_package store_header patch
fill_package_layout opcode pre_hash key value k v =
    ap (λ body. store_header (package_header opcode pre_hash) ++ body) (body_lem key value _ _ k v)

-- 10, 100, and so on.
abbrev pub tens : ℕ → ℕ
tens zero = 10
tens (suc k) = 10 * tens k

length-digits :
    (fuel k n : ℕ) (acc : List ℕ) → n < tens k → length (digits fuel n acc) ≤ suc k + length acc
unfolding digits
length-digits zero k n acc b = omega arith
length-digits (suc fuel) zero n acc b = ground arith
length-digits (suc fuel) (suc k) n acc b =
    ground (arith, length-digits fuel k (n / 10) ((b'0' + n % 10) ∷ acc))

-- The text of a number of at most eight digits, filled up to eight bytes.
abbrev pub text : ℕ → ℕ → List ℕ
text n letter = sprintf_d n ++ replicate (8 - length (sprintf_d n)) letter

sprintf_fits : (n : ℕ) → n < tens 7 → length (sprintf_d n) ≤ 8
unfolding sprintf_d
sprintf_fits n b = omega (arith, length-digits 10 7 n [] b)

pub length-text : (n letter : ℕ) → n < tens 7 → length (text n letter) ≡ 8
length-text n letter b = omega (
  arith,
  sprintf_fits n b,
  length-append (sprintf_d n) (replicate (8 - length (sprintf_d n)) letter),
  length-replicate (8 - length (sprintf_d n)) letter,
)

pub fill_text-fits : (n letter : ℕ) → n < tens 7 → fill_text 8 n letter ≡ ok (text n letter)
unfolding fill_text
fill_text-fits n letter b = ground (arith, sprintf_fits n b)

abbrev pub key_of : ℕ → List ℕ
key_of a = text (a / 26) (b'a' + a % 26)

abbrev pub value_of : ℕ → List ℕ
value_of a = text (a / 26) (b'a' + a % 26 + 1)

abbrev pub AllBelow : ℕ → List ℕ → Type 0
AllBelow bound [] = Unit {0}
AllBelow bound (a ∷ array) = (a < bound) × AllBelow bound array

module _ (hash_func : List ℕ → ℕ) (port_num : ℕ) (inst : Instruct) where
  -- The package of a number, as the protocol reads it.
  abbrev pub package_of : ℕ → List ℕ
  package_of a =
      store_header (package_header (get_opcode inst) (port_of hash_func port_num inst (key_of a)))
      ++ (key_of a ++ value_of a)

  abbrev pub packages_of : List ℕ → List ℕ
  packages_of [] = []
  packages_of (a ∷ array) = package_of a ++ packages_of array

  checked_port_lem :
      (key : List ℕ)
      → 0 < port_num
      → checked_port hash_func port_num inst key ≡ ok (port_of hash_func port_num inst key)
  unfolding checked_port
  checked_port_lem key some_port = ground arith

  pub make_package-package_of :
      (a : ℕ)
      → a < 26 * tens 7
      → 0 < port_num
      → make_package hash_func port_num inst a ≡ ok (package_of a)
  unfolding make_package
  make_package-package_of a b some_port =
      let n : a / 26 < tens 7 = omega arith in
      ap
        (λ o. o >>= λ key. fill_text value_len (a / 26) (b'a' + a % 26 + 1) >>= λ value.
          checked_port hash_func port_num inst key >>= λ port.
          ok (fill_package (get_opcode inst) port key value))
        (fill_text-fits (a / 26) (b'a' + a % 26) n)
      ∙ ap
          (λ o. o >>= λ value. checked_port hash_func port_num inst (key_of a) >>= λ port.
            ok (fill_package (get_opcode inst) port (key_of a) value))
          (fill_text-fits (a / 26) (b'a' + a % 26 + 1) n)
      ∙ ap (λ o. o >>= λ port. ok (fill_package (get_opcode inst) port (key_of a) (value_of a)))
          (checked_port_lem (key_of a) some_port)
      ∙ ap ok (
          fill_package_layout (get_opcode inst) (port_of hash_func port_num inst (key_of a))
            (key_of a) (value_of a) (length-text _ _ n) (length-text _ _ n))

  -- With one port or more, the database of a sequence of numbers below 26 * 10^8 is made without leaving a buffer, and is
  -- the packages of the protocol, one behind the other.
  pub con_database-packages_of :
      (array : List ℕ)
      → AllBelow (26 * tens 7) array
      → 0 < port_num
      → con_database hash_func port_num inst array ≡ ok (packages_of array)
  unfolding con_database
  con_database-packages_of [] h some_port = refl
  con_database-packages_of (a ∷ array) (b, h) some_port =
      ap (λ o. o >>= λ p. con_database hash_func port_num inst array >>= λ db. ok (p ++ db))
        (make_package-package_of a b some_port)
      ∙ ap (λ o. o >>= λ db. ok (package_of a ++ db)) (con_database-packages_of array h some_port)
