-- ===== src/MicroTest/Package/Served.antt =====
-- The packages of `con_database` at the server.
use mathlib.Core.Path.{subst}
use multiport_network.Base.{
  ℕ, suc, ◌+◌, ◌*◌, ◌/◌, ◌%◌, ◌<◌, ◌≡◌, refl, ap, ◌∙◌, false, inl, List, ◌++◌, arith, append_assoc,
}
use multiport_network.Interfaces.{Os, HashTable}
use multiport_network.Protocol.{store_header, cmd_set}
use multiport_network.Protocol.RoundTrip.{
  IsHeader, swap16-lt, swap32-lt, swap16-swap16, swap32-swap32,
}
use multiport_network.Connection.{Conn, conn_deal_with, conn_new_cmd, parse_head, ok, pending}
use multiport_network.Connection.Buffered.{IsBuffered}
use multiport_network.Connection.Process.{Turn, process_loop}
use multiport_network.Connection.Service.Store.{set_stores}
use multiport_network.MicroTest.Package.{make_package, set, get_opcode, port_of}
use multiport_network.MicroTest.Package.Layout.{
  package_header, package_of, make_package-package_of, key_of, value_of, length-text, tens,
}

-- A connection of the server, outside a batch, at the head of these bytes.
pub record AtBytes (c : Conn) (bytes : List ℕ) : Type 0 where
  pub buffered : IsBuffered c
  pub dealing : c.conn_state ≡ conn_deal_with
  pub parsing : c.work_state ≡ parse_head
  pub single : c.in_batch_get ≡ false
  pub input : pending c ≡ bytes

pub package_header-IsHeader : (opcode pre_hash : ℕ) → IsHeader (package_header opcode pre_hash)
package_header-IsHeader opcode pre_hash = record {
  keylen_fits = swap16-lt 8;
  batchnum_fits = swap16-lt 1;
  totalbodylen_fits = swap32-lt 16;
}

module _ {Net Map : Type 0} (os : Os Net) (ht : HashTable Map) (hash_func : List ℕ → ℕ)
    (port_num a : ℕ) (some_port : 0 < port_num) (fits : a < 26 * tens 7) (t : Turn Net Map)
    (rest : List ℕ) (running : t.stop ≡ false) where
  package_stored :
      AtBytes t.conn (package_of hash_func port_num set a ++ rest)
      → (t' : Turn Net Map) × ((n : ℕ)
          → process_loop os ht (suc (suc (suc n))) t ≡ process_loop os ht n t')
        × (t'.table ≡ ht.insert_or_assign t.table (key_of a) (value_of a))
        × (t'.net ≡ t.net)
        × (pending t'.conn ≡ rest)
        × (t'.conn.conn_state ≡ conn_new_cmd)
        × (t'.conn.work_state ≡ parse_head)
  unfolding get_opcode
  package_stored at =
      let n : a / 26 < tens 7 = omega arith in
      let key = length-text (a / 26) (b'a' + a % 26) n in
      let value = length-text (a / 26) (b'a' + a % 26 + 1) n in
      let h = package_header cmd_set (port_of hash_func port_num set (key_of a)) in
      set_stores os ht t h (key_of a) (value_of a) rest running
        (record {
          buffered = at.buffered;
          dealing = at.dealing;
          parsing = at.parsing;
          is_header = package_header-IsHeader cmd_set _;
          magic = refl;
          op = refl;
          bodylen = omega (arith, swap32-swap32 16, key, value);
          input =
              at.input
              ∙ append_assoc (store_header h) (key_of a ++ value_of a) rest
              ∙ ap (◌++◌ (store_header h)) (append_assoc (key_of a) (value_of a) rest);
          in_turn = inl at.single;
        })
        (omega (arith, swap16-swap16 8, key)) (omega (arith, key)) (omega (arith, value))

  made :
      (p : List ℕ)
      → make_package hash_func port_num set a ≡ ok p
      → p ≡ package_of hash_func port_num set a
  made p e = ground (arith, make_package-package_of hash_func port_num set a fits some_port, e)

  -- The server stores the pair of every SET package that the client makes, with one port or
  -- more, of a number below 26 * 10^8: three rounds after such a package stood at the head of the input, outside a batch, the
  -- pair is in the table, nothing was written, the rest of the input is unread and the next
  -- command is due.
  pub set_package_stored :
      (p : List ℕ)
      → make_package hash_func port_num set a ≡ ok p
      → AtBytes t.conn (p ++ rest)
      → (t' : Turn Net Map) × ((n : ℕ)
          → process_loop os ht (suc (suc (suc n))) t ≡ process_loop os ht n t')
        × (t'.table ≡ ht.insert_or_assign t.table (key_of a) (value_of a))
        × (t'.net ≡ t.net)
        × (pending t'.conn ≡ rest)
        × (t'.conn.conn_state ≡ conn_new_cmd)
        × (t'.conn.work_state ≡ parse_head)
  set_package_stored p e at =
      package_stored (subst (λ bytes. AtBytes t.conn (bytes ++ rest)) (made p e) at)
