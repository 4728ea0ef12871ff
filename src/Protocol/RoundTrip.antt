-- ===== src/Protocol/RoundTrip.antt =====
-- Lemmas on headers in memory and on the byte order.
use multiport_network.Base.{ℕ, ◌^◌, ◌<◌, ◌≡◌, refl, List, ◌++◌, arith, length}
use multiport_network.Protocol.{Header, swap16, swap32, store_header, load_header}

pub swap16-swap16 : (x : ℕ) → x < 2 ^ 16 → swap16 (swap16 x) ≡ x
unfolding swap16
swap16-swap16 x h = omega arith

pub swap32-swap32 : (x : ℕ) → x < 2 ^ 32 → swap32 (swap32 x) ≡ x
unfolding swap32
swap32-swap32 x h = omega arith

pub swap16-lt : (x : ℕ) → swap16 x < 2 ^ 16
unfolding swap16
swap16-lt x = omega arith

pub swap32-lt : (x : ℕ) → swap32 x < 2 ^ 32
unfolding swap32
swap32-lt x = omega arith

-- The fields fit their types.
pub record IsHeader (h : Header) : Type 0 where
  pub keylen_fits : h.keylen < 2 ^ 16
  pub batchnum_fits : h.batchnum < 2 ^ 16
  pub totalbodylen_fits : h.totalbodylen < 2 ^ 32

pub length-store_header : (h : Header) → length (store_header h) ≡ 12
unfolding store_header
length-store_header h = refl

-- A header whose fields fit their types is read back as it was stored, whatever follows it.
pub load_header-store_header :
    (h : Header) (rest : List ℕ) → IsHeader h → load_header (store_header h ++ rest) ≡ h
unfolding load_header store_header
load_header-store_header h rest v = ground arith
