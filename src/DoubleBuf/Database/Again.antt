-- ===== src/DoubleBuf/Database/Again.antt =====
-- The file of numbers of double_buf_get.cpp from one run to the next.
use mathlib.Core.Path.{ap₂}
use multiport_network.Base.{
  ℕ, zero, suc, ◌+◌, ◌-◌, ◌*◌, ◌/◌, ◌^◌, ◌<◌, ◌≡◌, refl, sym, ap, ◌∙◌, none, some, List, [], ◌∷◌,
  ◌++◌, arith, length, length-append, append_assoc, take, drop, replicate, take-append, drop-append,
  take_all,
}
use multiport_network.Connection.{ok, ◌>>=◌, >>=-eq-ok}
use multiport_network.GetBatch.{start_build, build}
use multiport_network.DoubleBuf.Database.{
  store_number, load_number, write_numbers, numbers_at, read_numbers, draw_numbers, load_numbers,
  Made, made, con_get_database,
}

length-draw_numbers : (draw : ℕ → ℕ) (n i : ℕ) → length (draw_numbers draw n i) ≡ n
unfolding draw_numbers
length-draw_numbers draw zero i = refl
length-draw_numbers draw (suc n) i = omega (arith, length-draw_numbers draw n (i + 1))

load_number-store_number : (n x : ℕ) → x < 256 ^ n → load_number (store_number n x) ≡ x
unfolding load_number store_number
load_number-store_number zero x small = omega arith
load_number-store_number (suc n) x small =
    omega (arith, load_number-store_number n (x / 256) (grind arith))

length-store_number : (n x : ℕ) → length (store_number n x) ≡ n
unfolding store_number
length-store_number zero x = refl
length-store_number (suc n) x = ap suc (length-store_number n (x / 256))

length-write_numbers : (xs : List ℕ) → length (write_numbers xs) ≡ 8 * length xs
unfolding write_numbers
length-write_numbers [] = omega arith
length-write_numbers (x ∷ xs) = omega (
  arith,
  length-append (store_number 8 x) (write_numbers xs),
  length-store_number 8 x,
  length-write_numbers xs,
)

-- These numbers are within 64 bits.
abbrev AllSmall : List ℕ → Type 0
AllSmall [] = Unit {0}
AllSmall (x ∷ xs) = (x < 2 ^ 64) × AllSmall xs

draw_numbers-AllSmall :
    (draw : ℕ → ℕ) → ((i : ℕ) → draw i < 2 ^ 64) → (n i : ℕ) → AllSmall (draw_numbers draw n i)
unfolding draw_numbers
draw_numbers-AllSmall draw ranged zero i = tt
draw_numbers-AllSmall draw ranged (suc n) i =
    (ranged i, draw_numbers-AllSmall draw ranged n (i + 1))

numbers_at-write_numbers :
    (xs rest : List ℕ) → AllSmall xs → numbers_at (length xs) (write_numbers xs ++ rest) ≡ xs
unfolding numbers_at write_numbers
numbers_at-write_numbers [] rest h = refl
numbers_at-write_numbers (x ∷ xs) rest (small, h) =
    let bytes = store_number 8 x in
    let more = write_numbers xs ++ rest in
    let split = append_assoc bytes (write_numbers xs) rest in
    let eight = length-store_number 8 x in
    ap₂ (λ y ys. y ∷ ys)
      (ap (λ zs. load_number (take 8 zs)) split
        ∙ ap load_number (take-append 8 bytes more (sym eight))
        ∙ load_number-store_number 8 x (omega arith))
      (ap (λ zs. numbers_at (length xs) (drop 8 zs)) split
        ∙ ap (numbers_at (length xs)) (drop-append 8 bytes more (sym eight))
        ∙ numbers_at-write_numbers xs rest h)

load_again :
    (count : ℕ) (draw other : ℕ → ℕ)
    → ((i : ℕ) → draw i < 2 ^ 64)
    → load_numbers count (some (load_numbers count none draw).1) other
      ≡ load_numbers count none draw
unfolding load_numbers read_numbers
load_again count draw other ranged =
    let xs = draw_numbers draw count 0 in
    let content = write_numbers xs in
    let len = length-draw_numbers draw count 0 in
    ap (λ ys. (ys, content))
      (ap (λ zs. numbers_at count (zs ++ replicate (8 * count - length content) 0))
          (take_all (8 * count) content (omega (arith, length-write_numbers xs)))
        ∙ ap (λ n. numbers_at n (content ++ replicate (8 * count - length content) 0)) (sym len)
        ∙ numbers_at-write_numbers xs (replicate (8 * count - length content) 0)
            (draw_numbers-AllSmall draw ranged count 0))

module _ (hash_func : List ℕ → ℕ) (port_num kv_num memory : ℕ) where
  -- A run that finds no file, and draws numbers of at most 64 bits, leaves the bytes of these in the
  -- file: a run that finds them makes the same database, whatever it would have drawn, and leaves
  -- the same bytes.
  pub con_get_database_again :
      (draw other : ℕ → ℕ) (r : Made)
      → ((i : ℕ) → draw i < 2 ^ 64)
      → con_get_database hash_func port_num kv_num memory none draw ≡ ok r
      → con_get_database hash_func port_num kv_num memory (some r.file) other ≡ ok r
  unfolding con_get_database made
  con_get_database_again draw other r ranged e =
      let loaded = load_numbers kv_num none draw in
      let (s, e₁, e₂) =
        >>=-eq-ok (build hash_func port_num start_build loaded.0)
          (λ s. ok (made port_num memory loaded.1 s)) e in
      let same : made port_num memory loaded.1 s ≡ r = cc in
      let file = sym (ap (λ (m : Made). m.file) same) in
      ap (λ (f : List ℕ). con_get_database hash_func port_num kv_num memory (some f) other) file
      ∙ ap (λ p. build hash_func port_num start_build p.0 >>= λ s. ok (made port_num memory p.1 s))
          (load_again kv_num draw other ranged)
      ∙ e
