-- ===== src/Base/Buffers.antt =====
-- Byte buffers: the memory behind a `char *`, read by `slice` and written by `patch`.
use multiport_network.Base.{
  ℕ, ◌+◌, ◌-◌, ◌≤◌, ◌≡◌, refl, sym, ap, ◌∙◌, List, ◌++◌, append_assoc, append-nil, arith, length,
  take, drop, get_or, length-append, length-take, length-drop, take-append, drop-append, drop-drop,
  drop-take, take-take, take_split, take_all, drop_all,
}

-- `n` bytes from position `pos`.
abbrev pub slice : List ℕ → ℕ → ℕ → List ℕ
slice buf pos n = take n (drop pos buf)

-- memcpy of `bytes` to position `pos`. At the end of what has been written it extends the buffer.
unfoldable pub patch : List ℕ → ℕ → List ℕ → List ℕ
patch buf pos bytes = take pos buf ++ (bytes ++ drop (pos + length bytes) buf)

abbrev pub byte_at : List ℕ → ℕ → ℕ
byte_at buf i = get_or buf i 0

pub length-slice : (buf : List ℕ) (pos n : ℕ) → pos + n ≤ length buf → length (slice buf pos n) ≡ n
length-slice buf pos n h = omega (arith, length-take n (drop pos buf), length-drop pos buf)

pub length-patch :
    (buf : List ℕ) (pos : ℕ) (bytes : List ℕ)
    → pos + length bytes ≤ length buf
    → length (patch buf pos bytes) ≡ length buf
unfolding patch
length-patch buf pos bytes h = omega (
  arith,
  length-append (take pos buf) (bytes ++ drop (pos + length bytes) buf),
  length-append bytes (drop (pos + length bytes) buf),
  length-take pos buf,
  length-drop (pos + length bytes) buf,
)

-- What lies before the written range, and the range itself.
pub take-patch :
    (buf : List ℕ) (pos k : ℕ) (bytes : List ℕ)
    → pos ≤ length buf
    → k ≡ pos + length bytes
    → take k (patch buf pos bytes) ≡ take pos buf ++ bytes
unfolding patch
take-patch buf pos k bytes h e =
    ap (take k) (sym (append_assoc (take pos buf) bytes (drop (pos + length bytes) buf)))
    ∙ take-append k (take pos buf ++ bytes) (drop (pos + length bytes) buf)
        (omega (arith, length-append (take pos buf) bytes, length-take pos buf))

pub slice-patch :
    (buf : List ℕ) (pos : ℕ) (bytes : List ℕ)
    → pos ≤ length buf
    → slice (patch buf pos bytes) pos (length bytes) ≡ bytes
unfolding patch
slice-patch buf pos bytes h =
    ap (take (length bytes)) (
      drop-append pos (take pos buf) (bytes ++ drop (pos + length bytes) buf)
        (omega (arith, length-take pos buf)))
    ∙ take-append (length bytes) bytes (drop (pos + length bytes) buf) refl

-- A write at the end appends.
pub patch_end : (buf bytes : List ℕ) → patch buf (length buf) bytes ≡ buf ++ bytes
unfolding patch
patch_end buf bytes = rw (
  take_all (length buf) buf (omega arith),
  drop_all (length buf + length bytes) buf (omega arith),
  append-nil bytes,
)

-- Behind a prefix of known length: what is left of a window, and a part of it.
pub slice_rest :
    (buf xs ys : List ℕ) (pos n k : ℕ)
    → slice buf pos n ≡ xs ++ ys
    → k ≡ length xs
    → k ≤ n
    → slice buf (pos + k) (n - k) ≡ ys
slice_rest buf xs ys pos n k e l h =
    sym (ap (take (n - k)) (drop-drop pos k (pos + k) buf refl))
    ∙ sym (drop-take n k (n - k) (drop pos buf) (omega arith))
    ∙ ap (drop k) e
    ∙ drop-append k xs ys l

pub slice_start :
    (buf xs ys : List ℕ) (pos n k : ℕ)
    → slice buf pos n ≡ xs ++ ys
    → k ≡ length xs
    → k ≤ n
    → slice buf pos k ≡ xs
slice_start buf xs ys pos n k e l h =
    sym (take-take k n (drop pos buf) h) ∙ ap (take k) e ∙ take-append k xs ys l

-- Reading on behind what was written to the front.
pub slice-patch_front :
    (buf bytes : List ℕ) (n : ℕ)
    → slice (patch buf 0 bytes) 0 (length bytes + n) ≡ bytes ++ slice buf (length bytes) n
unfolding patch
slice-patch_front buf bytes n =
    take_split (length bytes + n) (length bytes) n (bytes ++ drop (0 + length bytes) buf) refl
    ∙ ap (λ xs. xs ++ take n (drop (length bytes) (bytes ++ drop (0 + length bytes) buf)))
        (take-append (length bytes) bytes (drop (0 + length bytes) buf) refl)
    ∙ ap (λ xs. bytes ++ take n xs)
        (drop-append (length bytes) bytes (drop (0 + length bytes) buf) refl
          ∙ ap (λ k. drop k buf) (omega arith))
