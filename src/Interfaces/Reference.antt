-- ===== src/Interfaces/Reference.antt =====
-- A socket that is fed from a list of replies and collects what is written, and a hash table as an
-- association list: concrete values at which the laws of the interfaces hold.
use multiport_network.Base.{
  ℕ, zero, suc, min, ◌≤◌, ◌<◌, ◌≡◌, refl, sym, ap, ◌∙◌, ◌≢◌, append-nil, Bool, true, false, ◌&&◌,
  Option, none, some, List, [], ◌∷◌, ◌++◌, arith, length, take, length-take, ◌==◌, if◌then◌else◌,
}
use multiport_network.Interfaces.{
  ReadReply, got, failed, WriteReply, Os, OsLaws, HashTable, HashTableLaws, Sockets, Moves, eagain,
}

-- `window` is the number of bytes that one `write` takes; `closed` lists the closed descriptors.
pub record Wire : Type 0 where
  pub inbound : List ReadReply
  pub window : ℕ
  pub sent : List ℕ
  pub closed : List ℕ

clip : ℕ → ReadReply → ReadReply
clip n (got bytes) = got (take n bytes)
clip n (failed e) = failed e

next_reply : List ReadReply → ReadReply
next_reply [] = failed eagain
next_reply (r ∷ rs) = r

later_replies : List ReadReply → List ReadReply
later_replies [] = []
later_replies (r ∷ rs) = rs

unfoldable pub wire_read : Wire → ℕ → ℕ → ReadReply × Wire
unfolding clip next_reply later_replies
wire_read w fd n = (clip n (next_reply w.inbound), record w { inbound = later_replies w.inbound })

unfoldable pub wire_write : Wire → ℕ → List ℕ → WriteReply × Wire
wire_write w fd bytes = (
  record { count = min w.window (length bytes); errno = eagain },
  record w { sent = w.sent ++ take w.window bytes },
)

abbrev pub wire_os : Os Wire
wire_os = record {
  read = wire_read;
  write = wire_write;
  event_del = λ w fd. w;
  close = λ w fd. record w { closed = fd ∷ w.closed };
}

clip_bound : (n : ℕ) (r : ReadReply) (bytes : List ℕ) → clip n r ≡ got bytes → length bytes ≤ n
unfolding clip
clip_bound n (got xs) bytes e = ground (arith, length-take n xs)
clip_bound n (failed x) bytes e = cc

pub wire_laws : OsLaws wire_os
unfolding wire_read wire_write
wire_laws = record {
  read_bound = λ w fd n bytes e. clip_bound n (next_reply w.inbound) bytes e;
  write_bound = λ w fd bytes. omega arith;
}

unfoldable pub bytes_eq : List ℕ → List ℕ → Bool
bytes_eq [] [] = true
bytes_eq (x ∷ xs) (y ∷ ys) = x == y && bytes_eq xs ys
bytes_eq _ _ = false

pub bytes_eq_refl : (k : List ℕ) → bytes_eq k k ≡ true
unfolding bytes_eq
bytes_eq_refl [] = refl
bytes_eq_refl (x ∷ xs) = ground (arith, bytes_eq_refl xs)

pub bytes_eq_sound : (j k : List ℕ) → bytes_eq j k ≡ true → j ≡ k
unfolding bytes_eq
bytes_eq_sound [] [] h = refl
bytes_eq_sound [] (y ∷ ys) h = cc
bytes_eq_sound (x ∷ xs) [] h = cc
bytes_eq_sound (x ∷ xs) (y ∷ ys) h = ground (arith, bytes_eq_sound xs ys)

abbrev pub Assoc : Type 0
Assoc = List (List ℕ × List ℕ)

assoc_find : Assoc → List ℕ → Option (List ℕ)
assoc_find [] k = none
assoc_find ((j, v) ∷ m) k = if bytes_eq j k then some v else assoc_find m k

unfoldable pub assoc_table_find : Assoc → List ℕ → Option (List ℕ)
unfolding bytes_eq assoc_find
assoc_table_find m k = assoc_find m k

abbrev pub assoc_table : HashTable Assoc
assoc_table = record { insert_or_assign = λ m k v. (k, v) ∷ m; find = assoc_table_find }

find_other : (m : Assoc) (k j v : List ℕ) → k ≢ j → assoc_find ((k, v) ∷ m) j ≡ assoc_find m j
unfolding assoc_find
find_other m k j v h = ground (arith, bytes_eq_sound k j)

pub assoc_laws : HashTableLaws assoc_table
unfolding assoc_table_find
assoc_laws = record {
  find-insert_self = λ m k v. rw (bytes_eq_refl k);
  find-insert_ne = find_other;
}

-- Sockets that take all they are handed onto one tape, and from which nothing is read.
abbrev pub tape_sockets : Sockets (List ℕ)
tape_sockets = record {
  write = λ net fd bytes. (some (length bytes), net ++ bytes);
  read = λ net fd n. (some [], net);
}

-- Connections that refuse `refusals` times for want of room and then take up to `window` bytes and
-- one at a time; `log` is what was sent on each.
pub record Post : Type 0 where
  pub log : ℕ → List ℕ
  pub refusals : ℕ
  pub window : ℕ

unfoldable pub post_after : Post → ℕ → ℕ → List ℕ → WriteReply × Post
post_after p (suc later) fd bytes =
    (record { count = 0; errno = eagain }, record p { refusals = later })
post_after p zero fd bytes = (
  record { count = min (suc p.window) (length bytes); errno = eagain },
  record p {
    log = λ other. if other == fd then p.log fd ++ take (suc p.window) bytes else p.log other;
  },
)

unfoldable pub post_write : Post → ℕ → List ℕ → WriteReply × Post
unfolding post_after
post_write p fd bytes = post_after p p.refusals fd bytes

abbrev pub post_os : Os Post
post_os = record {
  read = λ p fd n. (failed eagain, p);
  write = post_write;
  event_del = λ p fd. p;
  close = λ p fd. p;
}

take-min : (n : ℕ) (xs : List ℕ) → take n xs ≡ take (min n (length xs)) xs
take-min zero [] = refl
take-min zero (x ∷ xs) =
    ap (λ k. take k (x ∷ xs)) {x = 0} {y = min 0 (suc (length xs))} (omega arith)
take-min (suc n) [] = ap (λ k. take {A = ℕ} k []) {x = 0} {y = min (suc n) 0} (omega arith)
take-min (suc n) (x ∷ xs) =
    ap (◌∷◌ x) (take-min n xs)
    ∙ ap (λ k. take k (x ∷ xs)) {x = suc (min n (length xs))} {y = min (suc n) (suc (length xs))}
        (omega arith)

on_itself : (fd : ℕ) (xs ys : List ℕ) → (if fd == fd then xs else ys) ≡ xs
on_itself fd xs ys = ground arith

post_after-Moves :
    (p : Post) (r fd : ℕ) (bytes : List ℕ)
    → p.refusals ≡ r
    → ((post_after p r fd bytes).0.count ≤ length bytes)
      × ((post_after p r fd bytes).1.log fd
          ≡ p.log fd ++ take (post_after p r fd bytes).0.count bytes)
      × ((other : ℕ) → other ≢ fd → (post_after p r fd bytes).1.log other ≡ p.log other)
      × (0 < length bytes
          → (post_after p r fd bytes).0.count ≡ 0
          → ((post_after p r fd bytes).0.errno ≡ eagain)
            × ((post_after p r fd bytes).1.refusals < p.refusals))
      × ((post_after p r fd bytes).1.refusals ≤ p.refusals)
unfolding post_after
post_after-Moves p zero fd bytes e = (
  omega arith,
  on_itself fd (p.log fd ++ take (suc p.window) bytes) (p.log fd)
      ∙ ap (◌++◌ (p.log fd)) (take-min (suc p.window) bytes),
  λ other h. ground arith,
  λ some_bytes none_taken. absurd (omega arith),
  omega arith,
)
post_after-Moves p (suc later) fd bytes e = (
  omega arith,
  sym (append-nil (p.log fd)),
  λ other h. refl,
  λ some_bytes none_taken. (refl, omega arith),
  omega arith,
)

pub post_laws : OsLaws post_os
unfolding post_write
post_laws = record {
  read_bound = λ p fd n bytes e. cc;
  write_bound = λ p fd bytes. (post_after-Moves p p.refusals fd bytes refl).0;
}

pub post-Moves : Moves post_os (λ p. p.log) (λ p. p.refusals)
unfolding post_write
post-Moves = record {
  write_self = λ p fd bytes. (post_after-Moves p p.refusals fd bytes refl).1;
  write_other = λ p fd other bytes h. (post_after-Moves p p.refusals fd bytes refl).2 other h;
  write_waits =
      λ p fd bytes some_bytes e. (post_after-Moves p p.refusals fd bytes refl).3 some_bytes e;
  write_moves = λ p fd bytes taken. (post_after-Moves p p.refusals fd bytes refl).4;
}
