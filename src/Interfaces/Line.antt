-- ===== src/Interfaces/Line.antt =====
-- A connection in both directions at which the laws of the interfaces hold: what is written goes the
-- way of `Reference.Post`, and what is inbound is read in pieces.
use multiport_network.Base.{
  ℕ, suc, min, ◌≤◌, ◌<◌, ◌≡◌, refl, sym, ap, List, [], ◌∷◌, ◌++◌, arith, length, take, drop,
  length-take, take-append-drop,
}
use multiport_network.Interfaces.{
  ReadReply, got, failed, WriteReply, Os, OsLaws, Moves, Feeds, eagain,
}
use multiport_network.Interfaces.Reference.{Post, post_write, post_laws, post-Moves}

-- A read takes up to `pace` bytes and one.
pub record Line : Type 0 where
  pub post : Post
  pub inbound : List ℕ
  pub pace : ℕ

unfoldable pub read_from : List ℕ → Line → ℕ → ReadReply × Line
read_from [] l n = (failed eagain, l)
read_from (b ∷ bytes) l n = (
  got (take (min n (suc l.pace)) (b ∷ bytes)),
  record l { inbound = drop (min n (suc l.pace)) (b ∷ bytes) },
)

unfoldable pub line_read : Line → ℕ → ℕ → ReadReply × Line
unfolding read_from
line_read l fd n = read_from l.inbound l n

unfoldable pub line_write : Line → ℕ → List ℕ → WriteReply × Line
unfolding post_write
line_write l fd bytes =
    let (reply, p) = post_write l.post fd bytes in (reply, record l { post = p })

abbrev pub line_os : Os Line
line_os = record { read = line_read; write = line_write; event_del = λ l fd. l; close = λ l fd. l }

read_from_bound :
    (xs : List ℕ) (l : Line) (n : ℕ) (bytes : List ℕ)
    → (read_from xs l n).0 ≡ got bytes
    → length bytes ≤ n
unfolding read_from
read_from_bound [] l n bytes e = cc
read_from_bound (b ∷ xs) l n bytes e = ground (arith, length-take (min n (suc l.pace)) (b ∷ xs))

read_from_some :
    (xs : List ℕ) (l : Line) (n : ℕ)
    → xs ≡ l.inbound
    → 0 < n
    → 0 < length xs
    → (bytes : List ℕ) × ((read_from xs l n).0 ≡ got bytes)
      × (0 < length bytes)
      × (xs ≡ bytes ++ (read_from xs l n).1.inbound)
unfolding read_from
read_from_some [] l n e room some_in = absurd (omega arith)
read_from_some (b ∷ xs) l n e room some_in = (
  take (min n (suc l.pace)) (b ∷ xs),
  refl,
  omega (arith, length-take (min n (suc l.pace)) (b ∷ xs)),
  sym (take-append-drop (min n (suc l.pace)) (b ∷ xs)),
)

read_from_post : (xs : List ℕ) (l : Line) (n : ℕ) → (read_from xs l n).1.post ≡ l.post
unfolding read_from
read_from_post [] l n = refl
read_from_post (b ∷ xs) l n = refl

pub line_laws : OsLaws line_os
unfolding line_read line_write
line_laws = record {
  read_bound = λ l fd n bytes e. read_from_bound l.inbound l n bytes e;
  write_bound = λ l fd bytes. post_laws.write_bound l.post fd bytes;
}

pub line-Moves : Moves line_os (λ l. l.post.log) (λ l. l.post.refusals)
unfolding line_write
line-Moves = record {
  write_self = λ l fd bytes. post-Moves.write_self l.post fd bytes;
  write_other = λ l fd other bytes h. post-Moves.write_other l.post fd other bytes h;
  write_waits = λ l fd bytes some_bytes e. post-Moves.write_waits l.post fd bytes some_bytes e;
  write_moves = λ l fd bytes taken. post-Moves.write_moves l.post fd bytes taken;
}

pub line-Feeds : Feeds line_os (λ l fd. l.inbound) (λ l. l.post.log)
unfolding line_read line_write
line-Feeds = record {
  read_some = λ l fd n room some_in. read_from_some l.inbound l n refl room some_in;
  read_quiet = λ l fd n. ap (λ (p : Post). p.log fd) (read_from_post l.inbound l n);
  write_quiet = λ l fd bytes. refl;
}
