-- ===== src/Connection/Outbox.antt =====
-- The replies of a batch as one sequence of bytes: `con_ret_buf` appends a packet to what is not
-- sent yet, and `send_batch` takes what `write` accepted off its front.
pub mod Flow
pub mod Queue
use multiport_network.Base.{
  ℕ, zero, suc, ◌+◌, ◌-◌, ◌≤◌, ◌<◌, ◌≡◌, refl, sym, ap, ◌∙◌, Bool, true, false, Option, none, some,
  List, [], ◌∷◌, ◌++◌, arith, length, length-append, append_assoc, append-nil, take, drop,
  length-drop, drop-drop, drop-append_le, drop_all, take_all, take-append-drop, inl, inr, ◌⊎◌, ltb,
  Bool-cases,
}
use mathlib.Core.Path.{subst}
use multiport_network.Base.Buffers.{slice, patch, patch_end}
use multiport_network.Interfaces.{Os, OsLaws}
use multiport_network.Protocol.{u16, head_len}
use multiport_network.Connection.{Conn, BatchBuf, Outcome, ok, fault, batch_buf_size}
use multiport_network.Connection.Parse.{new_batchbuf}
use multiport_network.Connection.Reply.{
  back, set_back, packet, packet_len, packed, reserve, append_packet, batch_reply, con_ret_buf,
  count_miss, answer,
}
use multiport_network.Connection.Batch.{flush_front, wrote_batch, write_failed, buf_sent}
use multiport_network.Connection.Service.Answers.{length-packet}

-- `datalen` bytes were written and `offset` of them sent, within the allocation.
pub record IsFilled (b : BatchBuf) : Type 0 where
  pub held : length b.buf ≡ b.datalen
  pub sent : b.offset ≤ b.datalen
  pub fits : b.datalen ≤ batch_buf_size

abbrev pub AllFilled : List BatchBuf → Type 0
AllFilled [] = Unit {0}
AllFilled (b ∷ bs) = IsFilled b × AllFilled bs

-- The bytes of a batch that are still to be sent, oldest first.
abbrev pub unsent : List BatchBuf → List ℕ
unsent [] = []
unsent (b ∷ bs) = drop b.offset b.buf ++ unsent bs

pub unsent-append : (xs ys : List BatchBuf) → unsent (xs ++ ys) ≡ unsent xs ++ unsent ys
unsent-append [] ys = refl
unsent-append (b ∷ bs) ys =
    ap (◌++◌ (drop b.offset b.buf)) (unsent-append bs ys)
    ∙ sym (append_assoc (drop b.offset b.buf) (unsent bs) (unsent ys))

pub AllFilled-append : (xs ys : List BatchBuf) → AllFilled xs → AllFilled ys → AllFilled (xs ++ ys)
AllFilled-append [] ys hx hy = hy
AllFilled-append (b ∷ bs) ys hx hy = (hx.0, AllFilled-append bs ys hx.1 hy)

pub back-append : (bufs : List BatchBuf) (b : BatchBuf) → back (bufs ++ b ∷ []) ≡ some b
unfolding back
back-append [] b = refl
back-append (x ∷ []) b = refl
back-append (x ∷ y ∷ bs) b = back-append (y ∷ bs) b

pub back-none : (bufs : List BatchBuf) → back bufs ≡ none → length bufs ≡ 0
unfolding back
back-none [] e = refl
back-none (x ∷ []) e = cc
back-none (x ∷ y ∷ bs) e = absurd (omega (arith, back-none (y ∷ bs) e))

packed-IsFilled :
    (c : Conn) (b : BatchBuf)
    → IsFilled b
    → b.datalen + packet_len c ≤ batch_buf_size
    → IsFilled (packed c b)
unfolding packed
packed-IsFilled c b f room = record {
  held =
      ap (λ n. length (patch b.buf n (packet c))) (sym f.held)
      ∙ ap length (patch_end b.buf (packet c))
      ∙ omega (arith, f.held, length-append b.buf (packet c), length-packet c);
  sent = omega (arith, f.sent);
  fits = room;
}

packed-unsent :
    (c : Conn) (b : BatchBuf)
    → IsFilled b
    → drop (packed c b).offset (packed c b).buf ≡ drop b.offset b.buf ++ packet c
unfolding packed
packed-unsent c b f =
    ap (λ n. drop b.offset (patch b.buf n (packet c))) (sym f.held)
    ∙ ap (drop b.offset) (patch_end b.buf (packet c))
    ∙ drop-append_le b.offset b.buf (packet c) (omega (arith, f.sent, f.held))

-- The last buffer changes in place.
set_back-unsent :
    (bufs : List BatchBuf) (b x : BatchBuf) (bytes : List ℕ)
    → back bufs ≡ some b
    → drop x.offset x.buf ≡ drop b.offset b.buf ++ bytes
    → unsent (set_back bufs x) ≡ unsent bufs ++ bytes
unfolding back set_back
set_back-unsent [] b x bytes e d = cc
set_back-unsent (y ∷ []) b x bytes e d =
    let same : y ≡ b = ground (arith, e) in
    append-nil (drop x.offset x.buf)
    ∙ d
    ∙ ap (λ (z : BatchBuf). drop z.offset z.buf ++ bytes) (sym same)
    ∙ ap (λ xs. xs ++ bytes) (sym (append-nil (drop y.offset y.buf)))
set_back-unsent (y ∷ z ∷ bs) b x bytes e d =
    ap (◌++◌ (drop y.offset y.buf)) (set_back-unsent (z ∷ bs) b x bytes e d)
    ∙ sym (append_assoc (drop y.offset y.buf) (unsent (z ∷ bs)) bytes)

set_back-AllFilled :
    (bufs : List BatchBuf) (x : BatchBuf)
    → AllFilled bufs
    → IsFilled x
    → AllFilled (set_back bufs x)
unfolding set_back
set_back-AllFilled [] x h f = tt
set_back-AllFilled (y ∷ []) x h f = (f, tt)
set_back-AllFilled (y ∷ z ∷ bs) x h f = (h.0, set_back-AllFilled (z ∷ bs) x h.1 f)

pub back-IsFilled :
    (bufs : List BatchBuf) (b : BatchBuf) → AllFilled bufs → back bufs ≡ some b → IsFilled b
unfolding back
back-IsFilled [] b h e = cc
back-IsFilled (y ∷ []) b h e = let same : y ≡ b = ground (arith, e) in subst IsFilled same h.0
back-IsFilled (y ∷ z ∷ bs) b h e = back-IsFilled (z ∷ bs) b h.1 e

pub reserve-unsent : (c : Conn) (b : BatchBuf) → unsent (reserve c b) ≡ unsent c.batch_ret_vector
unfolding reserve
reserve-unsent c b = ground (
  arith,
  unsent-append c.batch_ret_vector (new_batchbuf ∷ []),
  append-nil (unsent c.batch_ret_vector),
)

pub reserve-AllFilled :
    (c : Conn) (b : BatchBuf) → AllFilled c.batch_ret_vector → AllFilled (reserve c b)
unfolding reserve
reserve-AllFilled c b h =
    ground (arith, AllFilled-append c.batch_ret_vector (new_batchbuf ∷ []) h (omega arith, tt))

-- What a reply does to the batch.
pub record Appends (c c' : Conn) : Type 0 where
  pub filled : AllFilled c'.batch_ret_vector
  pub added : unsent c'.batch_ret_vector ≡ unsent c.batch_ret_vector ++ packet c
  pub one_more : c'.batch_count ≡ u16 (c.batch_count + 1)

pub append_packet-Appends :
    (c c' : Conn) (bufs : List BatchBuf) (o : Option BatchBuf)
    → back bufs ≡ o
    → AllFilled bufs
    → unsent bufs ≡ unsent c.batch_ret_vector
    → append_packet c bufs o ≡ ok c'
    → Appends c c'
unfolding append_packet
append_packet-Appends c c' bufs none last h same e = cc
append_packet-Appends c c' bufs (some b) last h same e = ground (
  arith,
  set_back-AllFilled bufs (packed c b) h,
  packed-IsFilled c b (back-IsFilled bufs b h last),
  set_back-unsent bufs b (packed c b) (packet c) last
      (packed-unsent c b (back-IsFilled bufs b h last)),
)
