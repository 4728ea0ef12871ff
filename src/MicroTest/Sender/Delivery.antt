-- ===== src/MicroTest/Sender/Delivery.antt =====
-- A run of packages on one connection of micro_test/Connection.h, over a socket that takes all.
use mathlib.Core.Path.{subst₂, ap₂}
use multiport_network.Base.{
  ℕ, ◌≡◌, sym, ap, ◌∙◌, Bool, true, false, some, List, [], ◌∷◌, ◌++◌, append_assoc, append-nil,
  arith, length,
}
use multiport_network.Interfaces.{Sockets}
use multiport_network.Connection.{Outcome, ok, exits, fault, ◌>>=◌}
use multiport_network.MicroTest.{package_len}
use multiport_network.MicroTest.Sender.{Sender, flush, fetch_and_send, clean, send_all}
use multiport_network.MicroTest.Sender.Flow.{
  IsSender, gathered, Flushes, Fetches, flush-Flushes, fetch_and_send-Fetches,
}

-- A socket that takes all it is handed, with a log of it.
pub record IsReliable {Net : Type 0} (so : Sockets Net) (log : Net → ℕ → List ℕ) : Type 0 where
  pub takes :
      (net : Net) (fd : ℕ) (bytes : List ℕ) → (so.write net fd bytes).0 ≡ some (length bytes)
  pub logs :
      (net : Net) (fd : ℕ) (bytes : List ℕ) → log (so.write net fd bytes).1 fd ≡ log net fd ++ bytes

abbrev pub concat : List (List ℕ) → List ℕ
concat [] = []
concat (p ∷ ps) = p ++ concat ps

abbrev pub AllPackages : List (List ℕ) → Type 0
AllPackages [] = Unit {0}
AllPackages (p ∷ ps) = (length p ≡ package_len) × AllPackages ps

-- What a run returned, and what the peer has of it.
abbrev pub Delivers :
    {Net : Type 0} → (Net → ℕ → List ℕ) → ℕ → List ℕ → Outcome (Sender × Net) → Type 0
Delivers log fd bytes (ok (s, net)) = (log net fd ≡ bytes) × (gathered s ≡ []) × IsSender s
Delivers log fd bytes exits = ⊥
Delivers log fd bytes fault = ⊥

module _ {Net : Type 0} (so : Sockets Net) (log : Net → ℕ → List ℕ)
    (reliable : IsReliable so log) where
  Flushes-Delivers :
      (fd : ℕ) (bytes : List ℕ) (net : Net) (o : Outcome (Sender × Net))
      → Flushes so fd bytes net o
      → Delivers log fd (log net fd ++ bytes) o
  Flushes-Delivers fd bytes net (ok (s, net')) (w, g, v, f) =
      (ap (λ x. log x.1 fd) (sym w) ∙ reliable.logs net fd bytes, g, v)
  Flushes-Delivers fd bytes net exits h = absurd (h (reliable.takes net fd bytes))
  Flushes-Delivers fd bytes net fault h = absurd h

  sends_on :
      (s : Sender) (p : List ℕ) (net : Net) (bytes : List ℕ) (o : Outcome (Bool × Sender × Net))
      → Fetches so s p net o
      → (k : (s' : Sender) (net' : Net) → Outcome (Sender × Net))
      → ((s' : Sender) (net' : Net)
          → IsSender s'
          → s'.fd ≡ s.fd
          → log net' s.fd ++ gathered s' ≡ log net s.fd ++ (gathered s ++ p)
          → Delivers log s.fd bytes (k s' net'))
      → Delivers log s.fd bytes (o >>= λ r. k r.1 r.2)
  sends_on s p net bytes (ok (false, s', net')) (g, n, v, f, c) k h =
      h s' net' v f (ap₂ (λ x y. log x s.fd ++ y) n g)
  sends_on s p net bytes (ok (true, s', net')) (c, (w, g, v, f)) k h = h s' net' v f (
      ap₂ (λ x y. x ++ y)
        (ap (λ x. log x.1 s.fd) (sym w) ∙ reliable.logs net s.fd (gathered s ++ p)) g
      ∙ append-nil (log net s.fd ++ (gathered s ++ p)))
  sends_on s p net bytes exits (c, h') k h = absurd (h' (reliable.takes net s.fd (gathered s ++ p)))
  sends_on s p net bytes fault h' k h = absurd h'

  -- Over a socket that takes all it is handed, a run of packages of the fixed length and the
  -- `clean` behind them return, nothing of them stays behind, and the peer has received what was
  -- gathered before and the packages, in their order.
  pub send_all-Delivers :
      (ps : List (List ℕ)) (s : Sender) (net : Net)
      → IsSender s
      → AllPackages ps
      → Delivers log s.fd (log net s.fd ++ (gathered s ++ concat ps)) (send_all so s ps net)
  unfolding send_all clean
  send_all-Delivers [] s net v h = rw (append-nil (gathered s)) (
      Flushes-Delivers s.fd (gathered s) net (flush so s net)
        (flush-Flushes so s net v.held (omega (arith, v.packages, v.below))))
  send_all-Delivers (p ∷ ps) s net v (len, h) =
      sends_on s p net (log net s.fd ++ (gathered s ++ (p ++ concat ps)))
        (fetch_and_send so s p net) (fetch_and_send-Fetches so s p net v len)
        (λ s' net'. send_all so s' ps net')
        (λ s' net' v' f e.
          subst₂ (λ fd bytes. Delivers log fd bytes (send_all so s' ps net')) f
            (ap (λ fd. log net' fd ++ (gathered s' ++ concat ps)) f
              ∙ sym (append_assoc (log net' s.fd) (gathered s') (concat ps))
              ∙ ap (λ xs. xs ++ concat ps) e
              ∙ append_assoc (log net s.fd) (gathered s ++ p) (concat ps)
              ∙ ap (◌++◌ (log net s.fd)) (append_assoc (gathered s) p (concat ps)))
            (send_all-Delivers ps s' net' v' h))
