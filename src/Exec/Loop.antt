-- ===== src/Exec/Loop.antt =====
-- Loops of the program: a step that stops with a result or goes on, run on fuel, with the rule for
-- invariants and the rule that a falling measure ends the loop by one of its own stops.
use multiedge_relay_python.Prelude.{ℕ, zero, suc, ◌<◌, arith, refl, ◌≡◌}
use multiedge_relay_python.Exec.{Result, Exec, unfinished}

pub data Next {ℓ} (S A : Type ℓ) : Type ℓ where
  stop : Result A → S → Next S A
  again : S → Next S A

module _ {ℓ} {S A : Type ℓ} where
  abbrev pub advance : Exec S A → Next S A → Result A × S
  advance go (stop r s) = (r, s)
  advance go (again s) = go s

  unfoldable pub loop : (S → Next S A) → ℕ → Exec S A
  loop step zero s = (unfinished, s)
  loop step (suc fuel) s = advance (loop step fuel) (step s)

  pub loop-suc :
      (step : S → Next S A) (fuel : ℕ) (s : S)
      → loop step (suc fuel) s ≡ advance (loop step fuel) (step s)
  unfolding loop
  loop-suc step fuel s = refl

  -- What a step leads to: `P` again, or an end in `Q`.
  abbrev pub Leads {κ} : (S → Type κ) → (Result A → S → Type κ) → Next S A → Type κ
  Leads P Q (stop r s) = Q r s
  Leads P Q (again s) = P s

module _ {ℓ κ} {S A : Type ℓ} (P : S → Type κ) (Q : Result A → S → Type κ) where
  follow :
      (go : Exec S A) (n : Next S A)
      → ((s : S) → P s → Q (go s).0 (go s).1)
      → Leads P Q n
      → Q (advance go n).0 (advance go n).1
  follow go (stop r s) rest q = q
  follow go (again s) rest p = rest s p

  -- What each round keeps holds where the loop ends, also where its fuel runs out.
  pub loop_rule :
      (step : S → Next S A)
      → ((s : S) → P s → Leads P Q (step s))
      → ((s : S) → P s → Q unfinished s)
      → (fuel : ℕ) (s : S) → P s
      → Q (loop step fuel s).0 (loop step fuel s).1
  unfolding loop
  loop_rule step keeps dry zero s h = dry s h
  loop_rule step keeps dry (suc fuel) s h =
      follow (loop step fuel) (step s) (loop_rule step keeps dry fuel) (keeps s h)

module _ {ℓ κ} {S A : Type ℓ} (measure : S → ℕ) (P : S → Type κ) (Q : Result A → S → Type κ) where
  total_follow :
      (go : Exec S A) (n : Next S A) (m k : ℕ)
      → m < suc k
      → ((s : S) → measure s < k → P s → Q (go s).0 (go s).1)
      → Leads (λ s. P s × (measure s < m)) Q n
      → Q (advance go n).0 (advance go n).1
  total_follow go (stop r s) m k small rest q = q
  total_follow go (again s) m k small rest p = rest s (omega arith) p.0

  -- With a falling measure below the fuel, the loop ends by a stop of its own.
  pub loop_total :
      (step : S → Next S A)
      → ((s : S) → P s → Leads (λ t. P t × (measure t < measure s)) Q (step s))
      → (fuel : ℕ) (s : S) → measure s < fuel
      → P s
      → Q (loop step fuel s).0 (loop step fuel s).1
  unfolding loop
  loop_total step falls zero s m h = elim m [ ]
  loop_total step falls (suc fuel) s m h =
      total_follow (loop step fuel) (step s) (measure s) fuel m (loop_total step falls fuel)
        (falls s h)
