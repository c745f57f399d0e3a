-- ===== src/Exec/Outcome.antt =====
-- Code that changes no state: results in a row, the first error ends them.
use multiedge_relay_python.Prelude.{Bool, Option, none, refl, some, true, false, ◌≡◌}
use multiedge_relay_python.Exec.{Result, ok, raised, unfinished}
use multiedge_relay_python.Errors.{Error}

module _ {ℓ} {A B : Type ℓ} where
  infixl 5 ◌>>=◌ ◌>>◌
  -- Python's sequence of statements, of which each may raise.
  abbrev pub ◌>>=◌ : Result A → (A → Result B) → Result B
  first >>= next = elim first [
    | unfinished ↦ unfinished
    | raised e ↦ raised e
    | ok value ↦ next value
  ]

  abbrev pub ◌>>◌ : Result A → Result B → Result B
  first >> rest = first >>= λ done. rest

  -- Where the whole returns, its first part has returned and the rest goes on from its value.
  pub then_ok :
      (first : Result A) (next : A → Result B) {last : B}
      → (first >>= next) ≡ ok last
      → (value : A) × (first ≡ ok value) × (next value ≡ ok last)
  then_ok unfinished next returned = cc
  then_ok (raised e) next returned = cc
  then_ok (ok value) next returned = (value, refl, returned)

module _ {ℓ} {A : Type ℓ} where
  -- What is there, or an error.
  abbrev pub found : Option A → Error → Result A
  found (some value) missing = ok value
  found none missing = raised missing

  pub found_ok :
      (o : Option A) (missing : Error) {value : A} → found o missing ≡ ok value → o ≡ some value
  found_ok (some value) missing returned = cc
  found_ok none missing returned = cc

-- `if not condition: raise refusal`
abbrev pub demand : Bool → Error → Result (Unit {0})
demand condition refusal = elim condition [ true ↦ ok tt | false ↦ raised refusal ]

pub demand_ok :
    (condition : Bool) (refusal : Error) → demand condition refusal ≡ ok tt → condition ≡ true
demand_ok true refusal returned = refl
demand_ok false refusal returned = cc
