-- ===== src/Exec.antt =====
-- Methods that change a state and may raise. What was written before a raise stays written, so the
-- new state comes back with the error as well. `unfinished` is a loop whose fuel has run out.
pub mod Loop
pub mod Outcome
use multiedge_relay_python.Prelude.{
  Bool, true, false, not, Option, none, some, if◌then◌else◌, refl, ◌≡◌,
}
use multiedge_relay_python.Errors.{Error, is_publish_failed}

pub data Result {ℓ} (A : Type ℓ) : Type ℓ where
  ok : A → Result A
  raised : Error → Result A
  unfinished : Result A

abbrev pub Exec {ℓ} : Type ℓ → Type ℓ → Type ℓ
Exec S A = S → Result A × S

module _ {ℓ} {S A : Type ℓ} where
  abbrev pub pure : A → Exec S A
  pure a s = (ok a, s)

  abbrev pub raise : Error → Exec S A
  raise e s = (raised e, s)

  abbrev pub lift : Result A → Exec S A
  lift r s = (r, s)

  abbrev pub gets : (S → A) → Exec S A
  gets f s = (ok (f s), s)

  abbrev pub or_raise : Option A → Error → Exec S A
  or_raise none e = raise e
  or_raise (some a) e = pure a

abbrev pub modify {ℓ} : {S : Type ℓ} → (S → S) → Exec S (Unit {ℓ})
modify f s = (ok tt, f s)

infixl 5 ◌>>=◌ ◌>>◌
abbrev pub ◌>>=◌ {ℓ} : {S A B : Type ℓ} → Exec S A → (A → Exec S B) → Exec S B
◌>>=◌ m f s =
    let (r, s') = m s in
    elim r [ ok a ↦ f a s' | raised e ↦ (raised e, s') | unfinished ↦ (unfinished, s') ]

abbrev pub ◌>>◌ {ℓ} : {S A B : Type ℓ} → Exec S A → Exec S B → Exec S B
m >> k = m >>= λ _. k

-- A result that is there, and no `PublishFailed`.
abbrev pub mild {ℓ} : {A : Type ℓ} → Result A → Bool
mild (ok a) = true
mild (raised e) = not (is_publish_failed e)
mild unfinished = false

-- Inversion of a block that has succeeded: its first part has, and the rest goes on from there.
pub bind_ok {ℓ} :
    {S A B : Type ℓ} (r : Result A) (s s' : S) (f : A → Exec S B) {b : B}
    → (((λ (t : S). (r, s')) >>= f) s).0 ≡ ok b
    → (a : A) × (r ≡ ok a) × ((f a s').0 ≡ ok b) × ((((λ (t : S). (r, s')) >>= f) s).1 ≡ (f a s').1)
bind_ok (ok a) s s' f h = (a, refl, h, refl)
bind_ok (raised e) s s' f h = cc
bind_ok unfinished s s' f h = cc
