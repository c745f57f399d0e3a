-- ===== src/Subscriber/Backlog.antt =====
-- The relay's log as a subscriber reads it: the signals after a position, and pages of them.
use multiedge_relay_python.Prelude.{
  ℕ, Bool-cases, List, [], ap, false, if◌then◌else◌, inl, inr, length, ltb, ltb→lt, lt→ltb, refl,
  suc, zero, ◌++◌, ◌<◌, ◌∷◌, ◌≡◌, ◌≤◌, arith, sym, ◌∙◌,
}
use multiedge_relay_python.Models.{ReceivedSignal}
use multiedge_relay_python.Subscriber.Delivery.{last_sequence}

-- Strictly increasing sequences, all after `p`.
abbrev pub Rising : ℕ → List ReceivedSignal → Type 0
Rising p [] = Unit
Rising p (r ∷ rs) = (p < r.sequence) × Rising r.sequence rs

unfoldable pub above : ℕ → List ReceivedSignal → List ReceivedSignal
above since [] = []
above since (r ∷ rs) = if ltb since r.sequence then r ∷ above since rs else above since rs

abbrev pub take {ℓ} : {A : Type ℓ} → ℕ → List A → List A
take zero xs = []
take (suc n) [] = []
take (suc n) (x ∷ xs) = x ∷ take n xs

pub Rising-weaken : {p q : ℕ} (xs : List ReceivedSignal) → q ≤ p → Rising p xs → Rising q xs
Rising-weaken [] h g = tt
Rising-weaken (r ∷ rs) h g = (omega (arith, h, g.0), g.1)

pub last_sequence_le : (p : ℕ) (xs : List ReceivedSignal) → Rising p xs → p ≤ last_sequence p xs
unfolding last_sequence
last_sequence_le p [] h = omega arith
last_sequence_le p (r ∷ rs) h = omega (arith, h.0, last_sequence_le r.sequence rs h.1)

pub take-Rising : (p n : ℕ) (xs : List ReceivedSignal) → Rising p xs → Rising p (take n xs)
take-Rising p zero xs h = tt
take-Rising p (suc n) [] h = tt
take-Rising p (suc n) (r ∷ rs) h = (h.0, take-Rising r.sequence n rs h.1)

above_all : (q p : ℕ) (xs : List ReceivedSignal) → q ≤ p → Rising p xs → above q xs ≡ xs
unfolding above
above_all q p [] h g = refl
above_all q p (r ∷ rs) h g =
    rw (lt→ltb q r.sequence (omega (arith, h, g.0)))
      (ap (λ ys. r ∷ ys) (above_all q r.sequence rs (omega (arith, h, g.0)) g.1))

pub above-Rising : (b p : ℕ) (xs : List ReceivedSignal) → Rising b xs → Rising p (above p xs)
unfolding above
above-Rising b p [] h = tt
above-Rising b p (r ∷ rs) h = elim (Bool-cases (ltb p r.sequence)) [
  | inl after ↦ rw after (
      rw (above_all p r.sequence rs (omega (arith, ltb→lt p r.sequence after)) h.1)
        (ltb→lt p r.sequence after, h.1))
  | inr before ↦ rw before (above-Rising r.sequence p rs h.1)
]

pub above-above : (p q : ℕ) (xs : List ReceivedSignal) → p ≤ q → above q (above p xs) ≡ above q xs
unfolding above
above-above p q [] h = refl
above-above p q (r ∷ rs) h = elim (Bool-cases (ltb p r.sequence)) [
  | inl after ↦ rw after (ap (λ ys. if ltb q r.sequence then r ∷ ys else ys) (above-above p q rs h))
  | inr before ↦
      rw before
        (let hidden : ltb q r.sequence ≡ false = ground arith in rw hidden (above-above p q rs h))
]

-- A page and what is after its last signal are the whole.
pub take-above :
    (p n : ℕ) (xs : List ReceivedSignal)
    → Rising p xs
    → take n xs ++ above (last_sequence p (take n xs)) xs ≡ xs
unfolding above last_sequence
take-above p zero xs h = above_all p p xs (omega arith) h
take-above p (suc n) [] h = refl
take-above p (suc n) (r ∷ rs) h =
    let last = last_sequence r.sequence (take n rs) in
    let reached = last_sequence_le r.sequence (take n rs) (take-Rising r.sequence n rs h.1) in
    let hidden : ltb last r.sequence ≡ false = ground (arith, reached) in
    ap (λ ys. r ∷ ys) (rw hidden (take-above r.sequence n rs h.1))

-- A page that is not full is all there is.
pub take_short : {A : Type 0} (n : ℕ) (xs : List A) → length (take n xs) < n → take n xs ≡ xs
take_short zero xs h = elim h [ ]
take_short (suc n) [] h = refl
take_short (suc n) (x ∷ xs) h = ap (λ ys. x ∷ ys) (take_short n xs (omega (arith, h)))

-- A page of the log after `p`, and the log after that page, are the log after `p`.
pub page-above :
    (b p n : ℕ) (log : List ReceivedSignal)
    → Rising b log
    → take n (above p log) ++ above (last_sequence p (take n (above p log))) log ≡ above p log
page-above b p n log h =
    let after = above p log in
    let rises = above-Rising b p log h in
    let later = last_sequence_le p (take n after) (take-Rising p n after rises) in
    ap (λ ys. take n after ++ ys) (sym (above-above p (last_sequence p (take n after)) log later))
    ∙ take-above p n after rises

pub page_rest :
    (b p n q : ℕ) (log rows : List ReceivedSignal)
    → Rising b log
    → rows ≡ take n (above p log)
    → q ≡ last_sequence p rows
    → rows ++ above q log ≡ above p log
page_rest b p n q log rows h e moved =
    ap (λ x. rows ++ above x log) moved
    ∙ ap (λ xs. xs ++ above (last_sequence p xs) log) e
    ∙ page-above b p n log h
