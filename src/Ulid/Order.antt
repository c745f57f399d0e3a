-- ===== src/Ulid/Order.antt =====
-- ULIDs compare as the numbers that they encode, so later ones sort after earlier ones.
use native.Mathlib.Nat.{pow-suc}
use multiedge_relay_python.Prelude.{
  ℕ, zero, suc, ◌/◌, ◌%◌, ◌^◌, ◌≤◌, ◌<◌, ◌≡◌, ◌⊎◌, inl, inr, refl, some, List, [], ◌∷◌, ◌++◌, arith,
  length, length-append, Bool-cases, ◌==◌,
}
use multiedge_relay_python.Exec.{ok}
use multiedge_relay_python.Ulid.{Ulids, crockford, encode, max_random, new_ulid, render}

-- Python's `<` on two strings of one length, by code points.
abbrev pub LexLt : List ℕ → List ℕ → Type 0
LexLt [] [] = ⊥
LexLt [] (y ∷ ys) = ⊥
LexLt (x ∷ xs) [] = ⊥
LexLt (x ∷ xs) (y ∷ ys) = (x < y) ⊎ ((x ≡ y) × LexLt xs ys)

LexLt-append : (xs ys us vs : List ℕ) → LexLt xs ys → LexLt (xs ++ us) (ys ++ vs)
LexLt-append [] [] us vs h = absurd h
LexLt-append [] (y ∷ ys) us vs h = absurd h
LexLt-append (x ∷ xs) [] us vs h = absurd h
LexLt-append (x ∷ xs) (y ∷ ys) us vs (inl h) = inl h
LexLt-append (x ∷ xs) (y ∷ ys) us vs (inr (e, h)) = inr (e, LexLt-append xs ys us vs h)

LexLt-append_same : (xs us vs : List ℕ) → LexLt us vs → LexLt (xs ++ us) (xs ++ vs)
LexLt-append_same [] us vs h = h
LexLt-append_same (x ∷ xs) us vs h = inr (refl, LexLt-append_same xs us vs h)

crockford_mono : (a b : ℕ) → a < b → b < 32 → crockford a < crockford b
unfolding crockford
crockford_mono a b h k = ground arith

-- Every encoding has the length asked for.
pub length-encode : (value n : ℕ) → length (encode value n) ≡ n
unfolding encode
length-encode value zero = refl
length-encode value (suc n) = omega (
  arith,
  length-append (encode (value / 32) n) (crockford (value % 32) ∷ []),
  length-encode (value / 32) n,
)

-- The encodings of two numbers that fit in `n` characters compare as the numbers do.
pub encode_mono : (a b n : ℕ) → a < b → b < 32 ^ n → LexLt (encode a n) (encode b n)
unfolding encode
encode_mono a b zero h k = absurd (omega arith)
encode_mono a b (suc n) h k = elim (Bool-cases (a / 32 == b / 32)) [
  | inl same ↦
      let e : a / 32 ≡ b / 32 = ground arith in
      rw e (
        LexLt-append_same (encode (b / 32) n) _ _
          (inl (crockford_mono (a % 32) (b % 32) (omega arith) (omega arith))))
  | inr differ ↦
      LexLt-append (encode (a / 32) n) (encode (b / 32) n) _ _
        (encode_mono (a / 32) (b / 32) n (ground arith) (omega (arith, pow-suc 32 n)))
]

-- What a ULID state keeps: the random part fits in 80 bits.
abbrev pub IsUlids : Ulids → Type 0
IsUlids s = s.last_random ≤ max_random

abbrev RenderLater : (m r m' r' : ℕ) → Type 0
RenderLater m r m' r' = (m < m') ⊎ ((m ≡ m') × (r < r'))

render_mono :
    (m r m' r' : ℕ)
    → RenderLater m r m' r'
    → m' < 32 ^ 10
    → r' < 32 ^ 16
    → LexLt (render m r) (render m' r')
render_mono m r m' r' (inl h) fits fits' =
    LexLt-append (encode m 10) (encode m' 10) _ _ (encode_mono m m' 10 h fits)
render_mono m r m' r' (inr (e, h)) fits fits' =
    rw e (LexLt-append_same (encode m' 10) _ _ (encode_mono r r' 16 h fits'))

-- What a successful call leaves: the ULID that it returned is the state's own two parts.
new_ulid-state :
    (now bits : ℕ) (s : Ulids) {u : List ℕ}
    → bits < 2 ^ 80
    → IsUlids s
    → (new_ulid now bits s).0 ≡ ok u
    → let s' = (new_ulid now bits s).1 in
      (s'.last_ms ≡ some now) × (u ≡ render now s'.last_random) × IsUlids s'
unfolding new_ulid
new_ulid-state now bits (s) small v h = ground arith

-- After a ULID at `now`, a call at `later` returns one whose parts come later.
new_ulid-later :
    (now later bits : ℕ) (s : Ulids) {u : List ℕ}
    → s.last_ms ≡ some now
    → now ≤ later
    → (new_ulid later bits s).0 ≡ ok u
    → RenderLater now s.last_random later (new_ulid later bits s).1.last_random
unfolding new_ulid
new_ulid-later now later bits s e order h = ground arith

-- Two calls in a row, the clock not stepping back: the second ULID sorts after the first.
pub new_ulid_increases :
    (now later bits bits' : ℕ) (s : Ulids) {u u' : List ℕ}
    → IsUlids s
    → bits < 2 ^ 80
    → bits' < 2 ^ 80
    → now ≤ later
    → later < 2 ^ 48
    → (new_ulid now bits s).0 ≡ ok u
    → (new_ulid later bits' (new_ulid now bits s).1).0 ≡ ok u'
    → LexLt u u'
new_ulid_increases now later bits bits' s v small small' order fits h h' =
    let (last, shown, kept) = new_ulid-state now bits s small v h in
    let s' = (new_ulid now bits s).1 in
    let (_, shown', kept') = new_ulid-state later bits' s' small' kept h' in
    rw (shown, shown')
      (render_mono now s'.last_random later (new_ulid later bits' s').1.last_random
        (new_ulid-later now later bits' s' last order h') (omega arith) (omega arith))
