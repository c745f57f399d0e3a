-- ===== src/Tests/Base64.antt =====
-- A stand-in for base64: each number is written in unary.
use Prim.Native.Char.{code}
use Prim.Native.String.{String, [], ◌∷◌}
use mathlib.Core.List.{List, [] as nil, ◌∷◌ as ◌◂◌}
use mathlib.Core.Option.{Option, none, some}
use multiedge_relay_python.Prelude.{
  ℕ, zero, suc, ◌+◌, ◌==◌, if◌then◌else◌, arith, refl, ap, ◌∙◌, ◌≡◌,
}

abbrev tally : ℕ → String → String
tally zero t = "b" ∷ t
tally (suc n) t = "a" ∷ tally n t

abbrev pub encode : List ℕ → String
encode nil = []
encode (n ◂ ns) = tally n (encode ns)

abbrev front : ℕ → Option (List ℕ) → Option (List ℕ)
front n none = none
front n (some ns) = some (n ◂ ns)

abbrev read_from : ℕ → String → Option (List ℕ)
read_from n [] = if n == 0 then some nil else none
read_from n (c ∷ t) =
    let new = read_from 0 t in
    let more = read_from (suc n) t in if code c == 98 then front n new else more

abbrev pub decode : String → Option (List ℕ)
decode t = read_from 0 t

read_from-tally : (n m : ℕ) (t : String) → read_from n (tally m t) ≡ front (n + m) (read_from 0 t)
read_from-tally n zero t = ap (λ k. front k (read_from 0 t)) (omega arith)
read_from-tally n (suc m) t =
    read_from-tally (suc n) m t ∙ ap (λ k. front k (read_from 0 t)) (omega arith)

pub decode-encode : (ns : List ℕ) → decode (encode ns) ≡ some ns
decode-encode nil = refl
decode-encode (n ◂ ns) =
    read_from-tally 0 n (encode ns)
    ∙ ap (λ k. front k (read_from 0 (encode ns))) (omega arith)
    ∙ ap (front n) (decode-encode ns)
