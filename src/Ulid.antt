-- ===== src/Ulid.antt =====
-- src/multiedge_relay/ulid.py: the generator of idempotency keys. A ULID is the list of its
-- characters' codes. The module's globals are a record; the clock and `secrets.randbits` are
-- arguments of each call. The lock makes a call one step.
pub mod Order
use multiedge_relay_python.Prelude.{
  ℕ, zero, suc, ◌+◌, ◌-◌, ◌*◌, ◌/◌, ◌%◌, ◌^◌, Bool, true, false, Option, none, some, List, [], ◌∷◌,
  ◌++◌, leb, ltb, ◌==◌, if◌then◌else◌,
}
use multiedge_relay_python.Errors.{overflow_error}
use multiedge_relay_python.Exec.{Result, Exec, ok, raised}

-- `CROCKFORD_ALPHABET[digit]`: the digits, then the letters without I, L, O and U.
unfoldable pub crockford : ℕ → ℕ
crockford digit =
    if ltb digit 10
    then b'0' + digit
    else if ltb digit 18
    then b'A' + (digit - 10)
    else if ltb digit 20
    then b'J' + (digit - 18)
    else if ltb digit 22
    then b'M' + (digit - 20)
    else if ltb digit 27
    then b'P' + (digit - 22)
    else b'V' + (digit - 27)

-- `"".join(reversed(chars))`: the characters appended first stand last.
unfoldable pub encode : ℕ → ℕ → List ℕ
encode value zero = []
encode value (suc length) = encode (value / 32) length ++ crockford (value % 32) ∷ []

abbrev pub max_random : ℕ
max_random = 2 ^ 80 - 1

-- `_last_ms`, where `none` is its initial -1, and `_last_random`.
pub record Ulids : Type 0 where
  pub last_ms : Option ℕ
  pub last_random : ℕ

abbrev pub fresh_ulids : Ulids
fresh_ulids = record { last_ms = none; last_random = 0 }

-- `now_ms == _last_ms`
abbrev pub same_ms : Option ℕ → ℕ → Bool
same_ms none now_ms = false
same_ms (some last) now_ms = now_ms == last

abbrev pub render : ℕ → ℕ → List ℕ
render ms random = encode ms 10 ++ encode random 16

-- `secrets.randbits(80) & ~0xFFFF` clears the low 16 bits of the draw.
unfoldable pub new_ulid : ℕ → ℕ → Exec Ulids (List ℕ)
new_ulid now_ms bits s =
    if same_ms s.last_ms now_ms
    then (if leb max_random s.last_random
        then (raised overflow_error, s)
        else (ok (render now_ms (s.last_random + 1)), record s { last_random = s.last_random + 1 }))
    else (
      ok (render now_ms (bits / 65536 * 65536)),
      record { last_ms = some now_ms; last_random = bits / 65536 * 65536 },
    )
