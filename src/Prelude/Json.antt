-- ===== src/Prelude/Json.antt =====
-- Values of `json.loads`, as the program inspects them with `isinstance` and `dict.get`.
use Prim.Native.String.{String}
use mathlib.Core.Bool.{Bool}
use mathlib.Core.Option.{Option, none, some}
use text.Mathlib.Text.{◌==◌ as str_eq}
use multiedge_relay_python.Prelude.Tests.{if◌then◌else◌}
use multiedge_relay_python.Prelude.Int.{ℤ}

mutual
  pub data Json : Type 0 where
    null : Json
    bool : Bool → Json
    int : ℤ → Json
    -- a number that is no int; no code here reads it
    real : String → Json
    str : String → Json
    arr : Items → Json
    obj : Fields → Json

  pub data Items : Type 0 where
    nil : Items
    item : Json → Items → Items

  pub data Fields : Type 0 where
    end : Fields
    field : String → Json → Fields → Fields

-- `d.get(key)`; a parsed object has each key once, so the first one is the one.
abbrev pub get_field : String → Fields → Option Json
get_field k end = none
get_field k (field j v rest) = if str_eq j k then some v else get_field k rest

-- `value.get(key) if isinstance(value, dict) else None`, with a missing key and `None` apart.
abbrev pub get_json : String → Json → Option Json
get_json k (obj fs) = get_field k fs
get_json k null = none
get_json k _ = none
