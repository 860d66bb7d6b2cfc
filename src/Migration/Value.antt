-- ===== src/Migration/Value.antt =====
-- The values of a row. Floats, JSON documents and all other objects are a driver's: they are types
-- of the parameter `Python`, with the two library calls that app/migration/mapper.py makes on them.
use migrate_app_backend.Base.{String, Option, none, some, Bool, Result}
use migrate_app_backend.Base.Int.{ℤ}
use migrate_app_backend.Base.Dict.{Dict}

pub record Python : Type 1 where
  pub Float : Type 0
  -- a dict or a list
  pub Json : Type 0
  pub Other : Type 0
  -- `int(x)`, which raises on infinities and NaN
  pub int_of_float : Float → Result ℤ
  -- `json.dumps(x, default=str)`
  pub dumps : Json → Result String

pub data Value (P : Python) : Type 0 where
  null : Value P
  bool : Bool → Value P
  int : ℤ → Value P
  float : P.Float → Value P
  str : String → Value P
  json : P.Json → Value P
  other : P.Other → Value P

abbrev pub Row : Python → Type 0
Row P = Dict (Value P)

-- `row.get(k)`
abbrev pub value_or_null : {P : Python} → Option (Value P) → Value P
value_or_null none = Value.null
value_or_null (some v) = v
