-- ===== src/Utils/Json.antt =====
-- The JSON objects that the program makes itself: flat dicts of texts, numbers, and lists of texts.
use migrate_app_backend.Base.Int.{ℤ}
use migrate_app_backend.Base.{String, Option, none, some, List}
use migrate_app_backend.Base.Dict.{Dict}

pub data Scalar : Type 0 where
  null : Scalar
  text : String → Scalar
  number : ℤ → Scalar
  texts : List String → Scalar

-- `dict[str, Any]`
abbrev pub Object : Type 0
Object = Dict Scalar

abbrev pub optional_text : Option String → Scalar
optional_text none = null
optional_text (some s) = text s
