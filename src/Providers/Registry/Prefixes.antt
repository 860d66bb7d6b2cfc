-- ===== src/Providers/Registry/Prefixes.antt =====
-- The start of a text, and `replace(old, new, 1)` for a text that starts with `old`.
use text.Mathlib.TextLemmas.{nil-append, cons-append}
use migrate_app_backend.Base.{
  ◌≡◌, refl, String, none, some, Bool, true, false, eq_refl, str_eq, arith, if◌then◌else◌, ap,
}
use migrate_app_backend.Base.Text.{◌<>◌}
use migrate_app_backend.Providers.Registry.{after_prefix, replace_first, or_rest}

-- Two texts differ at a place that both have.
abbrev pub differ : String → String → Bool
differ (String.◌∷◌ c p) (String.◌∷◌ d q) =
    let rest = differ p q in
    if str_eq (String.◌∷◌ c String.[]) (String.◌∷◌ d String.[]) then rest else true
differ _ _ = false

pub after_prefix-append : (p r : String) → after_prefix p (p <> r) ≡ some r
unfolding after_prefix
after_prefix-append String.[] r = ap some (nil-append r)
after_prefix-append (String.◌∷◌ c p) r =
    rw (cons-append c p r) (rw (eq_refl (String.◌∷◌ c String.[])) (after_prefix-append p r))

pub after_prefix-differ : (p q r : String) → differ p q ≡ true → after_prefix p (q <> r) ≡ none
unfolding after_prefix
after_prefix-differ String.[] q r h = cc
after_prefix-differ (String.◌∷◌ c p) String.[] r h = cc
after_prefix-differ (String.◌∷◌ c p) (String.◌∷◌ d q) r h =
    rw (cons-append d q r) (ground (arith, after_prefix-differ p q r))

pub replace_first_start :
    (old new s rest : String)
    → after_prefix old s ≡ some rest
    → replace_first old new s ≡ new <> rest
unfolding replace_first or_rest
replace_first_start old new String.[] rest h = rw h refl
replace_first_start old new (String.◌∷◌ c s) rest h = rw h refl
