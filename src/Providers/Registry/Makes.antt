-- ===== src/Providers/Registry/Makes.antt =====
-- app/providers/__init__.py: `get_provider` comes back, with a provider that the drivers make.
use migrate_app_backend.Base.{
  String, Option, none, some, Bool, true, false, List, [], ◌∷◌, Result, ok, out_of_fuel, ◌≡◌, ◌≢◌,
  if◌then◌else◌,
}
use mathlib.Core.Path.{subst}
use migrate_app_backend.Base.Raise.{>>=-ne, >>=-eq-ok}
use migrate_app_backend.Base.Dict.{lookup}
use migrate_app_backend.Base.Effect.{ok-injective}
use migrate_app_backend.Core.Constants.{DatabaseType}
use migrate_app_backend.Migration.Value.{Python}
use migrate_app_backend.Providers.{Provider}
use migrate_app_backend.Providers.Registry.{
  Drivers, MysqlParams, key_of, required, dsn_from, build_dsn, int_of, params_from,
  parse_credentials, make_provider, database_types, type_among, database_type_of, get_provider,
}
use migrate_app_backend.Utils.Json.{Scalar, Object}

if_ends :
    {A : Type 0} (b : Bool) (r r' : Result A)
    → r ≢ out_of_fuel
    → r' ≢ out_of_fuel
    → (if b then r else r') ≢ out_of_fuel
if_ends true r r' h k = h
if_ends false r r' h k = k

ok_ends : {A : Type 0} (a : A) → ok a ≢ out_of_fuel
ok_ends a p = cc

type_among_ends : (s : String) (ts : List DatabaseType) → type_among s ts ≢ out_of_fuel
unfolding type_among
type_among_ends s [] = λ p. cc
type_among_ends s (t ∷ ts) = if_ends _ (ok t) (type_among s ts) (ok_ends t) (type_among_ends s ts)

key_of_ends : (name : String) (x : Option Scalar) → key_of name x ≢ out_of_fuel
key_of_ends name none = λ p. cc
key_of_ends name (some x) = λ p. cc

required_ends : (name : String) (o : Object) → required name o ≢ out_of_fuel
required_ends name o = key_of_ends name (lookup name o)

dsn_from_ends : (o : Object) (url : Option String) → dsn_from o url ≢ out_of_fuel
unfolding dsn_from
dsn_from_ends o (some url) = λ p. cc
dsn_from_ends o none = >>=-ne (required "username" o) _ (required_ends "username" o) λ a.
    >>=-ne (required "password" o) _ (required_ends "password" o) λ b.
      >>=-ne (required "host" o) _ (required_ends "host" o)
        λ c. >>=-ne (required "database" o) _ (required_ends "database" o) λ d p. cc

module _ {P : Python} {W : Type 0} (drivers : Drivers P W) where
  -- the library calls on credentials come back
  pub record IsReading : Type 0 where
    pub urlparse : (t : String) → drivers.urlparse t ≢ out_of_fuel
    pub int_of_text : (t : String) → drivers.int_of_text t ≢ out_of_fuel

  module _ (h : IsReading) where
    int_of_ends : (s : Scalar) → int_of drivers s ≢ out_of_fuel
    unfolding int_of
    int_of_ends Scalar.null = λ p. cc
    int_of_ends (Scalar.text t) = h.int_of_text t
    int_of_ends (Scalar.number n) = λ p. cc
    int_of_ends (Scalar.texts ts) = λ p. cc

    params_from_ends : (o : Object) (url : Option String) → params_from drivers o url ≢ out_of_fuel
    unfolding params_from
    params_from_ends o (some url) = >>=-ne (drivers.urlparse url) _ (h.urlparse url) λ r p. cc
    params_from_ends o none = >>=-ne (int_of drivers _) _ (int_of_ends _) λ n. ok_ends _

    make_provider_ends : (t : DatabaseType) (o : Object) → make_provider drivers t o ≢ out_of_fuel
    unfolding make_provider build_dsn parse_credentials
    make_provider_ends DatabaseType.postgres o =
        >>=-ne (build_dsn o) _ (dsn_from_ends o _) λ dsn p. cc
    make_provider_ends DatabaseType.mysql o =
        >>=-ne (parse_credentials drivers o) _ (params_from_ends o _) λ params p. cc
    make_provider_ends DatabaseType.sqlite o = λ p. cc
    make_provider_ends DatabaseType.mssql o = λ p. cc
    make_provider_ends DatabaseType.mongodb o = λ p. cc
    make_provider_ends DatabaseType.oracle o = λ p. cc
    make_provider_ends DatabaseType.mariadb o = λ p. cc

    pub get_provider_ends : (kind : String) (o : Object) → get_provider drivers kind o ≢ out_of_fuel
    unfolding get_provider database_type_of
    get_provider_ends kind o =
        >>=-ne (database_type_of kind) _ (type_among_ends kind database_types)
          λ t. make_provider_ends t o

  module _ (Q : Provider P W → Type 0) (postgres : (dsn : String) → Q (drivers.postgres dsn))
      (mysql : (params : MysqlParams) → Q (drivers.mysql params))
      (sqlite : (path : Scalar) → Q (drivers.sqlite path)) where
    make_provider_made :
        (t : DatabaseType) (o : Object) (p : Provider P W) → make_provider drivers t o ≡ ok p → Q p
    unfolding make_provider
    make_provider_made DatabaseType.postgres o p e =
        let (dsn, e', same) = >>=-eq-ok (build_dsn o) _ e in
        subst Q (ok-injective same) (postgres dsn)
    make_provider_made DatabaseType.mysql o p e =
        let (params, e', same) = >>=-eq-ok (parse_credentials drivers o) _ e in
        subst Q (ok-injective same) (mysql params)
    make_provider_made DatabaseType.sqlite o p e = subst Q (ok-injective e) (sqlite _)
    make_provider_made DatabaseType.mssql o p e = absurd cc
    make_provider_made DatabaseType.mongodb o p e = absurd cc
    make_provider_made DatabaseType.oracle o p e = absurd cc
    make_provider_made DatabaseType.mariadb o p e = absurd cc

    -- What holds of every provider that the drivers make holds of the one that was got.
    pub get_provider_made :
        (kind : String) (o : Object) (p : Provider P W) → get_provider drivers kind o ≡ ok p → Q p
    unfolding get_provider
    get_provider_made kind o p e =
        let (t, e', e'') = >>=-eq-ok (database_type_of kind) _ e in make_provider_made t o p e''
