-- ===== src/Core/Database.antt =====
-- app/core/database.py: the URL of the application's own database.
pub mod Urls
use migrate_app_backend.Base.{
  String, Bool, true, false, ◌&&◌, ◌||◌, List, [], ◌∷◌, Result, ok, is_some, str_eq, if◌then◌else◌,
}
use migrate_app_backend.Base.Raise.{◌>>=◌}
use migrate_app_backend.Providers.Registry.{after_prefix, replace_first}

-- `urllib.parse`: the parts of a URL, their query, and the names and values of a query.
pub record Urllib : Type 1 where
  pub Parts : Type 0
  pub urlsplit : String → Result Parts
  pub query : Parts → String
  -- `parts._replace(query=…)`
  pub replace_query : String → Parts → Parts
  pub urlunsplit : Parts → String
  pub parse_qsl : String → Result (List (String × String))
  pub urlencode : List (String × String) → String

-- `if url.startswith(old): url = url.replace(old, new, 1)`
unfoldable pub replace_start : String → String → String → String
unfolding replace_first after_prefix
replace_start old new url =
    if is_some (after_prefix old url) then replace_first old new url else url

-- the driver in front
unfoldable pub asyncpg_url : String → String
unfolding replace_start
asyncpg_url url =
    replace_start "postgresql://" "postgresql+asyncpg://"
      (replace_start "postgres://" "postgresql://" url)

abbrev pub requires : String × String → Bool
requires (k, v) =
    str_eq k "sslmode" && (str_eq v "require" || str_eq v "verify-ca" || str_eq v "verify-full")

unfoldable pub requires_ssl : List (String × String) → Bool
requires_ssl [] = false
requires_ssl (p ∷ params) = requires p || requires_ssl params

-- `k in _LIBPQ_ONLY_PARAMS`
abbrev pub libpq_only : String → Bool
libpq_only k = str_eq k "sslmode" || str_eq k "channel_binding"

unfoldable pub kept : List (String × String) → List (String × String)
kept [] = []
kept ((k, v) ∷ params) = let rest = kept params in if libpq_only k then rest else (k, v) ∷ rest

module _ (lib : Urllib) where
  -- what follows of `build_async_url` once the driver is in front
  unfoldable pub clean_url : String → Result (String × Bool)
  unfolding requires_ssl kept
  clean_url url = lib.urlsplit url >>= λ parts. lib.parse_qsl (lib.query parts) >>= λ params.
      ok (
        lib.urlunsplit (lib.replace_query (lib.urlencode (kept params)) parts),
        requires_ssl params,
      )

  -- `build_async_url`: the URL, and whether `connect_args` is `{"ssl": True}` and not `{}`
  unfoldable pub build_async_url : String → Result (String × Bool)
  unfolding asyncpg_url clean_url
  build_async_url url = clean_url (asyncpg_url url)
