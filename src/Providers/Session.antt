-- ===== src/Providers/Session.antt =====
-- app/providers/base_provider.py: `__aenter__` and `__aexit__`, as `async with` calls them.
use migrate_app_backend.Base.Effect.{
  Act, pure, throw, caught, Caught, returned, raised, ◌>>=◌, ◌>>◌,
}
use migrate_app_backend.Migration.Value.{Python}
use migrate_app_backend.Providers.{Provider}

-- what a `try` block without a handler does with its outcome
abbrev pub uncaught : {S A : Type 0} → Caught A → Act S A
uncaught (returned a) = pure a
uncaught (raised e) = throw e

-- `async with provider: m`: the provider is connected, and disconnected however `m` ends
unfoldable pub opened : {P : Python} {S A : Type 0} → Provider P S → Act S A → Act S A
opened p m = do p.connect; outcome ← caught m; p.disconnect; uncaught outcome
