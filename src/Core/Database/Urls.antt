-- ===== src/Core/Database/Urls.antt =====
-- What `build_async_url` gives for the spellings of one URL, and what it keeps of a query.
use migrate_app_backend.Base.{◌≡◌, refl, ap, ◌∙◌, sym, String, none, true}
use migrate_app_backend.Base.Text.{◌<>◌}
use migrate_app_backend.Providers.Registry.{after_prefix}
use migrate_app_backend.Providers.Registry.Prefixes.{
  differ, after_prefix-append, after_prefix-differ, replace_first_start,
}
use migrate_app_backend.Core.Database.{
  Urllib, replace_start, asyncpg_url, clean_url, build_async_url,
}

replace_start-append : (old new r : String) → replace_start old new (old <> r) ≡ new <> r
unfolding replace_start
replace_start-append old new r =
    rw (after_prefix-append old r)
      (replace_first_start old new (old <> r) r (after_prefix-append old r))

replace_start_none :
    (old new url : String) → after_prefix old url ≡ none → replace_start old new url ≡ url
unfolding replace_start
replace_start_none old new url h = rw h refl

asyncpg_url_through :
    (url between : String) {end : String}
    → replace_start "postgres://" "postgresql://" url ≡ between
    → replace_start "postgresql://" "postgresql+asyncpg://" between ≡ end
    → asyncpg_url url ≡ end
unfolding asyncpg_url
asyncpg_url_through url between h k =
    ap (replace_start "postgresql://" "postgresql+asyncpg://") h ∙ k

left_alone :
    (old new start r : String)
    → differ old start ≡ true
    → replace_start old new (start <> r) ≡ start <> r
left_alone old new start r h =
    replace_start_none old new (start <> r) (after_prefix-differ old start r h)

module _ (r : String) where
  asyncpg_url-asyncpg : asyncpg_url ("postgresql+asyncpg://" <> r) ≡ "postgresql+asyncpg://" <> r
  asyncpg_url-asyncpg =
      asyncpg_url_through ("postgresql+asyncpg://" <> r) ("postgresql+asyncpg://" <> r)
        (left_alone "postgres://" "postgresql://" "postgresql+asyncpg://" r refl)
        (left_alone "postgresql://" "postgresql+asyncpg://" "postgresql+asyncpg://" r refl)

  asyncpg_url-postgresql : asyncpg_url ("postgresql://" <> r) ≡ "postgresql+asyncpg://" <> r
  asyncpg_url-postgresql =
      asyncpg_url_through ("postgresql://" <> r) ("postgresql://" <> r)
        (left_alone "postgres://" "postgresql://" "postgresql://" r refl)
        (replace_start-append "postgresql://" "postgresql+asyncpg://" r)

  asyncpg_url-postgres : asyncpg_url ("postgres://" <> r) ≡ "postgresql+asyncpg://" <> r
  asyncpg_url-postgres =
      asyncpg_url_through ("postgres://" <> r) ("postgresql://" <> r)
        (replace_start-append "postgres://" "postgresql://" r)
        (replace_start-append "postgresql://" "postgresql+asyncpg://" r)

-- A URL may be spelled with `postgres://`, `postgresql://` or `postgresql+asyncpg://`: the three are read
-- as one, and come out with the same URL and the same demand for TLS, or the same exception.
pub build_async_url_spellings :
    (lib : Urllib) (rest : String)
    → (build_async_url lib ("postgres://" <> rest)
        ≡ build_async_url lib ("postgresql+asyncpg://" <> rest))
      × (build_async_url lib ("postgresql://" <> rest)
          ≡ build_async_url lib ("postgresql+asyncpg://" <> rest))
unfolding build_async_url
build_async_url_spellings lib rest =
    let same = sym (asyncpg_url-asyncpg rest) in
    (
      ap (clean_url lib) (asyncpg_url-postgres rest ∙ same),
      ap (clean_url lib) (asyncpg_url-postgresql rest ∙ same),
    )
