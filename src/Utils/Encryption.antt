-- ===== src/Utils/Encryption.antt =====
-- app/utils/encryption.py, over the libraries that it calls.
use migrate_app_backend.Base.{
  ℕ, suc, String, Option, none, some, Exception, Result, ok, raise, out_of_fuel, ◌==◌,
  if◌then◌else◌, ◌≡◌, refl,
}
use migrate_app_backend.Base.Effect.{ok-injective}
use migrate_app_backend.Base.Raise.{◌>>=◌}
use migrate_app_backend.Utils.Json.{Object}

-- `cryptography.fernet`, `base64.urlsafe_b64encode`, and `json` on flat dicts of texts and numbers.
-- `none` is `InvalidToken`, and `JSONDecodeError`. Encryption draws its randomness from `seed`.
pub record Crypto : Type 1 where
  pub Key : Type 0
  pub b64encode : String → String
  -- `Fernet(key)`, which raises `ValueError` for a key that is no encoding of 32 bytes
  pub fernet : String → Result Key
  pub encrypt : Key → (seed : ℕ) → String → String
  pub decrypt : Key → String → Option String
  pub dumps : Object → String
  pub loads : String → Option Object

-- What the libraries document: a token that a key made decrypts under it to the text it was made of,
-- and the credentials `o` load as they were dumped.
pub record IsFaithful (c : Crypto) (o : Object) : Type 0 where
  pub decrypt-encrypt :
      (k : c.Key) (seed : ℕ) (t : String) → c.decrypt k (c.encrypt k seed t) ≡ some t
  pub loads-dumps : c.loads (c.dumps o) ≡ some o

text_length : String → ℕ
text_length String.[] = 0
text_length (String.◌∷◌ c s) = suc (text_length s)

module _ (crypto : Crypto) (encryption_key : String) where
  -- `_get_fernet`
  unfoldable pub get_fernet : Result crypto.Key
  unfolding text_length
  get_fernet =
      crypto.fernet (
        if text_length encryption_key == 32
        then crypto.b64encode encryption_key
        else encryption_key)

  -- `encrypt_credentials`
  unfoldable pub encrypt_credentials : ℕ → Object → Result String
  encrypt_credentials seed o = get_fernet >>= λ k. ok (crypto.encrypt k seed (crypto.dumps o))

  unreadable : Exception
  unreadable = Exception.value_error "Failed to decrypt credentials"

  loaded : Option Object → Result Object
  unfolding unreadable
  loaded none = raise unreadable
  loaded (some o) = ok o

  decrypted : Option String → Result Object
  unfolding unreadable loaded
  decrypted none = raise unreadable
  decrypted (some t) = loaded (crypto.loads t)

  -- `decrypt_credentials`
  unfoldable pub decrypt_credentials : String → Result Object
  unfolding decrypted
  decrypt_credentials token = get_fernet >>= λ k. decrypted (crypto.decrypt k token)

  decrypt_with :
      (o : Object)
      → IsFaithful crypto o
      → (seed : ℕ) (token : String) (key : Result crypto.Key)
      → (key >>= λ k. ok (crypto.encrypt k seed (crypto.dumps o))) ≡ ok token
      → (key >>= λ k. decrypted (crypto.decrypt k token)) ≡ ok o
  unfolding decrypted loaded
  decrypt_with o h seed token (ok k) e =
      rw (← ok-injective e, h.decrypt-encrypt k seed (crypto.dumps o), h.loads-dumps) refl
  decrypt_with o h seed token (raise x) e = cc
  decrypt_with o h seed token out_of_fuel e = cc

  -- For a cipher that decrypts what it encrypted, and JSON that loads these credentials as it dumped them (`IsFaithful`):
  -- what `encrypt_credentials` returned, `decrypt_credentials` reads back as the same
  -- credentials, under the same key.
  pub decrypt-encrypt_credentials :
      (o : Object)
      → IsFaithful crypto o
      → (seed : ℕ) (token : String) → encrypt_credentials seed o ≡ ok token
      → decrypt_credentials token ≡ ok o
  unfolding encrypt_credentials decrypt_credentials
  decrypt-encrypt_credentials o h seed token e = decrypt_with o h seed token get_fernet e
