-- ===== src/Server/Auth/Secrets.antt =====
-- crates/fixer-server/src/auth/password.rs and token.rs, and the secrets of session.rs. SHA-256,
-- base64 and Argon2 are parameters; the random bytes of a call are an argument, `none` if the system
-- has none.
use fixer.Common.{
  ℕ, Bool, false, not, ◌||◌, Option, none, some, List, ◌∷◌, ◌++◌, is_empty, ltb, ◌==◌, list_eq,
  nat_eq,
}
use fixer.Std.Text.{Text, text, len}
use fixer.Std.Result.{Result, ok, err, ◌>>=◌, ◌>>◌, ensure}
use fixer.Jobs.Store.{
  StoreError, secret, PasswordError, invalid_password_length, invalid_hash, hashing_failed,
}

pub record Crypto : Type 0 where
  -- Sha256::digest
  pub sha256 : Text → List ℕ
  -- URL_SAFE_NO_PAD.encode
  pub encode : List ℕ → Text
  -- Argon2::default().hash_password with the salt of some bytes
  pub hash_with : Text → List ℕ → Option Text
  -- The algorithm that PasswordHash::new reads.
  pub algorithm : Text → Option Text
  -- Argon2::default().verify_password, of a hash that can be read
  pub verifies : Text → Text → Bool

abbrev pub digest : Crypto → Text → List ℕ
digest crypto secret' = crypto.sha256 secret'

unfoldable pub issue_secret : Crypto → Option (List ℕ) → Text → Result StoreError Text
issue_secret crypto none prefix = err secret
issue_secret crypto (some bytes) prefix = ok (prefix ++ crypto.encode bytes)

abbrev pub derive_secret : Crypto → Text → Text → Text → Text
derive_secret crypto prefix context secret' =
    prefix ++ crypto.encode (crypto.sha256 (context ++ 0 ∷ secret'))

abbrev pub csrf_token_for_session : Crypto → Text → Text
csrf_token_for_session crypto token =
    derive_secret crypto (text "fixer_csrf_") (text "fixer/csrf/v1") token

abbrev pub validate_password : Text → Result PasswordError (Unit {0})
validate_password password =
    ensure (not (is_empty password || ltb 1024 (len password))) invalid_password_length

abbrev pub readable : Option Text → Bool
readable none = false
readable (some algorithm) = algorithm == text "argon2id"

-- PasswordHashValue::parse
unfoldable pub parse_hash : Crypto → Text → Result PasswordError Text
parse_hash crypto value = do ensure (readable (crypto.algorithm value)) invalid_hash; ok value

abbrev hashed_or_failed : {A : Type 0} → Option A → Result PasswordError A
hashed_or_failed none = err hashing_failed
hashed_or_failed (some hashed) = ok hashed

unfoldable pub hash_password : Crypto → Option (List ℕ) → Text → Result PasswordError Text
unfolding parse_hash
hash_password crypto random password = do
  validate_password password
  salt ← hashed_or_failed random
  encoded ← hashed_or_failed (crypto.hash_with password salt)
  parse_hash crypto encoded

abbrev pub known_hash : {A : Type 0} → Option A → Result PasswordError (Unit {0})
known_hash none = err invalid_hash
known_hash (some _) = ok tt

unfoldable pub verify_password : Crypto → Text → Text → Result PasswordError Bool
verify_password crypto password encoded = do
  validate_password password
  known_hash (crypto.algorithm encoded)
  ok (crypto.verifies password encoded)
