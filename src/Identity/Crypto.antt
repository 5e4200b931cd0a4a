-- ===== src/Identity/Crypto.antt =====
-- The digests that the identity services use, as a parameter of the model: SHA-256 and HMAC-SHA-256
-- of Python's hashlib and hmac, and the argon2 package behind identity/pins.py. A digest of 32 bytes
-- is the number that they spell.
use prison_policy_ai.Prelude.{ℕ, Text, Bool, true, ◌≡◌}

pub record Crypto : Type 0 where
  pub sha256 : Text → ℕ
  -- hmac.new(key, message, sha256).digest()
  pub hmac_sha256 : Text → Text → ℕ
  -- PasswordHasher.hash, with the random salt that it draws
  pub argon_hash : Text → Text → Text
  -- PasswordHasher.verify; a mismatch or a malformed hash, which raise, are `false`
  pub argon_verify : Text → Text → Bool
  pub argon_needs_rehash : Text → Bool

-- argon2's documented behaviour: a hash verifies the password that it was made of.
abbrev pub Verifies : Crypto → Type 0
Verifies c = (salt pin : Text) → c.argon_verify (c.argon_hash salt pin) pin ≡ true

-- What the random credentials rest on: two different raw tokens have different digests.
abbrev pub IsCollisionFree : Crypto → Type 0
IsCollisionFree c = (a b : Text) → c.sha256 a ≡ c.sha256 b → a ≡ b
