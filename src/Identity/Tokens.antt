-- ===== src/Identity/Tokens.antt =====
-- identity/tokens.py
use prison_policy_ai.Prelude.{ℕ, Bool, ◌&&◌, not, Text, leb, if◌then◌else◌, length, all}
use prison_policy_ai.Fault.{Result, ok, raised, value_error}
use prison_policy_ai.Identity.Crypto.{Crypto}
use prison_policy_ai.Identity.Normalization.{is_empty}

-- the class [\x21-\x7E], 16 to 256 times
unfoldable pub is_device_id : Text → Bool
is_device_id s = leb 16 (length s) && leb (length s) 256 && all (λ c. leb 0x21 c && leb c 0x7E) s

pub record OpaqueCredential : Type 0 where
  pub raw : Text
  pub digest : ℕ

module _ (crypto : Crypto) where
  unfoldable pub hash_token : Text → Result ℕ
  hash_token raw = if is_empty raw then raised value_error else ok (crypto.sha256 raw)

  -- the argument is what `secrets.token_urlsafe(32)` draws, which is never empty
  abbrev pub issue_credential : Text → OpaqueCredential
  issue_credential raw = record { raw = raw; digest = crypto.sha256 raw }

  unfoldable pub hash_device_id : Text → Text → Result ℕ
  hash_device_id device_id pepper =
      if not (is_device_id device_id)
      then raised value_error
      else if is_empty pepper
      then raised value_error
      else ok (crypto.hmac_sha256 pepper device_id)
