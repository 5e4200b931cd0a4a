-- ===== src/Tests/Elevation.antt =====
-- Runs of identity/elevation.py.
use prison_policy_ai.Identity.Elevation.{step_up_row}
use prison_policy_ai.Identity.Tokens.{hash_token}
use prison_policy_ai.Identity.Normalization.{upper}
use prison_policy_ai.Prelude.{text_eq}
use prison_policy_ai.Prelude.{all}
use prison_policy_ai.Identity.Pins.{normalize_pin}
use prison_policy_ai.Identity.Pins.{verify_pin}
use prison_policy_ai.Identity.Elevation.{is_confirmed}
use prison_policy_ai.Identity.Elevation.{is_confirmation_purpose}
use prison_policy_ai.Prelude.{any}
use prison_policy_ai.Identity.Elevation.{is_step_up_purpose}
use prison_policy_ai.Prelude.{find}
use prison_policy_ai.Prelude.{ℕ, ◌≡◌, ◌<◌, ◌+◌, refl, some, Text, String, codes, true, minutes}
use prison_policy_ai.Fault.{ok, raised, step_up_required}
use prison_policy_ai.Identity.Models.{Role, Db, AdminStepUpToken}
use prison_policy_ai.Identity.Elevation.{
  Actor, StepUpDraw, ElevationResult, confirm_admin_pin, consume_step_up, by_token_hash,
  is_spendable,
}
use prison_policy_ai.Identity.Elevation.Tokens.{consume_step_up-once, consume-confirm}
use prison_policy_ai.Tests.Samples.{crypto, db}

abbrev pub actor : Actor
actor = record {
  account_id = 10;
  staff_member_id = 1;
  session_id = 100;
  role = Role.admin;
  auth_version = 1;
}

abbrev token : Text
token = codes "step0"

abbrev step_draw : StepUpDraw
step_draw = record { raw = token; token_id = 900 }

abbrev confirmed_db : Db
confirmed_db = (confirm_admin_pin crypto actor (codes "k7q2") "bulk_export" 7 "r" step_draw db).1

abbrev confirmation : ElevationResult
confirmation = record {
  elevation_expires_at = 7 + minutes 15;
  step_up_token = some token;
  step_up_expires_at = some (7 + minutes 5);
  purpose = "bulk_export";
}

consume-confirm_example :
    (confirmation.step_up_token ≡ some token)
    × ((t : ℕ)
        → t < 7 + minutes 5
        → (consume_step_up crypto actor token "bulk_export" t confirmed_db).0 ≡ ok tt)
unfolding confirm_admin_pin find is_step_up_purpose any is_confirmation_purpose is_confirmed
    verify_pin normalize_pin all text_eq upper
consume-confirm_example =
    consume-confirm crypto token actor (codes "k7q2") "bulk_export" 7 "r" 900 db confirmed_db
      confirmation (λ e. cc) refl refl refl

abbrev spent_db : Db
spent_db = (consume_step_up crypto actor token "bulk_export" 9 confirmed_db).1

consume_step_up-once_example :
    ((row : AdminStepUpToken) × (by_token_hash (crypto.sha256 token) confirmed_db ≡ some row)
      × (is_spendable row actor "bulk_export" 9 ≡ true))
    × ((actor' : Actor) (purpose' : String) (now' : ℕ)
        → consume_step_up crypto actor' token purpose' now' spent_db
          ≡ (raised step_up_required, spent_db))
unfolding consume_step_up confirm_admin_pin hash_token find is_confirmation_purpose
    is_step_up_purpose any is_confirmed verify_pin normalize_pin all text_eq upper step_up_row
consume_step_up-once_example =
    consume_step_up-once crypto token actor "bulk_export" 9 confirmed_db spent_db refl
