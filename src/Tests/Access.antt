-- ===== src/Tests/Access.antt =====
-- The theorems on roles, on references, on cells and on applications, at concrete data.
use laa_inquests_api.Prelude.{
  ℕ, String, List, is_empty, ◌≡◌, ◌↔◌, ◌⊎◌, refl, true, false, some, [], ◌∷◌, map, any, not, ◌&&◌,
  ok, err, arith,
}
use laa_inquests_api.Text.{Text, codes, occurs_in, upper, is_blank, trim, strip}
use laa_inquests_api.Enums.{duplicate_case}
use laa_inquests_api.Application.{Application}
use laa_inquests_api.Applications.Requests.{
  RefuseApplicationUpdate, Refusal, validate_refusal_fields, validate_refusal_fields_iff,
}
use laa_inquests_api.Applications.Duplicates.{is_duplicate, is_duplicate_sym, TrimsAlike}
use laa_inquests_api.AuditTrail.{csv_safe, csv_safe_lem, starts_formula}
use laa_inquests_api.Rbac.{
  permission_checker, get_current_user_permissions, admits, permission_checker_iff, claim_manage,
  claim_read, application_manage, history_read, Permission, providers_forbidden, forbidden,
  permissions_of,
}
use laa_inquests_api.ReferenceRules.{
  contains_banned_word, contains_banned_word_exact, allowed_characters,
}
use laa_inquests_api.Tests.Data.{case}

abbrev formula : Text
formula = codes "=1+1"

csv_safe_example :
    (starts_formula (csv_safe formula) ≡ false)
    × ((csv_safe formula ≡ formula)
        ⊎ ((csv_safe formula ≡ b'\'' ∷ formula) × (starts_formula formula ≡ true)))
    × (csv_safe (csv_safe formula) ≡ csv_safe formula)
csv_safe_example = csv_safe_lem formula

permission_checker_example :
    (permission_checker
        (claim_manage ∷ claim_read ∷ [])
        (get_current_user_permissions ("Inquests - Policy" ∷ "Inquests - Assurance" ∷ []))
      ≡ ok tt)
    ↔ (any
          (admits (claim_manage ∷ claim_read ∷ []))
          ("Inquests - Policy" ∷ "Inquests - Assurance" ∷ [])
        ≡ true)
permission_checker_example =
    permission_checker_iff (claim_manage ∷ claim_read ∷ [])
      ("Inquests - Policy" ∷ "Inquests - Assurance" ∷ [])

claims_caseworker_manages :
    permission_checker
      (claim_manage ∷ [])
      (get_current_user_permissions ("Inquests - Claims caseworker" ∷ []))
    ≡ ok tt
unfolding permission_checker get_current_user_permissions permissions_of
claims_caseworker_manages = refl

abbrev managing : List Permission
managing = application_manage ∷ history_read ∷ []

abbrev provider_roles : List String
provider_roles = "Inquests - Provider Claims User" ∷ "Inquests - Provider Application User" ∷ []

providers_forbidden_example :
    permission_checker managing (get_current_user_permissions provider_roles) ≡ err forbidden
providers_forbidden_example = providers_forbidden managing provider_roles refl refl

allowed_number : map (λ (c : ℕ). c) allowed_characters ≡ codes "ACEFHJKLMNPRTUVWXY3479"
unfolding allowed_characters
allowed_number = refl

-- A word of the list, in a reference from its Q on.
abbrev words : List Text
words = codes "hat" ∷ codes "obo" ∷ []

contains_banned_word_example :
    contains_banned_word words (b'Q' ∷ codes "CHAT47")
    ≡ any (λ w. not (is_empty w) && occurs_in w (b'Q' ∷ codes "CHAT47")) (map upper words)
contains_banned_word_example = contains_banned_word_exact words (codes "CHAT47") refl (omega arith)

contains_banned_word_run : contains_banned_word words (codes "INQCHAT47") ≡ true
unfolding contains_banned_word upper
contains_banned_word_run = refl

abbrev refusal : Refusal
refusal = record { reason_for_refusal = duplicate_case; justification = codes "Twice" }

abbrev refusing : RefuseApplicationUpdate
refusing = record { reason_for_refusal = some duplicate_case; justification = some (codes "Twice") }

validate_refusal_fields_example : (validate_refusal_fields refusing ≡ ok refusal) ↔ (
    (refusing.reason_for_refusal ≡ some refusal.reason_for_refusal)
    × (refusing.justification ≡ some refusal.justification)
    × (is_blank refusal.justification ≡ false))
validate_refusal_fields_example = validate_refusal_fields_iff refusing refusal

-- The application of a second relative of the deceased.
abbrev second : Application
second = record case {
  application_id = 6;
  deceased = record case.deceased { coroners_reference = []; deceased_first_name = codes " JOHN " };
}

case-TrimsAlike : TrimsAlike case.deceased
unfolding trim strip
case-TrimsAlike = (refl, refl)

second-TrimsAlike : TrimsAlike second.deceased
unfolding trim strip
second-TrimsAlike = (refl, refl)

is_duplicate_example : is_duplicate case second ≡ is_duplicate second case
is_duplicate_example = is_duplicate_sym case second case-TrimsAlike second-TrimsAlike

is_duplicate_run : is_duplicate case second ≡ true
unfolding is_duplicate trim strip
is_duplicate_run = refl
