-- ===== src/Rbac.antt =====
-- Roles and permissions: app/auth/rbac.py.
use laa_inquests_api.Prelude.{
  ◌≡◌, refl, ◌↔◌, Bool, true, false, not, ◌&&◌, ◌||◌, none, some, List, [], ◌∷◌, ◌++◌, String, any,
  all, Check, ok, err, ◌⊎◌, raise_if, arith, inl, inr,
}
use text.Mathlib.Text.{◌==◌}
use text.Mathlib.TextEquality.{eq_iff}
use laa_inquests_api.Events.{lookup}

pub data Permission : Type 0 where
  application_create application_read application_manage application_search : Permission
  claim_create claim_read claim_manage claim_delete : Permission
  case_note_create history_read certificate_read provider_offices_read : Permission
  reports_audit_trail_read reports_costs_read reports_payment_read
        reports_application_workflow_read :
      Permission
  reports_claim_workflow_read : Permission

pub data Role : Type 0 where
  provider_application_user provider_claims_user applications_caseworker claims_caseworker : Role
  customer_service_agent assurance application_workflow_reporting claim_workflow_reporting : Role
  policy finance : Role

-- `Permission(...).value`
abbrev permission_value : Permission → String
permission_value application_create = "application:create"
permission_value application_read = "application:read"
permission_value application_manage = "application:manage"
permission_value application_search = "application:search"
permission_value claim_create = "claim:create"
permission_value claim_read = "claim:read"
permission_value claim_manage = "claim:manage"
permission_value claim_delete = "claim:delete"
permission_value case_note_create = "case-note:create"
permission_value history_read = "history:read"
permission_value certificate_read = "certificate:read"
permission_value provider_offices_read = "provider-offices:read"
permission_value reports_audit_trail_read = "reports-audit-trail:read"
permission_value reports_costs_read = "reports-costs:read"
permission_value reports_payment_read = "reports-payment:read"
permission_value reports_application_workflow_read = "reports-application-workflow:read"
permission_value reports_claim_workflow_read = "reports-claim-workflow:read"

-- The roles by their values.
abbrev roles_by_value : List (String × Role)
roles_by_value =
    ("Inquests - Provider Application User", provider_application_user)
    ∷ ("Inquests - Provider Claims User", provider_claims_user)
    ∷ ("Inquests - Applications caseworker", applications_caseworker)
    ∷ ("Inquests - Claims caseworker", claims_caseworker)
    ∷ ("Inquests - Customer service agent", customer_service_agent)
    ∷ ("Inquests - Assurance", assurance)
    ∷ ("Inquests - Application workflow reporting", application_workflow_reporting)
    ∷ ("Inquests - Claim workflow reporting", claim_workflow_reporting)
    ∷ ("Inquests - Policy", policy)
    ∷ ("Inquests - Finance", finance)
    ∷ []

-- `ROLE_PERMISSIONS_MAP`
unfoldable pub role_permissions : Role → List Permission
role_permissions provider_application_user = application_create ∷ provider_offices_read ∷ []
role_permissions provider_claims_user =
    application_search ∷ claim_create ∷ claim_delete ∷ claim_read ∷ provider_offices_read ∷ []
role_permissions applications_caseworker =
    application_read ∷ application_manage ∷ certificate_read ∷ history_read ∷ case_note_create ∷ []
role_permissions claims_caseworker =
    application_read ∷ claim_read ∷ claim_manage ∷ certificate_read ∷ history_read
    ∷ case_note_create ∷ []
role_permissions customer_service_agent =
    application_read ∷ claim_read ∷ certificate_read ∷ case_note_create ∷ history_read ∷ []
role_permissions assurance =
    application_read ∷ claim_read ∷ certificate_read ∷ case_note_create ∷ history_read
    ∷ reports_audit_trail_read ∷ reports_payment_read ∷ reports_application_workflow_read
    ∷ reports_claim_workflow_read ∷ []
role_permissions application_workflow_reporting = reports_application_workflow_read ∷ []
role_permissions claim_workflow_reporting = reports_claim_workflow_read ∷ []
role_permissions policy = reports_costs_read ∷ []
role_permissions finance =
    reports_costs_read ∷ reports_payment_read ∷ reports_application_workflow_read
    ∷ reports_claim_workflow_read ∷ []

-- `ROLE_PERMISSIONS_MAP.get(role, set())`
unfoldable pub permissions_of : String → List Permission
unfolding role_permissions lookup
permissions_of role = elim (lookup role roles_by_value) [ none ↦ [] | some r ↦ role_permissions r ]

-- The set as the list of its members, with repetitions.
unfoldable pub get_current_user_permissions : List String → List Permission
get_current_user_permissions [] = []
get_current_user_permissions (role ∷ roles) =
    permissions_of role ++ get_current_user_permissions roles

-- `permission in permissions`
abbrev pub is_among : List Permission → Permission → Bool
is_among permissions p =
    any (λ (q : Permission). permission_value p == permission_value q) permissions

-- `HTTPException`, of status 403
pub data HttpException : Type 0 where
  forbidden : HttpException

-- `PermissionChecker.__call__`
unfoldable pub permission_checker : List Permission → List Permission → Check HttpException
permission_checker possible_permissions permissions =
    raise_if (not (any (is_among permissions) possible_permissions)) forbidden

-- Whether the role gives one of the permissions.
unfoldable pub admits : List Permission → String → Bool
admits possible_permissions role = any (is_among (permissions_of role)) possible_permissions

any-append {ℓ} :
    {A : Type ℓ} (p : A → Bool) (xs ys : List A) → any p (xs ++ ys) ≡ (any p xs || any p ys)
any-append p [] ys = refl
any-append p (x ∷ xs) ys = ground (arith, any-append p xs ys)

any_among-append :
    (ps qs rs : List Permission)
    → any (is_among (ps ++ qs)) rs ≡ (any (is_among ps) rs || any (is_among qs) rs)
any_among-append ps qs [] = refl
any_among-append ps qs (r ∷ rs) = ground (
  arith,
  any-append (λ (q : Permission). permission_value r == permission_value q) ps qs,
  any_among-append ps qs rs,
)

any_among_none : (rs : List Permission) → any (is_among []) rs ≡ false
any_among_none [] = refl
any_among_none (r ∷ rs) = any_among_none rs

admitted :
    (possible : List Permission) (roles : List String)
    → any (is_among (get_current_user_permissions roles)) possible ≡ any (admits possible) roles
unfolding get_current_user_permissions admits
admitted possible [] = any_among_none possible
admitted possible (role ∷ roles) = ground (
  arith,
  any_among-append (permissions_of role) (get_current_user_permissions roles) possible,
  admitted possible roles,
)

-- A user passes a check exactly when one of the user's roles by itself gives one of the
-- permissions that the check asks for.
pub permission_checker_iff :
    (possible : List Permission) (roles : List String)
    → (permission_checker possible (get_current_user_permissions roles) ≡ ok tt)
      ↔ (any (admits possible) roles ≡ true)
unfolding permission_checker
permission_checker_iff possible roles = ground (arith, admitted possible roles)

-- What the two roles of providers are for: applications and claims of their own, and their offices.
abbrev pub provider_permissions : List Permission
provider_permissions =
    application_create ∷ application_search ∷ claim_create ∷ claim_read ∷ claim_delete
    ∷ provider_offices_read ∷ []

abbrev pub is_provider_role : String → Bool
is_provider_role role =
    (role == "Inquests - Provider Application User") || (role == "Inquests - Provider Claims User")

either_true : (a b : Bool) → (a || b) ≡ true → (a ≡ true) ⊎ (b ≡ true)
either_true a b h = ground arith

both_true : (a b : Bool) → (a && b) ≡ true → (a ≡ true) × (b ≡ true)
both_true a b h = ground arith

both_false : (a b : Bool) → (a || b) ≡ false → (a ≡ false) × (b ≡ false)
both_false a b h = ground arith

-- Each permission of a provider's role is one of those.
provider_role_gives :
    (role : String) (p : Permission)
    → is_provider_role role ≡ true
    → is_among provider_permissions p ≡ false
    → is_among (permissions_of role) p ≡ false
unfolding permissions_of
provider_role_gives role p h n = elim (either_true _ _ h) [
  | inl e ↦ rw ((eq_iff role "Inquests - Provider Application User").0 e) (application_user p n)
  | inr e ↦ rw ((eq_iff role "Inquests - Provider Claims User").0 e) (claims_user p n)
]
  where
    application_user :
        (p : Permission)
        → is_among provider_permissions p ≡ false
        → is_among (role_permissions provider_application_user) p ≡ false
    application_user p n = ground arith

    claims_user :
        (p : Permission)
        → is_among provider_permissions p ≡ false
        → is_among (role_permissions provider_claims_user) p ≡ false
    claims_user p n = ground arith

provider_role_admits :
    (possible : List Permission) (role : String)
    → is_provider_role role ≡ true
    → any (is_among provider_permissions) possible ≡ false
    → admits possible role ≡ false
unfolding admits
provider_role_admits [] role h n = refl
provider_role_admits (p ∷ ps) role h n =
    let (first, rest) = both_false _ _ n in
    rw (provider_role_gives role p h first) (provider_role_admits ps role h rest)

none_admits :
    (possible : List Permission) (roles : List String)
    → all is_provider_role roles ≡ true
    → any (is_among provider_permissions) possible ≡ false
    → any (admits possible) roles ≡ false
none_admits possible [] h n = refl
none_admits possible (role ∷ roles) h n =
    let (first, rest) = both_true _ _ h in
    rw (provider_role_admits possible role first n) (none_admits possible roles rest n)

-- A user who has only provider roles is forbidden whatever asks for none of the six permissions to
-- create and search applications, to create, read and delete claims, and to read the offices of a
-- provider, whichever other permissions it asks for.
pub providers_forbidden :
    (possible : List Permission) (roles : List String)
    → all is_provider_role roles ≡ true
    → any (is_among provider_permissions) possible ≡ false
    → permission_checker possible (get_current_user_permissions roles) ≡ err forbidden
unfolding permission_checker
providers_forbidden possible roles h n =
    ground (arith, admitted possible roles, none_admits possible roles h n)
