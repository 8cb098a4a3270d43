-- ===== src/Applications/Duplicates.antt =====
-- Applications about the same death: `identify_duplicates` of
-- app/adapters/application_repository_adapter.py, apart from failures.
use laa_inquests_api.Prelude.{
  ℕ, ◌+◌, ◌≡◌, refl, Bool, true, false, not, ◌&&◌, List, [], ◌∷◌, map, select, arith, leb, ◌==◌,
  if◌then◌else◌, is_empty,
}
use laa_inquests_api.Text.{Text, eq_text, lower, strip, trim}
use laa_inquests_api.Enums.{MeritsDecision, submitted, refused, granted}
use laa_inquests_api.Application.{Application, Deceased}

abbrev pub duplicate_match_threshold : ℕ
duplicate_match_threshold = 2

-- `ELIGIBLE_DUPLICATE_STATUS`
abbrev pub is_eligible_duplicate : MeritsDecision → Bool
is_eligible_duplicate granted = true
is_eligible_duplicate refused = true
is_eligible_duplicate submitted = true

-- `case((test, 1), else_=0)`
abbrev one_if : Bool → ℕ
one_if true = 1
one_if false = 0

same_name : Deceased → Deceased → Bool
unfolding lower trim strip
same_name stored new =
    eq_text (lower (trim stored.deceased_first_name)) (lower (strip new.deceased_first_name))
    && eq_text (lower (trim stored.deceased_last_name)) (lower (strip new.deceased_last_name))

same_coroners_reference : Deceased → Deceased → Bool
same_coroners_reference stored new =
    if is_empty new.coroners_reference
    then false
    else eq_text stored.coroners_reference new.coroners_reference

-- How many of the four details of a stored deceased and a new one match.
unfoldable pub match_count : Deceased → Deceased → ℕ
unfolding same_name same_coroners_reference
match_count stored new =
    one_if (eq_text stored.deceased_date_of_birth new.deceased_date_of_birth)
    + one_if (eq_text stored.deceased_date_of_death new.deceased_date_of_death)
    + one_if (same_coroners_reference stored new)
    + one_if (same_name stored new)

-- The conditions of the query, for the application of the table and the new one.
unfoldable pub is_duplicate : Application → Application → Bool
unfolding match_count
is_duplicate new stored =
    not (stored.application_id == new.application_id)
    && is_eligible_duplicate stored.proceeding.merits_decision
    && leb duplicate_match_threshold (match_count stored.deceased new.deceased)

unfoldable pub duplicate_ids : Application → List Application → List ℕ
unfolding is_duplicate
duplicate_ids new stored =
    map (λ (a : Application). a.application_id) (select (is_duplicate new) stored)

eq_text_sym : (s t : Text) → eq_text s t ≡ eq_text t s
eq_text_sym [] [] = refl
eq_text_sym [] (d ∷ t) = refl
eq_text_sym (c ∷ s) [] = refl
eq_text_sym (c ∷ s) (d ∷ t) = ground (arith, eq_text_sym s t)

-- A name that the database and Python trim alike.
abbrev pub TrimsAlike : Deceased → Type 0
TrimsAlike d =
    (trim d.deceased_first_name ≡ strip d.deceased_first_name)
    × (trim d.deceased_last_name ≡ strip d.deceased_last_name)

coroners_reference_sym :
    (a b : Deceased) → same_coroners_reference a b ≡ same_coroners_reference b a
unfolding same_coroners_reference
coroners_reference_sym a b = go a.coroners_reference b.coroners_reference
  where
    go :
        (s t : Text)
        → (if is_empty t then false else eq_text s t) ≡ (if is_empty s then false else eq_text t s)
    go [] [] = refl
    go [] (d ∷ t) = refl
    go (c ∷ s) [] = refl
    go (c ∷ s) (d ∷ t) = eq_text_sym (c ∷ s) (d ∷ t)

same_name_sym : (a b : Deceased) → TrimsAlike a → TrimsAlike b → same_name a b ≡ same_name b a
unfolding same_name
same_name_sym a b ha hb =
    rw
      (
        ha.0,
        ha.1,
        hb.0,
        hb.1,
        eq_text_sym (lower (strip a.deceased_first_name)) (lower (strip b.deceased_first_name)),
        eq_text_sym (lower (strip a.deceased_last_name)) (lower (strip b.deceased_last_name)),
      )
      refl

match_count_sym : (a b : Deceased) → TrimsAlike a → TrimsAlike b → match_count a b ≡ match_count b a
unfolding match_count
match_count_sym a b ha hb =
    rw
      (
        eq_text_sym a.deceased_date_of_birth b.deceased_date_of_birth,
        eq_text_sym a.deceased_date_of_death b.deceased_date_of_death,
        coroners_reference_sym a b,
        same_name_sym a b ha hb,
      )
      refl

eligible : (m : MeritsDecision) → is_eligible_duplicate m ≡ true
eligible submitted = refl
eligible refused = refl
eligible granted = refl

==_sym : (m n : ℕ) → (m == n) ≡ (n == m)
==_sym m n = ground arith

-- Whether two applications duplicate each other does not depend on which of them is the new one,
-- where the names have no white space but spaces at their ends.
pub is_duplicate_sym :
    (a b : Application)
    → TrimsAlike a.deceased
    → TrimsAlike b.deceased
    → is_duplicate a b ≡ is_duplicate b a
unfolding is_duplicate
is_duplicate_sym a b ha hb =
    rw
      (
        match_count_sym a.deceased b.deceased ha hb,
        eligible a.proceeding.merits_decision,
        eligible b.proceeding.merits_decision,
        ==_sym b.application_id a.application_id,
      )
      refl
