-- ===== src/Reports/PaymentLines/PreChecked.antt =====
-- The checks before the rows of the payment extract report
-- (app/use_cases/generate_payment_extract_report.py) and the rows.
use laa_inquests_api.Prelude.{
  ◌≡◌, refl, ap, sym, subst, ◌∙◌, Bool, true, false, ◌||◌, Option, none, some, List, [], ◌∷◌,
  Result, ok, err, bind_ok, ok_same, All, arith, Bool-cases, inl, inr, any,
}
use laa_inquests_api.Text.{Text, eq_text, eq_text_sound}
use laa_inquests_api.Reports.PaymentLines.{
  ReportError, PaymentLineClassification, PaymentLineType, PaymentExtractReportSourceLine,
  PaymentRow, classify_payment_line, same_line_type, get, build_classification_lookup,
  build_firm_name_lookup, build_row, build_rows,
}

same_line_type_sound : (a b : PaymentLineType) → same_line_type a b ≡ true → a ≡ b
same_line_type_sound a b h = ground arith

later : (a b : Bool) → a ≡ false → (a || b) ≡ true → b ≡ true
later a b e h = ground arith

-- The entry of a line type that was classified.
get_classified :
    (ts : List PaymentLineType) (cs : List (PaymentLineType × PaymentLineClassification))
    (t : PaymentLineType)
    → build_classification_lookup ts ≡ ok cs
    → any (λ (u : PaymentLineType). same_line_type u t) ts ≡ true
    → (c : PaymentLineClassification) × (get same_line_type t cs ≡ some c)
      × (classify_payment_line t ≡ ok c)
unfolding build_classification_lookup
get_classified [] cs t h m = absurd (ground arith)
get_classified (u ∷ us) cs t h m =
    let (c, hc, k) = bind_ok (classify_payment_line u) _ cs h in
    let (rest, hr, l) = bind_ok (build_classification_lookup us) _ cs k in
    let same : (u, c) ∷ rest ≡ cs = ok_same ((u, c) ∷ rest) cs l in
    elim (Bool-cases (same_line_type u t)) [
      | inl e ↦ (
        c,
        ap (get same_line_type t) (sym same) ∙ rw (e) refl,
        ap classify_payment_line (sym (same_line_type_sound u t e)) ∙ hc,
      )
      | inr e ↦
          let (d, g, hd) = get_classified us rest t hr (later (same_line_type u t) _ e m) in
          (d, ap (get same_line_type t) (sym same) ∙ rw (e) g, hd)
    ]

-- A firm's name was found, and so were the names of the rest.
firm_found :
    {A : Type 0} (o : Option Text) (e : ReportError) (r : Result ReportError A) (names : A)
    → ◌≡◌ {A = Result ReportError A} (elim o [ none ↦ err e | some _ ↦ r ]) (ok names)
    → (name : Text) × (o ≡ some name) × (r ≡ ok names)
firm_found none e r names h = absurd (ground arith)
firm_found (some name) e r names h = (name, refl, h)

names_are_firms :
    (firms names : List (Text × Text)) (codes : List Text)
    → build_firm_name_lookup firms codes ≡ ok names
    → firms ≡ names
unfolding build_firm_name_lookup
names_are_firms firms names [] h = ok_same firms names h
names_are_firms firms names (k ∷ ks) h =
    let (name, e, rest) = firm_found (get eq_text k firms) _ _ names h in
    names_are_firms firms names ks rest

get_named :
    (firms names : List (Text × Text)) (codes : List Text) (code : Text)
    → build_firm_name_lookup firms codes ≡ ok names
    → any (λ (k : Text). eq_text k code) codes ≡ true
    → (name : Text) × (get eq_text code names ≡ some name)
unfolding build_firm_name_lookup
get_named firms names [] code h m = absurd (ground arith)
get_named firms names (k ∷ ks) code h m =
    let (name, e, rest) = firm_found (get eq_text k firms) _ _ names h in
    elim (Bool-cases (eq_text k code)) [
      | inl t ↦ (
        name,
        subst (λ c. get eq_text c names ≡ some name) (eq_text_sound k code t)
            (ap (get eq_text k) (sym (names_are_firms firms names ks rest)) ∙ e),
      )
      | inr t ↦ get_named firms names ks code rest (later (eq_text k code) _ t m)
    ]

-- The firm's code and the type of the line are among those that were checked.
abbrev pub IsPreChecked : List PaymentLineType → List Text → PaymentExtractReportSourceLine → Type 0
IsPreChecked ts codes line =
    (any (λ (u : PaymentLineType). same_line_type u line.line_type) ts ≡ true)
    × (any (λ (k : Text). eq_text k line.firm_code) codes ≡ true)

-- The row of a line, with its own classification.
abbrev pub IsRowOf : PaymentExtractReportSourceLine → PaymentRow → Type 0
IsRowOf line row =
    (row.line ≡ line) × (classify_payment_line line.line_type ≡ ok row.classification)

abbrev pub AreRowsOf : List PaymentExtractReportSourceLine → List PaymentRow → Type 0
AreRowsOf [] [] = Unit
AreRowsOf [] (row ∷ rows) = ⊥
AreRowsOf (line ∷ lines) [] = ⊥
AreRowsOf (line ∷ lines) (row ∷ rows) = IsRowOf line row × AreRowsOf lines rows

build_row_found :
    (line : PaymentExtractReportSourceLine) (names : List (Text × Text))
    (cs : List (PaymentLineType × PaymentLineClassification)) (name : Text)
    (c : PaymentLineClassification)
    → get eq_text line.firm_code names ≡ some name
    → get same_line_type line.line_type cs ≡ some c
    → build_row line names cs ≡ ok (record { classification = c; firm_name = name; line = line })
unfolding build_row
build_row_found line names cs name c gn gc = ground arith

module _ (ts : List PaymentLineType) (codes : List Text) (firms names : List (Text × Text))
    (cs : List (PaymentLineType × PaymentLineClassification)) where
  build_row_lem :
      (line : PaymentExtractReportSourceLine)
      → build_classification_lookup ts ≡ ok cs
      → build_firm_name_lookup firms codes ≡ ok names
      → IsPreChecked ts codes line
      → (row : PaymentRow) × (build_row line names cs ≡ ok row) × IsRowOf line row
  build_row_lem line hc hn checked =
      let (c, gc, classified) = get_classified ts cs line.line_type hc checked.0 in
      let (name, gn) = get_named firms names codes line.firm_code hn checked.1 in
      (
        record { classification = c; firm_name = name; line = line },
        build_row_found line names cs name c gn gc,
        (refl, classified),
      )

  -- Once the types and the firms of the lines were checked, no row fails: the report has one row for
  -- each line, in their order, each with the classification of its own line.
  pub build_rows-pre_checked :
      (lines : List PaymentExtractReportSourceLine)
      → build_classification_lookup ts ≡ ok cs
      → build_firm_name_lookup firms codes ≡ ok names
      → All (IsPreChecked ts codes) lines
      → (rows : List PaymentRow) × (build_rows lines names cs ≡ ok rows) × AreRowsOf lines rows
  unfolding build_rows
  build_rows-pre_checked [] hc hn checked = ([], refl, tt)
  build_rows-pre_checked (line ∷ lines) hc hn checked =
      let (row, e, is_row) = build_row_lem line hc hn checked.0 in
      let (rows, es, are_rows) = build_rows-pre_checked lines hc hn checked.1 in
      (row ∷ rows, rw (e, es) refl, (is_row, are_rows))
