-- ===== src/Reports/PaymentLines.antt =====
-- The lines of the payment extract report: app/domain/payment_extract_report.py and the checks and
-- rows of app/use_cases/generate_payment_extract_report.py.
pub mod PreChecked
use laa_inquests_api.Prelude.{
  ℕ, suc, ◌+◌, ◌-◌, ◌≡◌, refl, ap, sym, Bool, true, false, not, ◌&&◌, Option, none, some, List, [],
  ◌∷◌, ◌++◌, map, Result, ok, err, is_ok, ◌>>=◌, if◌then◌else◌, All, arith, Bool-cases, inl, inr,
  any,
}
use laa_inquests_api.Prelude.Int.{ℤ}
use laa_inquests_api.Text.{Text, codes, eq_text, eq_text_refl}
use laa_inquests_api.Calendar.{Date}
use laa_inquests_api.Enums.{
  PoaType, profit_cost, expert_cost, non_expert_disbursement, InvoiceTypeCode, final_bill_fees,
  final_bill_disbursement, poa, recouped, TaxCode,
}

-- `UnclassifiablePaymentLineError` and `ReportGenerationError`
pub data ReportError : Type 0 where
  without_poa_type : InvoiceTypeCode → ReportError
  firm_name_not_found not_pre_checked : Text → ReportError

pub record PaymentLineClassification : Type 0 where
  pub description : Text
  pub model_number : Text

pub record PaymentLineType : Type 0 where
  pub invoice_type : InvoiceTypeCode
  pub poa_type : Option PoaType
  pub original_poa_type : Option PoaType

pub record PaymentExtractReportSourceLine : Type 0 where
  pub invoice_number : Text
  pub invoice_amount : ℤ
  pub invoice_date : Date
  pub tax_code : TaxCode
  pub line_type : PaymentLineType
  pub firm_code : Text
  pub office_id : Text
  pub laa_reference : Text
  pub client_first_name : Option Text
  pub client_last_name : Option Text

abbrev pub final_bill_profit_costs : PaymentLineClassification
final_bill_profit_costs = record {
  description = codes "Profit costs";
  model_number = codes "Profit costs";
}

abbrev pub poa_profit_costs : PaymentLineClassification
poa_profit_costs = record {
  description = codes "Profit costs (80%)";
  model_number = codes "Profit costs";
}

abbrev pub disbursements : PaymentLineClassification
disbursements = record { description = codes "Expert costs"; model_number = codes "Disbursements" }

-- `_classify_poa`
classify_poa : Option PoaType → PaymentLineType → Result ReportError PaymentLineClassification
classify_poa none line_type = err (without_poa_type line_type.invoice_type)
classify_poa (some profit_cost) line_type = ok poa_profit_costs
classify_poa (some expert_cost) line_type = ok disbursements
classify_poa (some non_expert_disbursement) line_type = ok disbursements

unfoldable pub classify_payment_line :
    PaymentLineType → Result ReportError PaymentLineClassification
unfolding classify_poa
classify_payment_line line_type = elim line_type.invoice_type [
  | final_bill_fees ↦ ok final_bill_profit_costs
  | final_bill_disbursement ↦ ok disbursements
  | poa ↦ classify_poa line_type.poa_type line_type
  | recouped ↦ classify_poa line_type.original_poa_type line_type
]

-- Equality of two enumerations and of two line types, as the keys of a dictionary compare.
abbrev pub same_invoice_type : InvoiceTypeCode → InvoiceTypeCode → Bool
same_invoice_type final_bill_fees final_bill_fees = true
same_invoice_type final_bill_disbursement final_bill_disbursement = true
same_invoice_type poa poa = true
same_invoice_type recouped recouped = true
same_invoice_type _ _ = false

abbrev pub same_poa_type : Option PoaType → Option PoaType → Bool
same_poa_type none none = true
same_poa_type (some profit_cost) (some profit_cost) = true
same_poa_type (some expert_cost) (some expert_cost) = true
same_poa_type (some non_expert_disbursement) (some non_expert_disbursement) = true
same_poa_type _ _ = false

abbrev pub same_line_type : PaymentLineType → PaymentLineType → Bool
same_line_type a b =
    same_invoice_type a.invoice_type b.invoice_type
    && same_poa_type a.poa_type b.poa_type
    && same_poa_type a.original_poa_type b.original_poa_type

-- A dictionary as a list of entries, of which the first of a key counts.
abbrev pub get {ℓ κ} : {K : Type ℓ} {V : Type κ} → (K → K → Bool) → K → List (K × V) → Option V
get same k [] = none
get same k ((j, v) ∷ m) = let rest = get same k m in if same j k then some v else rest

-- `_build_classification_lookup`, from the line types that were read
unfoldable pub build_classification_lookup :
    List PaymentLineType → Result ReportError (List (PaymentLineType × PaymentLineClassification))
build_classification_lookup [] = ok []
build_classification_lookup (t ∷ ts) = do
  c ← classify_payment_line t
  rest ← build_classification_lookup ts
  ok ((t, c) ∷ rest)

-- The check of `_build_firm_name_lookup`; `firms` are the names that the provider details service
-- gives, as a dictionary.
unfoldable pub build_firm_name_lookup :
    List (Text × Text) → List Text → Result ReportError (List (Text × Text))
build_firm_name_lookup firms [] = ok firms
build_firm_name_lookup firms (code ∷ codes) =
    let rest = build_firm_name_lookup firms codes in
    elim (get eq_text code firms) [ none ↦ err (firm_name_not_found code) | some _ ↦ rest ]

-- The cells of a row that do not only repeat the line.
pub record PaymentRow : Type 0 where
  pub classification : PaymentLineClassification
  pub firm_name : Text
  pub line : PaymentExtractReportSourceLine

-- `_build_row`
unfoldable pub build_row :
    PaymentExtractReportSourceLine
    → List (Text × Text)
    → List (PaymentLineType × PaymentLineClassification)
    → Result ReportError PaymentRow
build_row line firm_names classifications = elim (get eq_text line.firm_code firm_names) [
  | none ↦ err (not_pre_checked line.invoice_number)
  | some firm_name ↦ elim (get same_line_type line.line_type classifications) [
    | none ↦ err (not_pre_checked line.invoice_number)
    | some c ↦ ok (record { classification = c; firm_name = firm_name; line = line })
  ]
]

-- `_stream_csv`, up to its chunks
unfoldable pub build_rows :
    List PaymentExtractReportSourceLine
    → List (Text × Text)
    → List (PaymentLineType × PaymentLineClassification)
    → Result ReportError (List PaymentRow)
unfolding build_row
build_rows [] firm_names classifications = ok []
build_rows (line ∷ lines) firm_names classifications = do
  row ← build_row line firm_names classifications
  rows ← build_rows lines firm_names classifications
  ok (row ∷ rows)
