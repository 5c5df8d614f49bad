-- ===== src/Tests/Checks.antt =====
-- The theorems about the rules of validation at concrete inputs.
use web_data_extraction_engi.Prelude.{
  ℕ, ◌≡◌, refl, inl, true, false, [], ◌∷◌, some, none, str_eq, ltb,
}
use web_data_extraction_engi.Checks.{
  Python, Content, null, text, integer, RuleStatus, Quality, RecordPayload, FieldDefinition,
  Candidate, Evidence, given, RecordValidation, validate, entry, is_missing, candidate_of, required,
  type_rule, format_skipped, normalization, evidence_rule, provenance_rule, cross_field,
}
use web_data_extraction_engi.Checks.Verdicts.{Verdict, validate-Verdict}
use web_data_extraction_engi.Checks.Clashes.{here, prices, validate-missing, validate-Mixed}

abbrev py : Python ℕ
py = record {
  is_finite = λ n. true;
  is_huge = λ n. false;
  exceeds = λ m n. ltb n m;
  of_bool = λ b. 0;
  equal = λ c d. true;
  exceeds_other = λ c d. none;
  str = λ c. "text";
  is_blank = λ s. str_eq s "";
  char_count = λ s. 4;
  is_url = λ s. true;
  is_email = λ s. true;
  is_date = λ s. true;
  is_datetime = λ s. true;
  str_number = λ n. "1";
  normalize = λ raw t url. text raw;
}

abbrev evidence : Evidence
evidence = given (some "lamp") (some "/html")

abbrev candidate : Content ℕ → Candidate ℕ
candidate value = record { value = value; raw = some "raw"; evidence = evidence }

abbrev payload : Content ℕ → Content ℕ → RecordPayload ℕ
payload low high = record {
  fields = ("min_price", some (candidate low)) ∷ ("max_price", some (candidate high)) ∷ [];
  provenance = some (record {
    plan_version = some "1";
    has_page_id = true;
    canonical_url = "https://example.com/";
  });
}

abbrev price : FieldDefinition
price = record { name = "min_price"; type_name = "integer"; is_required = true }

-- the verdict on a record whose lower price is above the upper one
abbrev crossed : RecordValidation
crossed = record {
  status = RuleStatus.fail;
  quality = Quality.invalid;
  fields =
      record {
        field = "min_price";
        status = RuleStatus.pass;
        rules =
            record { rule = required; status = RuleStatus.pass }
            ∷ record { rule = type_rule "integer"; status = RuleStatus.pass }
            ∷ record { rule = format_skipped; status = RuleStatus.skipped }
            ∷ record { rule = normalization; status = RuleStatus.pass }
            ∷ record { rule = evidence_rule; status = RuleStatus.pass }
            ∷ [];
      }
      ∷ [];
  record_rules =
      record { rule = provenance_rule; status = RuleStatus.pass }
      ∷ record { rule = cross_field "min_price" "max_price"; status = RuleStatus.fail }
      ∷ [];
  summary = record { passed = 5; failed = 1; warned = 0; unresolved = 0 };
}

crossed_run : validate py 1 (price ∷ []) (payload (integer 9) (integer 5)) ≡ some crossed
unfolding validate
crossed_run = refl

validate-Verdict_example : Verdict crossed × (crossed.summary.unresolved ≡ 0)
validate-Verdict_example =
    validate-Verdict py 1 (price ∷ []) (payload (integer 9) (integer 5)) crossed crossed_run

-- the verdict on a record without the required price
abbrev incomplete : RecordValidation
incomplete = record {
  status = RuleStatus.fail;
  quality = Quality.invalid;
  fields =
      record {
        field = "min_price";
        status = RuleStatus.fail;
        rules = record { rule = required; status = RuleStatus.fail } ∷ [];
      }
      ∷ [];
  record_rules = record { rule = provenance_rule; status = RuleStatus.pass } ∷ [];
  summary = record { passed = 1; failed = 1; warned = 0; unresolved = 0 };
}

incomplete_run : validate py 1 (price ∷ []) (payload null (integer 5)) ≡ some incomplete
unfolding validate
incomplete_run = refl

lacks : is_missing py (candidate_of py (payload null (integer 5)) price).value ≡ true
unfolding entry
lacks = refl

validate-missing_example :
    (incomplete.status ≡ RuleStatus.fail) × (incomplete.quality ≡ Quality.invalid)
validate-missing_example =
    validate-missing py (payload null (integer 5)) 1 price (price ∷ []) incomplete (here []) refl
      lacks incomplete_run

low_found :
    entry py "min_price" (payload (text "cheap") (integer 5)).fields
    ≡ some (some (candidate (text "cheap")))
unfolding entry
low_found = refl

high_found :
    entry py "max_price" (payload (text "cheap") (integer 5)).fields
    ≡ some (some (candidate (integer 5)))
unfolding entry
high_found = refl

validate-Mixed_example : validate py 1 (price ∷ []) (payload (text "cheap") (integer 5)) ≡ none
validate-Mixed_example =
    validate-Mixed py (payload (text "cheap") (integer 5)) 1 (price ∷ []) "min_price" "max_price"
      (candidate (text "cheap")) (candidate (integer 5)) prices low_found high_found
      (inl ("cheap", 5, refl, inl refl))
