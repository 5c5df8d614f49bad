-- ===== src/Checks.antt =====
-- services/api/src/wde_api/validation_service.py and validation_types.py: the rules by which a record
-- is judged. A rule's identifier is a value in place of a text, and messages are left out. A number,
-- the parsers and `normalize` of extraction_service.py are arguments.
pub mod Verdicts
pub mod Clashes
use web_data_extraction_engi.Prelude.{
  ℕ, Bool, true, false, not, ◌&&◌, ◌||◌, List, [], ◌∷◌, ◌++◌, Option, none, some, String, map,
  maybe, length, is_some, any, count_if, str_eq, str_in, leb, if◌then◌else◌,
}
use Prim.Native.Char.{Char}
use web_data_extraction_engi.Prelude.Sorting.{str_leb}

-- a value of a payload; `other` is a list or a dictionary, by its text
pub data Content (Number : Type 0) : Type 0 where
  null : Content Number
  boolean : Bool → Content Number
  integer : Number → Content Number
  float : Number → Content Number
  text : String → Content Number
  other : String → Content Number

pub data RuleStatus : Type 0 where
  pass fail warn unresolved skipped : RuleStatus

abbrev pub status_is : RuleStatus → RuleStatus → Bool
status_is RuleStatus.pass RuleStatus.pass = true
status_is RuleStatus.fail RuleStatus.fail = true
status_is RuleStatus.warn RuleStatus.warn = true
status_is RuleStatus.unresolved RuleStatus.unresolved = true
status_is RuleStatus.skipped RuleStatus.skipped = true
status_is _ _ = false

pub data Quality : Type 0 where
  high medium low invalid unresolved : Quality

pub data Rule : Type 0 where
  required optional_missing format_skipped normalization evidence_rule provenance_rule : Rule
  type_rule format_rule : String → Rule
  cross_field : String → String → Rule

pub record RuleOutcome : Type 0 where
  pub rule : Rule
  pub status : RuleStatus

pub record FieldValidation : Type 0 where
  pub field : String
  pub status : RuleStatus
  pub rules : List RuleOutcome

-- `summary`
pub record Summary : Type 0 where
  pub passed : ℕ
  pub failed : ℕ
  pub warned : ℕ
  pub unresolved : ℕ

pub record RecordValidation : Type 0 where
  pub status : RuleStatus
  pub quality : Quality
  pub fields : List FieldValidation
  pub record_rules : List RuleOutcome
  pub summary : Summary

-- `candidate.get("evidence")`: nothing, no dictionary, or one with its texts where they are texts
pub data Evidence : Type 0 where
  absent malformed : Evidence
  given : Option String → Option String → Evidence

pub record Candidate (Number : Type 0) : Type 0 where
  pub value : Content Number
  -- `str(raw)`
  pub raw : Option String
  pub evidence : Evidence

-- `record.get("provenance", {})`, if it is a dictionary
pub record Provenance : Type 0 where
  pub plan_version : Option String
  pub has_page_id : Bool
  pub canonical_url : String

-- `fields` is empty where the record has no dictionary there; an entry that is no dictionary is `none`
pub record RecordPayload (Number : Type 0) : Type 0 where
  pub fields : List (String × Option (Candidate Number))
  pub provenance : Option Provenance

-- `PlanField`, as far as the rules read it
pub record FieldDefinition : Type 0 where
  pub name : String
  pub type_name : String
  pub is_required : Bool

-- what Python and its libraries decide
pub record Python (Number : Type 0) : Type 0 where
  pub is_finite : Number → Bool
  -- `float(n)` of the integer raises an `OverflowError`
  pub is_huge : Number → Bool
  pub exceeds : Number → Number → Bool
  pub of_bool : Bool → Number
  pub equal : Content Number → Content Number → Bool
  -- `left > right` where one is a list or a dictionary; `none` is a `TypeError`
  pub exceeds_other : Content Number → Content Number → Option Bool
  pub str : Content Number → String
  pub is_blank : String → Bool
  pub char_count : String → ℕ
  pub is_url : String → Bool
  pub is_email : String → Bool
  pub is_date : String → Bool
  pub is_datetime : String → Bool
  pub str_number : ℕ → String
  pub normalize : String → String → String → Content Number

abbrev pub has_status : RuleStatus → List RuleOutcome → Bool
has_status status outcomes = any (λ o. status_is o.status status) outcomes

-- `_status`
unfoldable pub overall_status : List RuleOutcome → RuleStatus
overall_status outcomes =
    if has_status RuleStatus.fail outcomes
    then RuleStatus.fail
    else if has_status RuleStatus.unresolved outcomes
    then RuleStatus.unresolved
    else if has_status RuleStatus.warn outcomes
    then RuleStatus.warn
    else if has_status RuleStatus.pass outcomes
    then RuleStatus.pass
    else RuleStatus.skipped

-- `_quality`
unfoldable pub overall_quality : List RuleOutcome → Quality
overall_quality outcomes =
    if has_status RuleStatus.fail outcomes
    then Quality.invalid
    else if has_status RuleStatus.unresolved outcomes
    then Quality.unresolved
    else if has_status RuleStatus.warn outcomes
    then Quality.medium
    else Quality.high

abbrev pub outcome : Rule → Bool → RuleOutcome
outcome rule ok = record { rule = rule; status = if ok then RuleStatus.pass else RuleStatus.fail }

abbrev pub warning : Rule → RuleOutcome
warning rule = record { rule = rule; status = RuleStatus.warn }

module _ {Number : Type 0} (py : Python Number) where
  abbrev pub is_missing : Content Number → Bool
  is_missing null = true
  is_missing (text s) = py.is_blank s
  is_missing _ = false

  abbrev pub is_numeric : Content Number → Bool
  is_numeric (integer n) = py.is_finite n
  is_numeric (float n) = py.is_finite n
  is_numeric _ = false

  -- `_type_rule` raises for every declared type
  abbrev pub overflows : Content Number → Bool
  overflows (integer n) = py.is_huge n
  overflows _ = false

  abbrev is_text : Content Number → Bool
  is_text (text s) = true
  is_text _ = false

  abbrev is_integer : Content Number → Bool
  is_integer (integer n) = true
  is_integer _ = false

  abbrev is_boolean : Content Number → Bool
  is_boolean (boolean b) = true
  is_boolean _ = false

  -- `_type_rule`
  unfoldable pub has_type : String → Content Number → Bool
  has_type type_name value =
      if str_in type_name ("string" ∷ "text" ∷ "url" ∷ "email" ∷ "date" ∷ "datetime" ∷ [])
      then is_text value
      else if str_eq type_name "integer"
      then is_integer value
      else if str_in type_name ("number" ∷ "currency" ∷ [])
      then is_numeric value
      else if str_eq type_name "boolean"
      then is_boolean value
      else false

  -- `_format_rule`
  unfoldable pub check_format : String → Content Number → RuleOutcome
  check_format type_name value =
      if str_eq type_name "url"
      then outcome (format_rule type_name) (py.is_url (py.str value))
      else if str_eq type_name "email"
      then outcome (format_rule type_name) (py.is_email (py.str value))
      else if str_eq type_name "date"
      then outcome (format_rule type_name) (py.is_date (py.str value))
      else if str_eq type_name "datetime"
      then outcome (format_rule type_name) (py.is_datetime (py.str value))
      else if str_in type_name ("string" ∷ "text" ∷ [])
      then outcome (format_rule type_name) (not (py.is_blank (py.str value)))
      else record { rule = format_skipped; status = RuleStatus.skipped }

  -- the evidence is bounded: a source text of at most 500 characters and a location
  unfoldable pub check_evidence : Evidence → RuleOutcome
  check_evidence Evidence.absent = warning evidence_rule
  check_evidence Evidence.malformed = outcome evidence_rule false
  check_evidence (given (some source_text) (some location)) =
      outcome evidence_rule (leb (py.char_count source_text) 500 && not (str_eq location ""))
  check_evidence (given _ _) = outcome evidence_rule false

  -- the rule of normalization; `record["provenance"].get` raises where it is no dictionary
  unfoldable pub check_normalization :
      FieldDefinition → Candidate Number → Option Provenance → Option (List RuleOutcome)
  check_normalization definition candidate provenance = maybe candidate.raw (some []) λ raw.
      maybe provenance none λ p. some (
        outcome normalization
          (py.equal (py.normalize raw definition.type_name p.canonical_url) candidate.value)
        ∷ [])

  -- the rule of normalization, after the rule of the type has not raised
  unfoldable pub typed_normalization :
      FieldDefinition → Candidate Number → Option Provenance → Option (List RuleOutcome)
  unfolding check_normalization
  typed_normalization definition candidate provenance =
      if overflows candidate.value
      then none
      else check_normalization definition candidate provenance

  -- `_field_rules`; `none` is an `AttributeError` or an `OverflowError`
  unfoldable pub field_rules :
      FieldDefinition → Candidate Number → Option Provenance → Option (List RuleOutcome)
  unfolding has_type check_format check_evidence typed_normalization
  field_rules definition candidate provenance =
      if is_missing candidate.value
      then some (
          outcome required (not definition.is_required)
          ∷ (if definition.is_required then [] else warning optional_missing ∷ []))
      else maybe (typed_normalization definition candidate provenance) none λ normalized. some (
          outcome required true
          ∷ outcome (type_rule definition.type_name) (has_type definition.type_name candidate.value)
          ∷ check_format definition.type_name candidate.value
          ∷ (normalized ++ check_evidence candidate.evidence ∷ []))

  abbrev pub no_candidate : Candidate Number
  no_candidate = record { value = null; raw = none; evidence = Evidence.absent }

  -- `payload.get(name)`
  unfoldable pub entry :
      String → List (String × Option (Candidate Number)) → Option (Option (Candidate Number))
  entry name [] = none
  entry name ((k, c) ∷ rest) = if str_eq k name then some c else entry name rest

  -- the candidate of a field, empty where it is no dictionary
  abbrev pub candidate_of : RecordPayload Number → FieldDefinition → Candidate Number
  candidate_of payload definition =
      maybe (entry definition.name payload.fields) no_candidate
        (λ found. maybe found no_candidate (λ c. c))

  unfoldable pub validate_field : RecordPayload Number → FieldDefinition → Option FieldValidation
  unfolding field_rules entry
  validate_field payload definition =
      maybe (field_rules definition (candidate_of payload definition) payload.provenance) none
        λ rules.
          some (record { field = definition.name; status = overall_status rules; rules = rules })

  unfoldable pub validate_fields :
      RecordPayload Number → List FieldDefinition → Option (List FieldValidation)
  unfolding validate_field
  validate_fields payload [] = some []
  validate_fields payload (definition ∷ rest) =
      maybe (validate_field payload definition) none
        λ field. maybe (validate_fields payload rest) none λ fields. some (field ∷ fields)

  abbrev number_of : Content Number → Option Number
  number_of (boolean b) = some (py.of_bool b)
  number_of (integer n) = some n
  number_of (float n) = some n
  number_of _ = none

  -- `left > right` of values that are not `None`
  unfoldable pub exceeds_value : Content Number → Content Number → Option Bool
  exceeds_value (text s) (text t) = some (not (str_leb s t))
  exceeds_value (other s) right = py.exceeds_other (other s) right
  exceeds_value left (other t) = py.exceeds_other left (other t)
  exceeds_value left right =
      maybe (number_of left) none λ m. maybe (number_of right) none λ n. some (py.exceeds m n)

  abbrev pub is_null : Content Number → Bool
  is_null null = true
  is_null _ = false

  -- one pair of the cross-field rules; `none` is an `AttributeError` or a `TypeError`
  unfoldable pub check_pair : RecordPayload Number → String → String → Option (List RuleOutcome)
  unfolding exceeds_value entry
  check_pair payload lower upper = maybe (entry lower payload.fields) (some []) λ left.
      maybe (entry upper payload.fields) (some []) λ right. maybe left none λ l.
        maybe right none λ r.
          if is_null l.value || is_null r.value
          then some []
          else maybe (exceeds_value l.value r.value) none
              (λ above. some (if above then outcome (cross_field lower upper) false ∷ [] else []))

  -- `provenance.get("plan_version") == str(plan.plan_version) and provenance.get("page_id")`
  unfoldable pub is_consistent : ℕ → Option Provenance → Bool
  is_consistent plan_version provenance =
      maybe provenance false λ p.
        maybe p.plan_version false (λ v. str_eq v (py.str_number plan_version)) && p.has_page_id

  -- `_record_rules`
  unfoldable pub record_rules : ℕ → RecordPayload Number → Option (List RuleOutcome)
  unfolding check_pair is_consistent
  record_rules plan_version payload =
      maybe (check_pair payload "start_date" "end_date") none λ dates.
        maybe (check_pair payload "min_price" "max_price") none λ prices.
          maybe (check_pair payload "discounted_price" "original_price") none λ discounts. some (
            outcome provenance_rule (is_consistent plan_version payload.provenance)
            ∷ (dates ++ (prices ++ discounts)))

abbrev pub field_outcomes : List FieldValidation → List RuleOutcome
field_outcomes [] = []
field_outcomes (f ∷ fields) = f.rules ++ field_outcomes fields

abbrev pub count_status : RuleStatus → List RuleOutcome → ℕ
count_status status outcomes = count_if (λ o. status_is o.status status) outcomes

abbrev pub summarize : List RuleOutcome → Summary
summarize outcomes = record {
  passed = count_status RuleStatus.pass outcomes;
  failed = count_status RuleStatus.fail outcomes;
  warned = count_status RuleStatus.warn outcomes;
  unresolved = count_status RuleStatus.unresolved outcomes;
}

-- the end of `validate`
unfoldable pub judge : List FieldValidation → List RuleOutcome → RecordValidation
unfolding overall_status overall_quality
judge fields rules = record {
  status = overall_status (field_outcomes fields ++ rules);
  quality = overall_quality (field_outcomes fields ++ rules);
  fields = fields;
  record_rules = rules;
  summary = summarize (field_outcomes fields ++ rules);
}

-- `validate`, for the plan's version and fields; `none` is an exception
unfoldable pub validate :
    {Number : Type 0}
    → Python Number
    → ℕ
    → List FieldDefinition
    → RecordPayload Number
    → Option RecordValidation
unfolding validate_fields record_rules judge
validate py plan_version definitions payload =
    maybe (validate_fields py payload definitions) none
      λ fields. maybe (record_rules py plan_version payload) none λ rules. some (judge fields rules)
