-- ===== src/Checks/Clashes.antt =====
-- validation_service.py: a missing required value, and a pair of values that cannot be compared.
use web_data_extraction_engi.Prelude.{
  ℕ, ◌≡◌, refl, ◌⊎◌, inl, inr, true, false, ◌||◌, List, [], ◌∷◌, ◌++◌, Option, none, some, String,
  maybe, arith, ◌∙◌,
}
use web_data_extraction_engi.Checks.{
  Python, Content, integer, float, text, RuleStatus, Quality, RuleOutcome, FieldValidation,
  RecordValidation, RecordPayload, FieldDefinition, Candidate, has_status, is_null, field_rules,
  validate_field, validate_fields, check_pair, exceeds_value, entry, record_rules, field_outcomes,
  judge, validate, is_missing, candidate_of,
}
use web_data_extraction_engi.Checks.Verdicts.{
  Sure, Sure-some, maybe-Sure, always, has_status-append,
}

-- the definition is one of the plan's
pub data Listed (d : FieldDefinition) : List FieldDefinition → Type 0 where
  here : (rest : List FieldDefinition) → Listed d (d ∷ rest)
  there : (e : FieldDefinition) {rest : List FieldDefinition} → Listed d rest → Listed d (e ∷ rest)

module _ {Number : Type 0} (py : Python Number) where
  abbrev Fails : List FieldValidation → Type 0
  Fails fields = has_status RuleStatus.fail (field_outcomes fields) ≡ true

  -- the two halves of a list of outcomes
  fail-left :
      (xs ys : List RuleOutcome)
      → has_status RuleStatus.fail xs ≡ true
      → has_status RuleStatus.fail (xs ++ ys) ≡ true
  fail-left xs ys h = has_status-append RuleStatus.fail xs ys ∙ rw h

  fail-right :
      (xs ys : List RuleOutcome)
      → has_status RuleStatus.fail ys ≡ true
      → has_status RuleStatus.fail (xs ++ ys) ≡ true
  fail-right xs ys h = ground (arith, has_status-append RuleStatus.fail xs ys)

  module _ (payload : RecordPayload Number) where
    validate_field-fails :
        (d : FieldDefinition)
        → d.is_required ≡ true
        → is_missing py (candidate_of py payload d).value ≡ true
        → Sure (λ f. has_status RuleStatus.fail f.rules ≡ true) (validate_field py payload d)
    unfolding validate_field field_rules
    validate_field-fails d r m = rw (m, r) refl

    validate_fields-Fails :
        (d : FieldDefinition) (defs : List FieldDefinition)
        → Listed d defs
        → d.is_required ≡ true
        → is_missing py (candidate_of py payload d).value ≡ true
        → Sure Fails (validate_fields py payload defs)
    unfolding validate_fields
    validate_fields-Fails d [] l r m = elim l [ ]
    validate_fields-Fails d (_ ∷ _) (here rest) r m =
        maybe-Sure Fails (validate_field py payload d) _ (validate_field-fails d r m) λ field h.
          maybe-Sure Fails (validate_fields py payload rest) _
            (always (validate_fields py payload rest))
            λ fields u. fail-left field.rules (field_outcomes fields) h
    validate_fields-Fails d (_ ∷ _) (there e {rest} l) r m =
        maybe-Sure Fails (validate_field py payload e) _ (always (validate_field py payload e))
          λ field u.
            maybe-Sure Fails (validate_fields py payload rest) _
              (validate_fields-Fails d rest l r m)
              λ fields h. fail-right field.rules (field_outcomes fields) h

    abbrev IsRejected : RecordValidation → Type 0
    IsRejected v = (v.status ≡ RuleStatus.fail) × (v.quality ≡ Quality.invalid)

    judge-IsRejected :
        (fields : List FieldValidation) (rules : List RuleOutcome)
        → Fails fields
        → IsRejected (judge fields rules)
    unfolding judge
    judge-IsRejected fields rules h =
        let f = fail-left (field_outcomes fields) rules h in (rw f refl, rw f refl)

    -- A record that lacks the value of a required field of the plan, or has a blank text there, is FAIL
    -- and INVALID, if it is judged at all.
    pub validate-missing :
        (plan_version : ℕ) (d : FieldDefinition) (defs : List FieldDefinition)
        (v : RecordValidation)
        → Listed d defs
        → d.is_required ≡ true
        → is_missing py (candidate_of py payload d).value ≡ true
        → validate py plan_version defs payload ≡ some v
        → (v.status ≡ RuleStatus.fail) × (v.quality ≡ Quality.invalid)
    unfolding validate
    validate-missing plan_version d defs v l r m = Sure-some IsRejected _ v (
        maybe-Sure IsRejected (validate_fields py payload defs) _
          (validate_fields-Fails d defs l r m)
          λ fields h.
            maybe-Sure IsRejected (record_rules py plan_version payload) _
              (always (record_rules py plan_version payload))
              λ rules u. judge-IsRejected fields rules h)

-- the pairs of `_record_rules`
pub data ComparedPair : String → String → Type 0 where
  dates : ComparedPair "start_date" "end_date"
  prices : ComparedPair "min_price" "max_price"
  discounts : ComparedPair "discounted_price" "original_price"

module _ {Number : Type 0} (py : Python Number) (payload : RecordPayload Number) where
  -- a text against a number
  abbrev pub Mixed : Content Number → Content Number → Type 0
  Mixed left right =
      ((s : String) × (n : Number) × (left ≡ text s) × ((right ≡ integer n) ⊎ (right ≡ float n)))
      ⊎ ((s : String) × (n : Number) × ((left ≡ integer n) ⊎ (left ≡ float n)) × (right ≡ text s))

  exceeds_value-Mixed :
      (left right : Content Number) → Mixed left right → exceeds_value py left right ≡ none
  unfolding exceeds_value
  exceeds_value-Mixed left right (inl (s, n, e, inl f)) = rw (e, f)
  exceeds_value-Mixed left right (inl (s, n, e, inr f)) = rw (e, f)
  exceeds_value-Mixed left right (inr (s, n, inl e, f)) = rw (e, f)
  exceeds_value-Mixed left right (inr (s, n, inr e, f)) = rw (e, f)

  not_null-Mixed :
      (left right : Content Number)
      → Mixed left right
      → (is_null py left || is_null py right) ≡ false
  not_null-Mixed left right (inl (s, n, e, inl f)) = rw (e, f)
  not_null-Mixed left right (inl (s, n, e, inr f)) = rw (e, f)
  not_null-Mixed left right (inr (s, n, inl e, f)) = rw (e, f)
  not_null-Mixed left right (inr (s, n, inr e, f)) = rw (e, f)

  check_pair-Mixed :
      (lower upper : String) (l r : Candidate Number)
      → entry py lower payload.fields ≡ some (some l)
      → entry py upper payload.fields ≡ some (some r)
      → Mixed l.value r.value
      → check_pair py payload lower upper ≡ none
  unfolding check_pair
  check_pair-Mixed lower upper l r e f m =
      rw (e, f, not_null-Mixed l.value r.value m, exceeds_value-Mixed l.value r.value m)

  maybe-none :
      {A B : Type 0} (o : Option A) (f : A → Option B)
      → ((a : A) → f a ≡ none)
      → maybe o none f ≡ none
  maybe-none none f h = refl
  maybe-none (some a) f h = h a

  record_rules-none :
      (lower upper : String) (plan_version : ℕ)
      → ComparedPair lower upper
      → check_pair py payload lower upper ≡ none
      → record_rules py plan_version payload ≡ none
  unfolding record_rules
  record_rules-none lower upper plan_version dates e = rw e
  record_rules-none lower upper plan_version prices e =
      maybe-none (check_pair py payload "start_date" "end_date") _ (λ a. rw e)
  record_rules-none lower upper plan_version discounts e =
      maybe-none (check_pair py payload "start_date" "end_date") _
        (λ a. maybe-none (check_pair py payload "min_price" "max_price") _ (λ b. rw e))

  -- A record that has a text and a number in a pair of fields that are compared is not judged: the
  -- comparison raises, whatever the plan and the other fields are.
  pub validate-Mixed :
      (plan_version : ℕ) (defs : List FieldDefinition) (lower upper : String)
      (l r : Candidate Number)
      → ComparedPair lower upper
      → entry py lower payload.fields ≡ some (some l)
      → entry py upper payload.fields ≡ some (some r)
      → Mixed l.value r.value
      → validate py plan_version defs payload ≡ none
  unfolding validate
  validate-Mixed plan_version defs lower upper l r pair e f m =
      let stopped =
        record_rules-none lower upper plan_version pair (check_pair-Mixed lower upper l r e f m) in
      maybe-none (validate_fields py payload defs) _ (λ fields. rw stopped)
