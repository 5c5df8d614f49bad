-- ===== src/Checks/Verdicts.antt =====
-- validation_service.py: how the status, the quality and the counts of a verdict hang together.
use web_data_extraction_engi.Prelude.{
  ℕ, ◌<◌, ◌≡◌, refl, ◌↔◌, inl, inr, Bool, true, false, not, ◌&&◌, ◌||◌, Bool-cases, List, [], ◌∷◌,
  ◌++◌, Option, none, some, String, maybe, arith, leb, str_eq, if◌then◌else◌, ◌∙◌,
}
use web_data_extraction_engi.Checks.{
  Python, Content, RuleStatus, Quality, Rule, RuleOutcome, FieldValidation, RecordValidation,
  RecordPayload, FieldDefinition, Candidate, Provenance, Evidence, given, entry, warning,
  exceeds_value, is_null, evidence_rule, normalization, required, type_rule, provenance_rule,
  cross_field, optional_missing, status_is, has_status, outcome, check_format, check_evidence,
  check_normalization, typed_normalization, overflows, field_rules, validate_field, validate_fields,
  check_pair, record_rules, field_outcomes, count_status, judge, validate, is_missing, candidate_of,
}

pub has_status-append :
    (status : RuleStatus) (xs ys : List RuleOutcome)
    → has_status status (xs ++ ys) ≡ (has_status status xs || has_status status ys)
has_status-append status [] ys = refl
has_status-append status (x ∷ xs) ys = ground (arith, has_status-append status xs ys)

-- no rule is left unresolved
record Resolved (rules : List RuleOutcome) : Type 0 where
  none_left : has_status RuleStatus.unresolved rules ≡ false

Resolved-nil : Resolved []
Resolved-nil = record { none_left = refl }

Resolved-append : (xs ys : List RuleOutcome) → Resolved xs → Resolved ys → Resolved (xs ++ ys)
Resolved-append xs ys h k = record {
  none_left = has_status-append RuleStatus.unresolved xs ys ∙ rw (h.none_left, k.none_left);
}

Resolved-other :
    (o : RuleOutcome) (rest : List RuleOutcome)
    → status_is o.status RuleStatus.unresolved ≡ false
    → Resolved rest
    → Resolved (o ∷ rest)
Resolved-other o rest e h = record { none_left = rw (e, h.none_left) }

Resolved-cons :
    (rule : Rule) (b : Bool) (rest : List RuleOutcome)
    → Resolved rest
    → Resolved (outcome rule b ∷ rest)
Resolved-cons rule true rest h = record { none_left = h.none_left }
Resolved-cons rule false rest h = record { none_left = h.none_left }

-- what holds of a result, if there is one
abbrev pub Sure : {A : Type 0} → (A → Type 0) → Option A → Type 0
Sure P none = Unit
Sure P (some a) = P a

pub always : {A : Type 0} (o : Option A) → Sure (λ a. Unit) o
always none = tt
always (some a) = tt

pub maybe-Sure :
    {A B : Type 0} {P : A → Type 0} (Q : B → Type 0) (o : Option A) (f : A → Option B)
    → Sure P o
    → ((a : A) → P a → Sure Q (f a))
    → Sure Q (maybe o none f)
maybe-Sure Q none f h k = tt
maybe-Sure Q (some a) f h k = k a h

maybe_cases :
    {A B : Type 0} (Q : B → Type 0) {f : A → B} {b : B} (o : Option A)
    → Q b
    → ((a : A) → Q (f a))
    → Q (maybe o b f)
maybe_cases Q none h k = h
maybe_cases Q (some a) h k = k a

module _ {Number : Type 0} (py : Python Number) where
  check_format-Resolved :
      (type_name : String) (value : Content Number) (rest : List RuleOutcome)
      → Resolved rest
      → Resolved (check_format py type_name value ∷ rest)
  unfolding check_format
  check_format-Resolved type_name value rest h =
      Resolved-other (check_format py type_name value) rest (ground arith) h

  check_evidence-Resolved : (e : Evidence) → Resolved (check_evidence py e ∷ [])
  unfolding check_evidence
  check_evidence-Resolved Evidence.absent = Resolved-other _ [] refl Resolved-nil
  check_evidence-Resolved Evidence.malformed = Resolved-cons evidence_rule false [] Resolved-nil
  check_evidence-Resolved (given (some s) (some l)) =
      Resolved-cons evidence_rule (leb (py.char_count s) 500 && not (str_eq l "")) [] Resolved-nil
  check_evidence-Resolved (given none l) = Resolved-cons evidence_rule false [] Resolved-nil
  check_evidence-Resolved (given (some s) none) = Resolved-cons evidence_rule false [] Resolved-nil

  check_normalization-Resolved :
      (d : FieldDefinition) (c : Candidate Number) (p : Option Provenance)
      → Sure Resolved (check_normalization py d c p)
  unfolding check_normalization
  check_normalization-Resolved d c p = by_raw c.raw p
    where
      by_raw :
          (raw : Option String) (p : Option Provenance)
          → Sure Resolved (
              maybe raw (some []) (λ r. maybe p none (λ q. some (
                outcome normalization
                  (py.equal (py.normalize r d.type_name q.canonical_url) c.value)
                ∷ []))))
      by_raw none p = Resolved-nil
      by_raw (some r) none = tt
      by_raw (some r) (some q) = Resolved-cons normalization _ [] Resolved-nil

  typed_normalization-Resolved :
      (d : FieldDefinition) (c : Candidate Number) (p : Option Provenance)
      → Sure Resolved (typed_normalization py d c p)
  unfolding typed_normalization
  typed_normalization-Resolved d c p = elim (Bool-cases (overflows py c.value)) [
    | inl e ↦ rw e tt
    | inr e ↦ rw e (check_normalization-Resolved d c p)
  ]

  field_rules-Resolved :
      (d : FieldDefinition) (c : Candidate Number) (p : Option Provenance)
      → Sure Resolved (field_rules py d c p)
  unfolding field_rules
  field_rules-Resolved d c p = elim (Bool-cases (is_missing py c.value)) [
    | inl missing ↦ rw missing (elim (Bool-cases d.is_required) [
      | inl r ↦ rw r (Resolved-cons required false [] Resolved-nil)
      | inr r ↦ rw r (
          Resolved-cons required true (warning optional_missing ∷ [])
            (Resolved-other (warning optional_missing) [] refl Resolved-nil))
    ])
    | inr present ↦ rw present (
        maybe-Sure Resolved (typed_normalization py d c p) _ (typed_normalization-Resolved d c p)
          λ rules h. Resolved-cons required true _ (
            Resolved-cons (type_rule d.type_name) _ _ (
              check_format-Resolved d.type_name c.value _
                (Resolved-append rules _ h (check_evidence-Resolved c.evidence)))))
  ]

  validate_field-Resolved :
      (payload : RecordPayload Number) (d : FieldDefinition)
      → Sure (λ f. Resolved f.rules) (validate_field py payload d)
  unfolding validate_field
  validate_field-Resolved payload d =
      maybe-Sure (λ (f : FieldValidation). Resolved f.rules)
        (field_rules py d (candidate_of py payload d) payload.provenance) _
        (field_rules-Resolved d (candidate_of py payload d) payload.provenance) (λ rules h. h)

  abbrev FieldsResolved : List FieldValidation → Type 0
  FieldsResolved fields = Resolved (field_outcomes fields)

  validate_fields-Resolved :
      (payload : RecordPayload Number) (defs : List FieldDefinition)
      → Sure FieldsResolved (validate_fields py payload defs)
  unfolding validate_fields
  validate_fields-Resolved payload [] = Resolved-nil
  validate_fields-Resolved payload (d ∷ defs) =
      maybe-Sure FieldsResolved (validate_field py payload d) _ (validate_field-Resolved payload d)
        λ field h.
          maybe-Sure FieldsResolved (validate_fields py payload defs) _
            (validate_fields-Resolved payload defs)
            λ fields k. Resolved-append field.rules (field_outcomes fields) h k

  check_pair-Resolved :
      (payload : RecordPayload Number) (lower upper : String)
      → Sure Resolved (check_pair py payload lower upper)
  unfolding check_pair
  check_pair-Resolved payload lower upper =
      by_entries (entry py lower payload.fields) (entry py upper payload.fields)
    where
      by_above :
          (above : Option Bool)
          → Sure Resolved (
              maybe above none
                (λ b. some (if b then outcome (cross_field lower upper) false ∷ [] else [])))
      by_above none = tt
      by_above (some true) = Resolved-cons (cross_field lower upper) false [] Resolved-nil
      by_above (some false) = Resolved-nil

      by_entries :
          (left right : Option (Option (Candidate Number)))
          → Sure Resolved (
              maybe left (some []) (λ l'. maybe right (some []) (λ r'. maybe l' none (λ l.
                maybe r' none (λ r.
                  if is_null py l.value || is_null py r.value
                  then some []
                  else maybe (exceeds_value py l.value r.value) none (λ above.
                    some (if above then outcome (cross_field lower upper) false ∷ [] else [])))))))
      by_entries none right = Resolved-nil
      by_entries (some l) none = Resolved-nil
      by_entries (some none) (some r) = tt
      by_entries (some (some l)) (some none) = tt
      by_entries (some (some l)) (some (some r)) =
          elim (Bool-cases (is_null py l.value || is_null py r.value)) [
            | inl n ↦ rw n Resolved-nil
            | inr n ↦ rw n (by_above (exceeds_value py l.value r.value))
          ]

  -- the first record rule is that of the provenance, which passes or fails
  abbrev Decided : List RuleOutcome → Type 0
  Decided rules =
      Resolved rules
      × ((has_status RuleStatus.pass rules || has_status RuleStatus.fail rules) ≡ true)

  provenance-Decided :
      (b : Bool) (rest : List RuleOutcome)
      → Resolved rest
      → Decided (outcome provenance_rule b ∷ rest)
  provenance-Decided true rest h = (record { none_left = h.none_left }, refl)
  provenance-Decided false rest h = (record { none_left = h.none_left }, ground arith)

  record_rules-Decided :
      (plan_version : ℕ) (payload : RecordPayload Number)
      → Sure Decided (record_rules py plan_version payload)
  unfolding record_rules
  record_rules-Decided plan_version payload =
      maybe-Sure Decided (check_pair py payload "start_date" "end_date") _
        (check_pair-Resolved payload "start_date" "end_date")
        λ dates h.
          maybe-Sure Decided (check_pair py payload "min_price" "max_price") _
            (check_pair-Resolved payload "min_price" "max_price")
            λ prices k.
              maybe-Sure Decided (check_pair py payload "discounted_price" "original_price") _
                (check_pair-Resolved payload "discounted_price" "original_price")
                λ discounts l. provenance-Decided _ (dates ++ (prices ++ discounts)) (
                  Resolved-append dates (prices ++ discounts) h
                    (Resolved-append prices discounts k l))

count_status-has :
    (status : RuleStatus) (rules : List RuleOutcome)
    → (has_status status rules ≡ true) ↔ (0 < count_status status rules)
count_status-has status [] = ((λ h. cc h), (λ h. absurd (omega arith)))
count_status-has status (r ∷ rules) =
    let (there, back) = count_status-has status rules in
    elim (Bool-cases (status_is r.status status)) [
      | inl e ↦ rw e ((λ h. omega arith), (λ h. refl))
      | inr e ↦ rw e (there, back)
    ]

-- The verdicts that a validation gives: one row for each status, with its quality and the counts that
-- make it.
pub data Verdict (v : RecordValidation) : Type 0 where
  failing :
      v.status ≡ RuleStatus.fail → v.quality ≡ Quality.invalid → 0 < v.summary.failed → Verdict v
  warning_only :
      v.status ≡ RuleStatus.warn
      → v.quality ≡ Quality.medium
      → v.summary.failed ≡ 0
      → 0 < v.summary.warned
      → Verdict v
  clean :
      v.status ≡ RuleStatus.pass
      → v.quality ≡ Quality.high
      → v.summary.failed ≡ 0
      → v.summary.warned ≡ 0
      → 0 < v.summary.passed
      → Verdict v

count_status-none :
    (status : RuleStatus) (rules : List RuleOutcome)
    → has_status status rules ≡ false
    → count_status status rules ≡ 0
count_status-none status [] h = refl
count_status-none status (r ∷ rules) h = ground (arith, count_status-none status rules)

or_elim : (a b : Bool) → (a || b) ≡ true → b ≡ false → a ≡ true
or_elim true b h k = refl
or_elim false b h k = cc (h, k)

module _ (fields : List FieldValidation) (rules : List RuleOutcome) where
  abbrev outcomes : List RuleOutcome
  outcomes = field_outcomes fields ++ rules

  judge-Verdict :
      has_status RuleStatus.unresolved outcomes ≡ false
      → (has_status RuleStatus.pass outcomes || has_status RuleStatus.fail outcomes) ≡ true
      → Verdict (judge fields rules) × ((judge fields rules).summary.unresolved ≡ 0)
  unfolding judge
  judge-Verdict u d = (
    elim (Bool-cases (has_status RuleStatus.fail outcomes)) [
      | inl f ↦ failing (rw f refl) (rw f refl) ((count_status-has RuleStatus.fail outcomes).0 f)
      | inr f ↦ elim (Bool-cases (has_status RuleStatus.warn outcomes)) [
        | inl n ↦
            warning_only (rw (f, u, n) refl) (rw (f, u, n) refl)
              (count_status-none RuleStatus.fail outcomes f)
              ((count_status-has RuleStatus.warn outcomes).0 n)
        | inr n ↦
            let p = or_elim _ _ d f in
            clean (rw (f, u, n, p) refl) (rw (f, u, n) refl)
              (count_status-none RuleStatus.fail outcomes f)
              (count_status-none RuleStatus.warn outcomes n)
              ((count_status-has RuleStatus.pass outcomes).0 p)
      ]
    ],
    count_status-none RuleStatus.unresolved outcomes u,
  )

has_decided :
    (xs ys : List RuleOutcome)
    → (has_status RuleStatus.pass ys || has_status RuleStatus.fail ys) ≡ true
    → (has_status RuleStatus.pass (xs ++ ys) || has_status RuleStatus.fail (xs ++ ys)) ≡ true
has_decided xs ys h =
    ground (arith, has_status-append RuleStatus.pass xs ys, has_status-append RuleStatus.fail xs ys)

abbrev Good : RecordValidation → Type 0
Good v = Verdict v × (v.summary.unresolved ≡ 0)

pub Sure-some : {A : Type 0} (P : A → Type 0) (o : Option A) (a : A) → Sure P o → o ≡ some a → P a
Sure-some P none a h e = cc e
Sure-some P (some b) a h e = let same : b ≡ a = cc e in rw (← same) h

-- Every record that is judged gets one of three verdicts. It is FAIL and INVALID with at least one
-- failed rule; or WARN and MEDIUM with no failed rule and a warning; or PASS and HIGH with neither, and
-- a rule that passed. No rule is ever UNRESOLVED, so no record is UNRESOLVED, SKIPPED or of LOW quality.
pub validate-Verdict :
    {Number : Type 0} (py : Python Number) (plan_version : ℕ) (defs : List FieldDefinition)
    (payload : RecordPayload Number) (v : RecordValidation)
    → validate py plan_version defs payload ≡ some v
    → Verdict v × (v.summary.unresolved ≡ 0)
unfolding validate
validate-Verdict py plan_version defs payload v = Sure-some Good _ v (
    maybe-Sure Good (validate_fields py payload defs) _ (validate_fields-Resolved py payload defs)
      λ fields h.
        maybe-Sure Good (record_rules py plan_version payload) _
          (record_rules-Decided py plan_version payload)
          λ rules k.
            judge-Verdict fields rules
              ((Resolved-append (field_outcomes fields) rules h k.0).none_left)
              (has_decided (field_outcomes fields) rules k.1))
