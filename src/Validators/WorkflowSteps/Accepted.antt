-- ===== src/Validators/WorkflowSteps/Accepted.antt =====
-- What the creation of a step lets through, and what the handlers ask of it.
use gov_flow.Prelude.{
  append_empty, String, Bool, true, false, ◌≡◌, refl, sym, ◌∙◌, ap, List, [], arith, ◌⊎◌, inl, inr,
  ◌==◌, eq_iff, if◌then◌else◌, Bool-cases,
}
use gov_flow.Errors.{FieldError}
use gov_flow.Js.Value.{Value, str}
use gov_flow.Validators.WorkflowSteps.{
  StepPayload, validate_create_workflow_step, validate_action_type, is_action_type,
  validate_action_configuration, validate_configuration, validate_name, validate_jira_comment,
  validate_jira_transition,
}

-- An action type with a configuration that its handler accepts
abbrev pub IsRunnable : String → Value → Type 0
IsRunnable t configuration =
    (t ≡ "MANUAL")
    ⊎ (t ≡ "NOTIFICATION")
    ⊎ ((t ≡ "JIRA_COMMENT") × (validate_jira_comment configuration ≡ []))
    ⊎ ((t ≡ "JIRA_TRANSITION") × (validate_jira_transition configuration ≡ []))

action_type_text :
    (v : Value)
    → validate_action_type v ≡ []
    → (t : String) × (v ≡ str t) × (is_action_type t ≡ true)
unfolding validate_action_type
action_type_text (str t) e = (t, refl, ground arith)
action_type_text _ e = cc

runnable :
    (t : String) (configuration : Value)
    → is_action_type t ≡ true
    → validate_action_configuration (str t) configuration ≡ []
    → IsRunnable t configuration
unfolding is_action_type validate_action_configuration
runnable t configuration e c = elim (Bool-cases (t == "JIRA_COMMENT")) [
  | inl b ↦ inr (inr (inl ((eq_iff t "JIRA_COMMENT").0 b, sym (taken b) ∙ parts.0)))
  | inr b ↦ elim (Bool-cases (t == "JIRA_TRANSITION")) [
    | inl b2 ↦ inr (inr (inr ((eq_iff t "JIRA_TRANSITION").0 b2, sym (taken b2) ∙ parts.1)))
    | inr b2 ↦ elim (Bool-cases (t == "MANUAL")) [
      | inl b3 ↦ inl ((eq_iff t "MANUAL").0 b3)
      | inr b3 ↦ inr (inl ((eq_iff t "NOTIFICATION").0 (sym (remaining b b2 b3) ∙ e)))
    ]
  ]
]
  where
    parts :
        ((if t == "JIRA_COMMENT" then validate_jira_comment configuration else []) ≡ [])
        × ((if t == "JIRA_TRANSITION" then validate_jira_transition configuration else []) ≡ [])
    parts = append_empty _ _ c

    taken : {b : Bool} {xs : List FieldError} → b ≡ true → (if b then xs else []) ≡ xs
    taken e2 = rw e2 refl

    remaining :
        (t == "JIRA_COMMENT") ≡ false
        → (t == "JIRA_TRANSITION") ≡ false
        → (t == "MANUAL") ≡ false
        → is_action_type t ≡ (t == "NOTIFICATION")
    remaining b b2 b3 = rw (b, b2, b3) refl

-- A payload that `validateCreateWorkflowStep` accepts has one of the four action types, and for a
-- comment or a transition a configuration in which the check that the handler of that type makes
-- before it calls Jira finds no error.
pub validate_create_workflow_step-IsRunnable :
    (p : StepPayload)
    → validate_create_workflow_step p ≡ []
    → (t : String) × (p.action_type ≡ str t) × IsRunnable t p.configuration
unfolding validate_create_workflow_step
validate_create_workflow_step-IsRunnable p e =
    let rest =
      (append_empty _ _ (append_empty _ _ (append_empty (validate_name p.name) _ e).1).1).1 in
    let typed = append_empty (validate_action_type p.action_type) _ rest in
    let text = action_type_text p.action_type typed.0 in
    let configured = append_empty (validate_configuration p.configuration) _ typed.1 in
    (
      text.0,
      text.1,
      runnable text.0 p.configuration text.2
          (ap (λ v. validate_action_configuration v p.configuration) (sym text.1) ∙ configured.1),
    )
