-- ===== src/Validators/AuditLogs.antt =====
-- src/validators/auditLogs.validator.js, the part that checks an entry before it is written
use gov_flow.Prelude.{String, Bool, ◌||◌, List, [], ◌++◌, ◌==◌, if◌then◌else◌}
use gov_flow.Errors.{FieldError}
use gov_flow.Js.Value.{Value, undefined, null, str}
use gov_flow.Validators.Common.{field_error, required_text, optional_text, optional_object}
use gov_flow.Validators.Uuid.{is_valid_uuid}

pub record AuditPayload : Type 0 where
  pub action : Value
  pub entity : Value
  pub entity_id : Value
  pub actor_id : Value
  pub metadata : Value

unfoldable pub validate_action : Value → List FieldError
unfolding required_text
validate_action action = required_text "action" "Action" 100 "100" action

unfoldable pub validate_entity : Value → List FieldError
unfolding required_text
validate_entity entity = required_text "entity" "Entity" 100 "100" entity

unfoldable pub validate_entity_id : Value → List FieldError
unfolding optional_text
validate_entity_id entity_id = optional_text "entityId" "Entity ID" 100 "100" entity_id

unfoldable pub validate_actor_id : Value → List FieldError
validate_actor_id undefined = []
validate_actor_id null = []
validate_actor_id (str s) = []
validate_actor_id v = field_error "actorId" "Actor ID must be a string"

unfoldable pub validate_metadata : Value → List FieldError
unfolding optional_object
validate_metadata metadata = optional_object "metadata" "Metadata" metadata

unfoldable pub validate_create_audit_log : AuditPayload → List FieldError
unfolding validate_action validate_entity validate_entity_id validate_actor_id validate_metadata
validate_create_audit_log p =
    validate_action p.action
    ++ (validate_entity p.entity
        ++ (validate_entity_id p.entity_id
            ++ (validate_actor_id p.actor_id ++ validate_metadata p.metadata)))

-- `MANUAL_AUDIT_LOG_ACTIONS.includes(action)`
unfoldable pub is_manual_action : String → Bool
is_manual_action a =
    a == "MANUAL_NOTE" || a == "MANUAL_REVIEW" || a == "MANUAL_CORRECTION" || a == "MANUAL_OVERRIDE"

unfoldable pub validate_manual_action : Value → List FieldError
unfolding is_manual_action
validate_manual_action undefined = field_error "action" "Action is required"
validate_manual_action null = field_error "action" "Action is required"
validate_manual_action (str a) =
    if is_manual_action a
    then []
    else field_error "action"
        "Action must be one of: MANUAL_NOTE, MANUAL_REVIEW, MANUAL_CORRECTION, MANUAL_OVERRIDE"
validate_manual_action v = field_error "action" "Action must be a string"

unfoldable pub validate_required_actor_id : Value → List FieldError
unfolding is_valid_uuid
validate_required_actor_id undefined = field_error "actorId" "Actor ID is required"
validate_required_actor_id null = field_error "actorId" "Actor ID is required"
validate_required_actor_id (str s) =
    if is_valid_uuid s then [] else field_error "actorId" "Actor ID must be a valid UUID"
validate_required_actor_id v = field_error "actorId" "Actor ID must be a valid UUID"

unfoldable pub validate_create_manual_audit_log : AuditPayload → List FieldError
unfolding validate_manual_action validate_entity validate_entity_id validate_required_actor_id
    validate_metadata
validate_create_manual_audit_log p =
    validate_manual_action p.action
    ++ (validate_entity p.entity
        ++ (validate_entity_id p.entity_id
            ++ (validate_required_actor_id p.actor_id ++ validate_metadata p.metadata)))
