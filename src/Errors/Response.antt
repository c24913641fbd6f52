-- ===== src/Errors/Response.antt =====
-- What a client is told: src/utils/apiResponse.js, src/middlewares/error.middleware.js and
-- src/middlewares/not-found.middleware.js.
pub mod Hidden
use Prim.Native.String.{◌++◌}
use gov_flow.Prelude.{
  String, Bool, true, false, ◌&&◌, ◌||◌, List, [], ◌∷◌, Option, none, some, leb, ltb, ◌==◌,
  if◌then◌else◌,
}
use gov_flow.Js.Value.{
  Value, undefined, null, bool, num, str, arr, obj, whole, pos, Items, nil, cons, Fields, object,
  append_fields, is_true, truthy, or_value, nat,
}
use gov_flow.Errors.{Error, FieldError, app_error}

-- The status and the JSON body of a response; a field that is undefined is not sent.
pub record Reply : Type 0 where
  pub status : Value
  pub body : Value

-- A parameter with a default, as in `{ status = 200 } = {}`
abbrev pub or_default : Value → Value → Value
or_default undefined d = d
or_default v d = v

unfoldable pub success_response : Value → Value → Value → Reply
success_response message content status = record {
  status = or_default status (nat 200);
  body = obj (
      object (
        ("success", bool true)
        ∷ ("message", or_default message (str "Request completed successfully"))
        ∷ ("data", or_default content null)
        ∷ []));
}

unfoldable pub created_response : Value → Value → Reply
created_response message content =
    success_response (or_default message (str "Resource created successfully"))
      (or_default content null) (nat 201)

unfoldable pub paginated_response : Value → Value → Value → Value → Reply
paginated_response message content pagination status = record {
  status = or_default status (nat 200);
  body = obj (
      object (
        ("success", bool true)
        ∷ ("message", or_default message (str "Resources retrieved successfully"))
        ∷ ("data", or_default content (arr nil))
        ∷ ("pagination", pagination)
        ∷ []));
}

-- `if (value) { response.key = value }`
abbrev pub when_truthy : String → Value → List (String × Value)
when_truthy key v = if truthy v then (key, v) ∷ [] else []

unfoldable pub error_response : Value → Value → Value → Value → Reply
error_response message status errors details = record {
  status = or_default status (nat 500);
  body = obj (
      append_fields
        (object (
          ("success", bool false)
          ∷ ("message", or_default message (str "Internal server error"))
          ∷ []))
        (append_fields (object (when_truthy "errors" (or_default errors null)))
          (object (when_truthy "details" details))));
}

-- What the middleware reads of a value that was thrown, each undefined if the value lacks it
pub record Thrown : Type 0 where
  pub name : Value
  pub message : Value
  pub stack : Value
  pub status_code : Value
  pub errors : Value
  pub is_operational : Value
  pub expose : Value

-- `Number.isInteger(statusCode) && statusCode >= 400 && statusCode < 500`
abbrev pub is_client_status : Value → Bool
is_client_status (num (whole (pos n))) = leb 400 n && ltb n 500
is_client_status v = false

abbrev pub is_operational_error : Thrown → Bool
is_operational_error e = is_true e.is_operational

abbrev pub is_exposable_http_client_error : Thrown → Bool
is_exposable_http_client_error e = is_true e.expose && is_client_status e.status_code

abbrev pub is_client_safe : Thrown → Bool
is_client_safe e = is_operational_error e || is_exposable_http_client_error e

unfoldable pub error_middleware : String → Thrown → Reply
unfolding error_response
error_middleware node_env e =
    error_response (if is_client_safe e then e.message else str "Internal server error")
      (if is_client_safe e then or_value e.status_code (nat 500) else nat 500)
      (if is_operational_error e then e.errors else undefined)
      (if node_env == "development"
        then obj (object (("name", e.name) ∷ ("message", e.message) ∷ ("stack", e.stack) ∷ []))
        else undefined)

abbrev pub error_items : List FieldError → Items
error_items [] = nil
error_items (e ∷ es) =
    cons (obj (object (("field", str e.field) ∷ ("message", str e.message) ∷ []))) (error_items es)

-- `errors`, null on an error that was made without any
abbrev pub errors_value : List FieldError → Value
errors_value [] = null
errors_value es = arr (error_items es)

-- An error of the services as the middleware meets it, with the name and the stack that the engine
-- gives it. None of them has a mark `expose`.
abbrev pub thrown_of : (name stack : Value) → Error → Thrown
thrown_of name stack e = record {
  name = name;
  message = str e.message;
  stack = stack;
  status_code = elim e.status_code [ none ↦ undefined | some s ↦ nat s ];
  errors = errors_value e.errors;
  is_operational = if e.is_operational then bool true else undefined;
  expose = undefined;
}

abbrev pub not_found : String → Error
not_found original_url = app_error ("Route " ++ (original_url ++ " not found")) 404
