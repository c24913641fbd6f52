-- ===== src/Examples/Jira.antt =====
-- The theorems on Jira and on what a client is told of a failure, at concrete requests.
use gov_flow.Prelude.{true, false, refl, ◌≡◌, none, some, ◌⊎◌}
use gov_flow.Js.Value.{undefined, str, nat, bool}
use gov_flow.Runtime.{HttpFailure, ok, err}
use gov_flow.Errors.{Error}
use gov_flow.Jira.Readiness.{IsRefused, assert_jira_integration_ready-is_jira_ready}
use gov_flow.Jira.Service.{
  is_jira_ready, assert_jira_integration_ready, build_execution_step_marker,
  find_comment_by_execution_step_marker,
}
use gov_flow.Jira.Lookup.{IsLookup, find_comment-IsLookup}
use gov_flow.Examples.World.{quiet, pending_world, ready_settings}
use gov_flow.Jira.Failures.{has_code, normalize_jira_error}
use gov_flow.Errors.Response.{Thrown, thrown_of, error_middleware}
use gov_flow.Errors.Response.Hidden.{internal_error, IsExposed, error_middleware-hides}
use gov_flow.Jira.Failures.Hidden.{normalize_jira_error-hides}
use gov_flow.Jira.Failures.Classes.{
  IsRejection, IsBusiness, IsTechnical, IsTransient, IsCoded, status_of,
  normalize_jira_error-classes,
}

abbrev conflict : HttpFailure
conflict = record { message = "Request failed"; code = none; response = some (409, undefined) }

-- The same as axios reports it, with its own code for a status from 400 to 499
abbrev coded_conflict : HttpFailure
coded_conflict = record conflict { code = some "ERR_BAD_REQUEST" }

normalize_jira_error-classes_example :
    (IsRejection coded_conflict coded_conflict.response
      × IsBusiness
          (status_of coded_conflict.response)
          (normalize_jira_error coded_conflict "comment"))
    ⊎ ((¬ IsRejection coded_conflict coded_conflict.response)
        × (IsTransient coded_conflict.response ⊎ IsCoded coded_conflict coded_conflict.response)
        × IsTechnical (normalize_jira_error coded_conflict "comment"))
normalize_jira_error-classes_example = normalize_jira_error-classes coded_conflict "comment"

abbrev worded_conflict : HttpFailure
worded_conflict = record conflict {
  message = "Conflict at https://jira.example";
  response = some (409, str "the issue is locked");
}

same_code : has_code conflict ≡ has_code worded_conflict
unfolding has_code
same_code = refl

normalize_jira_error-hides_example :
    error_middleware "production"
      (thrown_of undefined undefined (normalize_jira_error conflict "comment"))
    ≡ error_middleware "production"
        (thrown_of undefined (str "at jira") (normalize_jira_error worded_conflict "comment"))
normalize_jira_error-hides_example =
    normalize_jira_error-hides "production" conflict worded_conflict "comment" undefined undefined
      undefined (str "at jira") refl refl same_code

-- A body that the JSON parser of Express refuses
abbrev refused_body : Thrown
refused_body = record {
  name = str "SyntaxError";
  message = str "Unexpected token";
  stack = str "at parse";
  status_code = nat 400;
  errors = undefined;
  is_operational = undefined;
  expose = bool true;
}

error_middleware-hides_example :
    (error_middleware "production" refused_body ≡ internal_error)
    ⊎ (refused_body.is_operational ≡ bool true)
    ⊎ IsExposed refused_body (error_middleware "production" refused_body)
error_middleware-hides_example = error_middleware-hides "production" refused_body refl

find_comment-IsLookup_example :
    IsLookup quiet "GOV-7"
      (build_execution_step_marker "s2")
      3
      pending_world
      (find_comment_by_execution_step_marker quiet "GOV-7" "s2" pending_world)
find_comment-IsLookup_example = find_comment-IsLookup quiet "GOV-7" "s2" pending_world

assert_jira_integration_ready-is_jira_ready_example :
    ((is_jira_ready ready_settings ≡ true)
      × (assert_jira_integration_ready ready_settings pending_world ≡ (ok tt, pending_world)))
    ⊎ ((is_jira_ready ready_settings ≡ false)
        × (e : Error) × (assert_jira_integration_ready ready_settings pending_world
            ≡ (err e, pending_world))
        × IsRefused ready_settings e)
assert_jira_integration_ready-is_jira_ready_example =
    assert_jira_integration_ready-is_jira_ready ready_settings pending_world
