-- ===== src/Jira/Service.antt =====
-- src/modules/jira/jira.service.js
pub mod Comments
unfoldable pub use Comments.*
use Prim.Native.String
use gov_flow.Prelude.{
  ℕ, zero, suc, ◌+◌, String, Bool, true, false, not, ◌&&◌, ◌||◌, [], ◌∷◌, Option, none, some, leb,
  ltb, ◌==◌, if◌then◌else◌,
}
use gov_flow.Js.Text.{is_empty_text, includes}
use gov_flow.Js.Value.{
  Value, undefined, null, bool, num, str, arr, obj, Items, nil, cons, Fields, empty, field, pos,
  negsuc, whole, above, infinity, is_nullish, truthy, get, last_field, items, object, nat,
}
use gov_flow.Errors.{app_error, jira_business_error, jira_technical_error}
use gov_flow.Runtime.{
  Env, M, pure, throw, ◌>>=◌, ◌>>◌, call_jira, JiraSettings, JiraReply, get_myself, get_comments,
  post_comment, post_transition, answered, rejected, HttpFailure,
}
use gov_flow.Jira.Failures.{normalize_jira_error}

pub data Readiness : Type 0 where
  client_unavailable disabled not_configured : Readiness

unfoldable pub check_jira_readiness : JiraSettings → Option Readiness
check_jira_readiness s =
    if not s.client
    then some client_unavailable
    else if not s.enabled
    then some disabled
    else if is_empty_text s.base_url || is_empty_text s.email || is_empty_text s.api_token
    then some not_configured
    else none

unfoldable pub is_jira_ready : JiraSettings → Bool
is_jira_ready s =
    s.client
    && s.enabled
    && not (is_empty_text s.base_url)
    && not (is_empty_text s.email)
    && not (is_empty_text s.api_token)

abbrev pub require_ready : Option Readiness → M (Unit {0})
require_ready none = pure tt
require_ready (some client_unavailable) =
    throw (jira_technical_error "Jira client not available" none)
require_ready (some disabled) = throw (jira_business_error "Jira integration is disabled" 400)
require_ready (some not_configured) =
    throw (jira_technical_error "Jira integration is not configured" none)

unfoldable pub assert_jira_integration_ready : JiraSettings → M (Unit {0})
unfolding check_jira_readiness
assert_jira_integration_ready s = require_ready (check_jira_readiness s)

-- The error of reading a property of `undefined` or `null`.
abbrev pub type_error : HttpFailure
type_error = record {
  message = "Cannot read properties of undefined";
  code = none;
  response = none;
}

-- `response.id` and the like read a property of what came back.
abbrev pub body_of : JiraReply → String → M Value
body_of (answered v) operation =
    if is_nullish v then throw (normalize_jira_error type_error operation) else pure v
body_of (rejected f) operation = throw (normalize_jira_error f operation)

-- A reply of which nothing is read.
abbrev pub accept : JiraReply → String → M (Unit {0})
accept (answered v) operation = pure tt
accept (rejected f) operation = throw (normalize_jira_error f operation)

pub record FoundComment : Type 0 where
  pub comment_id : Value
  pub issue_key : String
  pub created : Value

pub record CommentResult : Type 0 where
  pub comment_id : Value
  pub issue_key : String
  pub self : Value
  pub created : Value

module _ (env : Env) where
  -- What follows the search of a page, with the lookup on the pages left.
  abbrev pub after_page :
      String → Value → ℕ → PageSearch → M (Option FoundComment) → M (Option FoundComment)
  after_page issue_key response next broken rest = pure none
  after_page issue_key response next (match c) rest =
      pure (
        some (record { comment_id = get "id" c; issue_key = issue_key; created = get "created" c }))
  after_page issue_key response next missing rest =
      if ltb (count_comments (get "comments" response)) comment_lookup_page_size
        || reaches next (get "total" response)
      then pure none
      else rest

  -- What the loop does with a reply; `rest` goes on from the comment with a number.
  abbrev pub after_reply :
      String → String → ℕ → JiraReply → (ℕ → M (Option FoundComment)) → M (Option FoundComment)
  after_reply issue_key marker start (rejected f) rest = pure none
  after_reply issue_key marker start (answered response) rest =
      let next = start + count_comments (get "comments" response) in
      after_page issue_key response next (search_comments marker (get "comments" response))
        (rest next)

  -- The pages that are left; whatever goes wrong on a page ends the lookup with no comment.
  unfoldable pub lookup_pages : ℕ → String → String → ℕ → M (Option FoundComment)
  lookup_pages zero issue_key marker start = pure none
  lookup_pages (suc pages) issue_key marker start = do
    reply ← call_jira env (get_comments issue_key comment_lookup_page_size start)
    after_reply issue_key marker start reply (lookup_pages pages issue_key marker)

  unfoldable pub find_comment_by_execution_step_marker : String → String → M (Option FoundComment)
  unfolding lookup_pages is_jira_ready build_execution_step_marker
  find_comment_by_execution_step_marker issue_key execution_step_id =
      if not (is_jira_ready env.jira_settings)
        || is_empty_text issue_key
        || is_empty_text execution_step_id
      then pure none
      else lookup_pages comment_lookup_max_pages issue_key
          (build_execution_step_marker execution_step_id) 0

  unfoldable pub add_comment_to_issue : String → String → M CommentResult
  add_comment_to_issue issue_key comment = do
    assert_jira_integration_ready env.jira_settings
    reply ← call_jira env (post_comment issue_key (build_jira_comment_body comment))
    response ← body_of reply "comment"
    pure (record {
      comment_id = get "id" response;
      issue_key = issue_key;
      self = get "self" response;
      created = get "created" response;
    })

  unfoldable pub transition_issue : String → String → M String
  transition_issue issue_key transition_id = do
    assert_jira_integration_ready env.jira_settings
    reply ← call_jira env (post_transition issue_key transition_id)
    accept reply "transition"
    pure "completed"

  -- `testConnection`
  unfoldable pub test_connection : M Value
  unfolding check_jira_readiness
  test_connection = elim (check_jira_readiness env.jira_settings) [
    | some client_unavailable ↦ throw (app_error "Jira client not available" 500)
    | some disabled ↦ throw (app_error "Jira integration is disabled" 400)
    | some not_configured ↦ throw (app_error "Jira integration is not configured" 500)
    | none ↦ do
      reply ← call_jira env get_myself
      user ← body_of reply "test connection"
      pure (
          obj (
            object (
              ("connected", bool true)
              ∷ ("accountId", get "accountId" user)
              ∷ ("displayName", get "displayName" user)
              ∷ ("emailAddress", get "emailAddress" user)
              ∷ [])))
  ]
