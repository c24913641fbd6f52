-- ===== src/Jira/Lookup.antt =====
-- The lookup of a comment by its marker: it only reads, and it always comes back.
use gov_flow.Prelude.{
  ℕ, zero, suc, ◌≤◌, ◌≡◌, refl, ◌∙◌, ap, String, ◌||◌, not, List, [], ◌∷◌, ◌++◌, Option, none, some,
  length, All, arith, ltb, inl, inr, Bool-cases,
}
use gov_flow.Js.Text.{is_empty_text}
use gov_flow.Js.Value.{Value, get}
use gov_flow.Runtime.{
  Env, World, M, Result, ok, JiraRequest, get_comments, JiraReply, answered, rejected, call_jira,
  pure, ◌>>=◌,
}
use gov_flow.Jira.Service.{
  FoundComment, PageSearch, broken, missing, match, search_comments, count_comments, reaches,
  comment_lookup_page_size, after_page, after_reply, lookup_pages, build_execution_step_marker,
  is_jira_ready, find_comment_by_execution_step_marker,
}

-- A page of the issue's comments that Jira gave and in which the search for the marker ends at a
-- comment with this identifier.
pub record IsFromJira (env : Env) (key marker : String) (c : FoundComment) : Type 0 where
  pub tick : ℕ
  pub start : ℕ
  pub response : Value
  pub comment : Value
  pub gave : env.jira tick (get_comments key comment_lookup_page_size start) ≡ answered response
  pub matches : search_comments marker (get "comments" response) ≡ match comment
  pub same_issue : c.issue_key ≡ key
  pub same_id : c.comment_id ≡ get "id" comment

abbrev pub IsSound : Env → String → String → Option FoundComment → Type 0
IsSound env key marker none = Unit {0}
IsSound env key marker (some c) = IsFromJira env key marker c

-- A request for one page of the comments of an issue
abbrev pub IsRead : String → JiraRequest → Type 0
IsRead key r = (start : ℕ) × (r ≡ get_comments key comment_lookup_page_size start)

-- A lookup of at most so many pages: what it returns, and the world that it leaves.
pub record IsLookup (env : Env) (key marker : String) (pages : ℕ) (w : World)
    (r : Result (Option FoundComment) × World) : Type 0 where
  pub found : Option FoundComment
  pub returns : r.0 ≡ ok found
  pub sound : IsSound env key marker found
  pub same_db : r.1.db ≡ w.db
  pub calls : List JiraRequest
  pub reads : All (IsRead key) calls
  pub bounded : length calls ≤ pages
  pub logged : r.1.jira_calls ≡ w.jira_calls ++ calls

append_nil : (xs : List JiraRequest) → xs ≡ xs ++ []
append_nil [] = refl
append_nil (x ∷ xs) = ap (λ l. x ∷ l) (append_nil xs)

append_assoc : (xs ys zs : List JiraRequest) → (xs ++ ys) ++ zs ≡ xs ++ (ys ++ zs)
append_assoc [] ys zs = refl
append_assoc (x ∷ xs) ys zs = ap (λ l. x ∷ l) (append_assoc xs ys zs)

module _ (env : Env) (key marker : String) where
  no_call :
      (pages : ℕ) (w : World) (o : Option FoundComment)
      → IsSound env key marker o
      → IsLookup env key marker pages w (ok o, w)
  no_call pages w o sound = record {
    found = o;
    returns = refl;
    sound = sound;
    same_db = refl;
    calls = [];
    reads = tt;
    bounded = omega arith;
    logged = append_nil w.jira_calls;
  }

  abbrev after_call : ℕ → World → World
  after_call start w = (call_jira env (get_comments key comment_lookup_page_size start) w).1

  one_call :
      (pages start : ℕ) (w : World) (r : Result (Option FoundComment) × World)
      → IsLookup env key marker pages (after_call start w) r
      → IsLookup env key marker (suc pages) w r
  unfolding call_jira
  one_call pages start w r h = record {
    found = h.found;
    returns = h.returns;
    sound = h.sound;
    same_db = h.same_db;
    calls = get_comments key comment_lookup_page_size start ∷ h.calls;
    reads = ((start, refl), h.reads);
    bounded = omega (arith, h.bounded);
    logged = h.logged ∙ append_assoc w.jira_calls _ h.calls;
  }

  after_page-IsLookup :
      (tick pages start next : ℕ) (response : Value) (w : World) (rest : M (Option FoundComment))
      → env.jira tick (get_comments key comment_lookup_page_size start) ≡ answered response
      → IsLookup env key marker pages w (rest w)
      → (s : PageSearch) → search_comments marker (get "comments" response) ≡ s
      → IsLookup env key marker pages w (after_page env key response next s rest w)
  unfolding pure
  after_page-IsLookup tick pages start next response w rest gave h broken e =
      no_call pages w none tt
  after_page-IsLookup tick pages start next response w rest gave h missing e =
      elim (Bool-cases (
        ltb (count_comments (get "comments" response)) comment_lookup_page_size
        || reaches next (get "total" response))) [
          | inl b ↦ rw b (no_call pages w none tt)
          | inr b ↦ rw b h
        ]
  after_page-IsLookup tick pages start next response w rest gave h (match c) e =
      no_call pages w _ (record {
        tick = tick;
        start = start;
        response = response;
        comment = c;
        gave = gave;
        matches = e;
        same_issue = refl;
        same_id = refl;
      })

  after_reply-IsLookup :
      (tick pages start : ℕ) (w : World) (rest : ℕ → M (Option FoundComment))
      → ((n : ℕ) → IsLookup env key marker pages w (rest n w))
      → (reply : JiraReply)
      → env.jira tick (get_comments key comment_lookup_page_size start) ≡ reply
      → IsLookup env key marker pages w (after_reply env key marker start reply rest w)
  unfolding pure
  after_reply-IsLookup tick pages start w rest h (rejected f) e = no_call pages w none tt
  after_reply-IsLookup tick pages start w rest h (answered response) e =
      after_page-IsLookup tick pages start _ response w _ e (h _) _ refl

  lookup_pages-IsLookup :
      (pages start : ℕ) (w : World)
      → IsLookup env key marker pages w (lookup_pages env pages key marker start w)
  unfolding lookup_pages pure ◌>>=◌ call_jira
  lookup_pages-IsLookup zero start w = no_call zero w none tt
  lookup_pages-IsLookup (suc pages) start w = one_call pages start w _ (
      after_reply-IsLookup w.ticks pages start (after_call start w) _
        (λ n. lookup_pages-IsLookup pages n (after_call start w)) _ refl)

-- Whatever Jira answers, fails at or is set up like, the lookup of a step's comment returns (it
-- throws nothing), leaves the database alone, and makes at most three calls of Jira, each of which
-- reads a page of the comments of that issue. If it returns a comment, then Jira gave a page in
-- which the search for the step's marker ends at a comment with that identifier.
pub find_comment-IsLookup :
    (env : Env) (key id : String) (w : World)
    → IsLookup env key
        (build_execution_step_marker id)
        3
        w
        (find_comment_by_execution_step_marker env key id w)
unfolding find_comment_by_execution_step_marker pure
find_comment-IsLookup env key id w =
    elim (Bool-cases
      (not (is_jira_ready env.jira_settings) || is_empty_text key || is_empty_text id)) [
        | inl b ↦ rw b (no_call env key (build_execution_step_marker id) 3 w none tt)
        | inr b ↦ rw b (lookup_pages-IsLookup env key (build_execution_step_marker id) 3 0 w)
      ]
