-- ===== src/Jira/Service/Comments.antt =====
-- The comments of an issue in src/modules/jira/jira.service.js: the body of a new one, the marker of
-- a step, and the search of a page for that marker.
use Prim.Native.String
use gov_flow.Prelude.{
  ℕ, suc, String, Bool, true, false, [], ◌∷◌, none, some, leb, ltb, ◌==◌, if◌then◌else◌,
}
use gov_flow.Js.Text.{includes}
use gov_flow.Js.Value.{
  Value, undefined, null, num, str, arr, obj, Items, nil, cons, Fields, empty, field, pos, negsuc,
  whole, above, infinity, is_nullish, truthy, get, last_field, items, object, nat,
}

unfoldable pub build_jira_comment_body : String → Value
build_jira_comment_body text = obj (
    object (
      ("type", str "doc")
      ∷ ("version", nat 1)
      ∷ (
        "content",
        arr (
            items (
              obj (
                object (
                  ("type", str "paragraph")
                  ∷ (
                    "content",
                    arr (
                        items (obj (object (("type", str "text") ∷ ("text", str text) ∷ [])) ∷ [])),
                  )
                  ∷ []))
              ∷ [])),
      )
      ∷ []))

unfoldable pub build_execution_step_marker : String → String
build_execution_step_marker id = String.◌++◌ "GovFlow executionStepId: " id

-- `extractAdfPlainText`, over the fields from the last to the first where a key counts
unfoldable mutual
  pub adf_text : Value → String
  adf_text (obj fs) = elim (last_field "text" fs) [ some (str s) ↦ s | _ ↦ adf_content fs ]
  adf_text (arr xs) = ""
  adf_text v = ""

  pub adf_content : Fields → String
  adf_content empty = ""
  adf_content (field k v fs) =
      let later = adf_content fs in
      let here = adf_children v in
      elim (last_field "content" fs) [ some w ↦ later | none ↦ if k == "content" then here else "" ]

  pub adf_children : Value → String
  adf_children (arr xs) = adf_items xs
  adf_children v = ""

  pub adf_items : Items → String
  adf_items nil = ""
  adf_items (cons x xs) = String.◌++◌ (adf_text x) (adf_items xs)

-- What the search of one page comes to: an exception, no comment, or the first that matches.
pub data PageSearch : Type 0 where
  broken : PageSearch
  missing : PageSearch
  match : Value → PageSearch

-- `comments.find((comment) => extractAdfPlainText(comment.body).includes(marker))`
unfoldable pub search_items : String → Items → PageSearch
unfolding adf_text includes
search_items marker nil = missing
search_items marker (cons c rest) =
    let later = search_items marker rest in
    if is_nullish c
    then broken
    else if includes marker (adf_text (get "body" c))
    then match c
    else later

unfoldable pub search_comments : String → Value → PageSearch
unfolding search_items
search_comments marker (arr xs) = search_items marker xs
search_comments marker v = if truthy v then broken else missing

abbrev pub count_items : Items → ℕ
count_items nil = 0
count_items (cons x xs) = suc (count_items xs)

abbrev pub count_comments : Value → ℕ
count_comments (arr xs) = count_items xs
count_comments v = 0

-- `startAt >= total`, where Jira gives a total it is a number
abbrev pub reaches : ℕ → Value → Bool
reaches start (num (whole (pos n))) = leb n start
reaches start (num (whole (negsuc n))) = true
reaches start (num (above (pos n))) = ltb n start
reaches start (num (above (negsuc n))) = true
reaches start (num infinity) = false
reaches start (num v) = false
reaches start undefined = true
reaches start null = true
reaches start v = false

abbrev pub comment_lookup_page_size : ℕ
comment_lookup_page_size = 50

abbrev pub comment_lookup_max_pages : ℕ
comment_lookup_max_pages = 3
