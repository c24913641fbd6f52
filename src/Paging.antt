-- ===== src/Paging.antt =====
-- The paging that the list services share: `page` and `limit` of the query string, the two queries,
-- and the `pagination` of the response.

pub mod Pages
pub mod Steady
pub mod Reads
use gov_flow.Prelude.{
  ℕ, zero, suc, String, Bool, true, List, [], ◌∷◌, Option, none, some, length, if◌then◌else◌,
}
use gov_flow.Js.Value.{Value, undefined, Number, whole, pos, nat}
use gov_flow.Js.Number.{to_number, or_number, at_least_one, at_most, before, times, ceil_div}
use gov_flow.Database.{Db}
use gov_flow.Executions.Repository.{limit_to}
use gov_flow.Runtime.{Env, M, Result, ok, err, pure, ◌>>=◌, query}
use gov_flow.Runtime.Insert.{bigint, invalid_bigint, skip}

pub record Paging : Type 0 where
  pub page : Number
  pub limit : Number
  pub offset : Number

pub record Pagination : Type 0 where
  pub page : Number
  pub limit : Number
  pub total : ℕ
  pub total_pages : ℕ

pub record Page (A : Type 0) : Type 0 where
  pub items : List A
  pub pagination : Pagination

-- A parameter `x = d` of a function
abbrev pub with_default : ℕ → Value → Value
with_default d undefined = nat d
with_default d v = v

-- `LIMIT l OFFSET o` on the rows of a query
unfoldable pub slice {ℓ} : {A : Type ℓ} → ℕ → ℕ → List A → List A
unfolding limit_to skip
slice limit offset rows = limit_to limit (skip offset rows)

abbrev pub sliced : {A : Type 0} → Option ℕ → Option ℕ → List A → Db → Result (List A × Db)
sliced (some limit) (some offset) rows d = ok (slice limit offset rows, d)
sliced _ _ rows d = err invalid_bigint

-- `findAll` of a repository, on the rows that its SELECT has without LIMIT and OFFSET
unfoldable pub find_all : {A : Type 0} → (Db → List A) → Paging → ℕ → Db → Result (List A × Db)
find_all rows p now d = sliced (bigint p.limit) (bigint p.offset) (rows d) d

-- `countAll` of a repository
unfoldable pub count_all : {A : Type 0} → (Db → List A) → ℕ → Db → Result (ℕ × Db)
count_all rows now d = ok (length (rows d), d)

-- `Math.ceil(total / safeLimit)`; a limit that is no whole number has failed the query before.
abbrev pub pages_of : ℕ → Number → ℕ
pages_of total (whole (pos limit)) = ceil_div total limit
pages_of total limit = 0

abbrev pub pagination_of : Paging → ℕ → Pagination
pagination_of p total = record {
  page = p.page;
  limit = p.limit;
  total = total;
  total_pages = pages_of total p.limit;
}

-- The response where the requester's scope is empty.
abbrev pub empty_page : {A : Type 0} → Paging → Page A
empty_page p = record {
  items = [];
  pagination = record { page = p.page; limit = p.limit; total = 0; total_pages = 0 };
}

module _ (env : Env) where
  abbrev pub safe_page : Value → Number
  safe_page page =
      at_least_one (or_number (to_number env.parse_number env.to_text (with_default 1 page)) 1)

  abbrev pub safe_limit : Value → Number
  safe_limit limit =
      at_most 100 (
        at_least_one
          (or_number (to_number env.parse_number env.to_text (with_default 20 limit)) 20))

  -- `safePage`, `safeLimit` and `offset`
  unfoldable pub paging : Value → Value → Paging
  unfolding to_number
  paging page limit = record {
    page = safe_page page;
    limit = safe_limit limit;
    offset = times env.product (before (safe_page page)) (safe_limit limit);
  }

  -- The order in which the next query finds the rows of the tables
  unfoldable pub scan_order : M (Db → Db)
  scan_order w = (ok (env.scan w.ticks), w)

  -- `Promise.all([findAll, countAll])` and the response. The list is ordered by the creation time
  -- alone, so that rows with the same time come in the order in which the query finds them.
  unfoldable pub list_page : {A : Type 0} → (Db → List A) → Paging → M (Page A)
  unfolding find_all count_all scan_order
  list_page rows p = do
    scan ← scan_order
    items ← query env (find_all (λ d. rows (scan d)) p)
    total ← query env (count_all rows)
    pure (record { items = items; pagination = pagination_of p total })
