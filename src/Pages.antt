-- ===== src/Pages.antt =====
-- Pages of a list of the public API (src/lib/server/api/pagination.ts), and the lists
-- (src/lib/server/services/api-read.service.ts), as the rows that they show.
pub mod Order
pub mod Walk
use uppity.Base.{
  ℕ, suc, ◌+◌, String, Bool, true, false, ◌&&◌, ◌||◌, Option, none, some, List, [], ◌∷◌, length,
  take, leb, ltb, ◌==◌, if◌then◌else◌, first_where, rows_where, order_by, is_empty, ◌⊎◌, inl, inr,
}
use uppity.Tables.{Db, Monitor, MonitorCheck, Incident}

abbrev pub default_page_size : ℕ
default_page_size = 50

abbrev pub max_page_size : ℕ
max_page_size = 100

-- `PageRequest`
pub record PageRequest {ℓ} (C : Type ℓ) : Type ℓ where
  pub limit : ℕ
  pub after : Option C

pub data PageError : Type 0 where
  bad_limit empty_cursor : PageError

-- The limit of a request; `whole` reads a text as a natural number, if it is one.
abbrev pub limit_of : (String → Option ℕ) → Option String → Option ℕ
limit_of whole none = some default_page_size
limit_of whole (some raw) = elim (whole raw) [
  | none ↦ none
  | some n ↦ if leb 1 n && leb n max_page_size then some n else none
]

abbrev pub with_cursor : ℕ → Option String → PageError ⊎ PageRequest String
with_cursor limit none = inr (record { limit = limit; after = none })
with_cursor limit (some c) =
    if is_empty c then inl empty_cursor else inr (record { limit = limit; after = some c })

abbrev pub parsed : Option String → Option ℕ → PageError ⊎ PageRequest String
parsed cursor none = inl bad_limit
parsed cursor (some limit) = with_cursor limit cursor

-- `parsePage`, of the two parameters
unfoldable pub parse_page :
    (String → Option ℕ) → Option String → Option String → PageError ⊎ PageRequest String
parse_page whole limit cursor = parsed cursor (limit_of whole limit)

-- `Page`
pub record Page {ℓ} (A : Type ℓ) : Type ℓ where
  pub rows : List A
  pub next_cursor : Option ℕ

module _ {ℓ} {A : Type ℓ} (id : A → ℕ) where
  -- `data.at(-1)?.id`
  unfoldable pub last_id : List A → Option ℕ
  last_id [] = none
  last_id (x ∷ []) = some (id x)
  last_id (x ∷ y ∷ ys) = last_id (y ∷ ys)

  -- `toPage`
  unfoldable pub to_page : List A → ℕ → Page A
  unfolding last_id
  to_page rows limit = record {
    rows = take limit rows;
    next_cursor = if ltb limit (length rows) then last_id (take limit rows) else none;
  }

module _ {ℓ} {A : Type ℓ} (time id : A → ℕ) where
  -- `(time, id) < (anchor)`, and `ORDER BY time DESC, id DESC`
  abbrev pub precedes : A → A → Bool
  precedes a x = ltb (time x) (time a) || ((time x == time a) && ltb (id x) (id a))

  -- The rows of a list, in its order; `shown` is its WHERE.
  unfoldable pub listed : (A → Bool) → List A → List A
  listed shown table = rows_where shown (order_by precedes table)

  abbrev pub page_after : (A → Bool) → List A → ℕ → Option A → Option (Page A)
  page_after shown table limit none = none
  page_after shown table limit (some a) =
      some (to_page id (take (suc limit) (rows_where (precedes a) (listed shown table))) limit)

  -- One list of `ApiReadService`; none where the cursor names no row of it.
  unfoldable pub list_page : (A → Bool) → List A → ℕ → Option ℕ → Option (Page A)
  unfolding to_page listed
  list_page shown table limit none = some (to_page id (take (suc limit) (listed shown table)) limit)
  list_page shown table limit (some cursor) =
      page_after shown table limit (first_where (λ a. id a == cursor) (listed shown table))

-- `listMonitors`
unfoldable pub list_monitors : ℕ → PageRequest ℕ → Db → Option (Page Monitor)
unfolding list_page
list_monitors org page db =
    list_page (λ m. m.created_at) (λ m. m.id) (λ m. m.organization_id == org) db.monitors page.limit
      page.after

-- `listChecks`
unfoldable pub list_checks : ℕ → PageRequest ℕ → Db → Option (Page MonitorCheck)
unfolding list_page
list_checks monitor page db =
    list_page (λ c. c.checked_at) (λ c. c.id) (λ c. c.monitor_id == monitor) db.checks page.limit
      page.after

-- `listIncidents`
unfoldable pub list_incidents : ℕ → PageRequest ℕ → Db → Option (Page Incident)
unfolding list_page
list_incidents org page db =
    list_page (λ i. i.started_at) (λ i. i.id) (λ i. i.organization_id == org) db.incidents
      page.limit page.after
