-- ===== src/Pagination.antt =====
-- internal/domain/ports/output/pagination.go and FindAll and FindByEventType of
-- internal/infrastructure/adapters/repositories/event_operational_repo.go: pages of the operational
-- events, newest first, by cursor. A text is the list of its bytes here, and the empty text stands
-- for the cursor that is omitted. The table is the list of its rows in the order of the query.
pub mod Cursor
pub mod Sorted
pub mod Traverse
use energy_plant_monitoring.Base.{
  ℕ, zero, suc, ◌+◌, Bool, true, false, ◌&&◌, ◌||◌, Option, none, some, List, [], ◌∷◌, ◌++◌, length,
  take, keep, ltb, ◌==◌, if◌then◌else◌, String, str_eq,
}
use energy_plant_monitoring.Entities.{Uuid, Time, EventOperational}

abbrev pub Text : Type 0
Text = List ℕ

-- `int`
pub data ℤ : Type 0 where
  pos : ℕ → ℤ
  negsuc : ℕ → ℤ

abbrev default_page_size : ℕ
default_page_size = 50

abbrev pub max_page_size : ℕ
max_page_size = 200

pub record PageCursor : Type 0 where
  pub created_at : Time
  pub id : Uuid

pub record PageQuery : Type 0 where
  pub limit : ℤ
  pub cursor : Option PageCursor

pub record Page : Type 0 where
  pub items : List EventOperational
  pub next_cursor : Text
  pub count : ℕ

normal_limit : ℤ → ℕ
normal_limit (pos zero) = default_page_size
normal_limit (pos (suc n)) = if ltb max_page_size (suc n) then max_page_size else suc n
normal_limit (negsuc _) = default_page_size

unfoldable pub normalize_page_query : PageQuery → PageQuery
unfolding normal_limit
normalize_page_query q = record q { limit = pos (normal_limit q.limit) }

-- the `WHERE` of the query
abbrev pub is_below : PageCursor → EventOperational → Bool
is_below c r = ltb r.created_at c.created_at || (r.created_at == c.created_at && ltb r.id c.id)

abbrev pub is_of_type : String → EventOperational → Bool
is_of_type event_type r = str_eq r.event_type event_type

abbrev pub select : Option PageCursor → List EventOperational → List EventOperational
select none rows = rows
select (some c) rows = keep (is_below c) rows

abbrev pub last? : List EventOperational → Option EventOperational
last? [] = none
last? (x ∷ []) = some x
last? (x ∷ y ∷ rest) = last? (y ∷ rest)

-- base64, the layout time.RFC3339Nano and the UUID package
pub record Codec : Type 0 where
  pub base64_encode : Text → Text
  pub base64_decode : Text → Option Text
  pub format_time : Time → Text
  pub parse_time : Text → Option Time
  pub uuid_string : Uuid → Text
  pub parse_uuid : Text → Option Uuid

-- the byte '|'
abbrev pub bar : ℕ
bar = b'|'

-- `strings.SplitN(s, "|", 2)`, none where it has one part
unfoldable pub split_bar : Text → Option (Text × Text)
split_bar [] = none
split_bar (c ∷ s) =
    let rest = split_bar s in
    if c == bar then some ([], s) else elim rest [ none ↦ none | some (a, b) ↦ some (c ∷ a, b) ]

module _ (codec : Codec) where
  open codec use {base64_encode, base64_decode, format_time, parse_time, uuid_string, parse_uuid}

  unfoldable pub encode_cursor : Time → Uuid → Text
  encode_cursor t id = base64_encode (format_time t ++ (bar ∷ uuid_string id))

  infixl 5 ◌>>=◌
  abbrev ◌>>=◌ : {A B : Type 0} → Option A → (A → Option B) → Option B
  none >>= f = none
  some a >>= f = f a

  -- `none` for each of the four errors
  unfoldable pub decode_cursor : Text → Option PageCursor
  decode_cursor s = do
    raw ← base64_decode s
    parts ← split_bar raw
    t ← parse_time parts.0
    id ← parse_uuid parts.1
    some (record { created_at = t; id = id })

  next_of : Bool → List EventOperational → Text
  unfolding encode_cursor
  next_of false models = []
  next_of true models = elim (last? models) [ none ↦ [] | some m ↦ encode_cursor m.created_at m.id ]

  -- one more row than the page holds is read, to see whether there are more
  page_of : ℕ → List EventOperational → Page
  unfolding next_of
  page_of limit models =
      let has_more = ltb limit (length models) in
      let shown = if has_more then take limit models else models in
      record { items = shown; next_cursor = next_of has_more shown; count = length shown }

  unfoldable pub find_all : List EventOperational → PageQuery → Page
  unfolding page_of normal_limit
  find_all rows q =
      let limit = normal_limit q.limit in page_of limit (take (limit + 1) (select q.cursor rows))

  -- the same with one more condition in the query
  unfoldable pub find_by_event_type : List EventOperational → String → PageQuery → Page
  unfolding page_of normal_limit
  find_by_event_type rows event_type q =
      let limit = normal_limit q.limit in
      page_of limit (take (limit + 1) (select q.cursor (keep (is_of_type event_type) rows)))
