-- ===== src/Server/Database.antt =====
-- internal/infrastructure/conf/database/postgres.go: the search for the project root, the directory
-- of the migrations and the seed. The file system, goose and the database answer as given.
pub mod Root
use energy_plant_monitoring.Base.{
  ℕ, zero, suc, String, Bool, true, false, not, ◌&&◌, Option, none, some, List, [], ◌∷◌, ◌++◌, ◌==◌,
  if◌then◌else◌, str_eq,
}
use energy_plant_monitoring.Errors.{Error, nil, new, wrapped, is_nil, Result, ok, err}

-- an absolute path, the innermost name first; the root of the file system is the empty one
abbrev pub PathNames : Type 0
PathNames = List String

-- `filepath.Dir`
abbrev parent_of : PathNames → PathNames
parent_of [] = []
parent_of (name ∷ rest) = rest

abbrev pub same_path : PathNames → PathNames → Bool
same_path [] [] = true
same_path (a ∷ s) (b ∷ t) = str_eq a b && same_path s t
same_path _ _ = false

-- `has_go_mod` is whether `os.Stat` finds the file in a directory. The fuel bounds the rounds of the
-- loop; `none` is a loop that is not through.
module _ (has_go_mod : PathNames → Bool) where
  unfoldable pub search : ℕ → PathNames → Option (Result PathNames)
  search zero dir = none
  search (suc fuel) dir =
      let rest = search fuel (parent_of dir) in
      if has_go_mod dir
      then some (ok dir)
      else if same_path (parent_of dir) dir
      then some (err (new "go.mod not found, cannot determine project root"))
      else rest

  unfoldable pub find_project_root : ℕ → Result PathNames → Option (Result PathNames)
  find_project_root fuel (ok dir) = search fuel dir
  find_project_root fuel (err e) = some (err e)

abbrev possible_paths : List String
possible_paths =
    "./migrations" ∷ "../migrations" ∷ "../../migrations" ∷ "../../../migrations"
    ∷ "../../../../migrations" ∷ []

-- the candidates, with the project root's, where it was found, last
abbrev candidates : Result String → List String
candidates (ok root_migrations) = possible_paths ++ root_migrations ∷ []
candidates (err _) = possible_paths

abbrev first_present : (String → Bool) → List String → String
first_present is_not_exist [] = ""
first_present is_not_exist (path ∷ paths) =
    let rest = first_present is_not_exist paths in if is_not_exist path then rest else path

-- what `os.Stat`, the connection, `goose.SetDialect` and `goose.Up` answer
pub record Migrating : Type 0 where
  pub is_not_exist : String → Bool
  pub sql_db : Error
  pub set_dialect : Error
  pub up : String → Error

-- the error, and the directory that goose was started on
module _ (m : Migrating) where
  migrate : String → Error × Option String
  migrate directory =
      if str_eq directory ""
      then (nil, none)
      else if not (is_nil m.sql_db)
      then (wrapped "error accessing underlying database connection" m.sql_db, none)
      else if not (is_nil m.set_dialect)
      then (wrapped "error setting dialect for goose" m.set_dialect, none)
      else if not (is_nil (m.up directory))
      then (wrapped "error running migrations" (m.up directory), some directory)
      else (nil, some directory)

  unfoldable perform_migrations : Result String → Error × Option String
  unfolding migrate
  perform_migrations root = migrate (first_present m.is_not_exist (candidates root))

-- the file of a table: what reading it answers, and what running its text answers
seed_data : Result String → (String → Error) → Error
seed_data (err e) exec = e
seed_data (ok sql) exec = exec sql

-- The one table that is seeded, with what the database counts in it. Beside the error it is returned
-- whether the seed was tried.
unfoldable seed_db : Result ℕ → Result String → (String → Error) → Error × Bool
unfolding seed_data
seed_db (err e) file exec = (wrapped "failed to count energy_plants records" e, false)
seed_db (ok count) file exec = if count == 0 then (seed_data file exec, true) else (nil, false)
