-- ===== src/Server/Database/Root.antt =====
-- The loop of findProjectRoot (internal/infrastructure/conf/database/postgres.go).
use energy_plant_monitoring.Base.{
  ℕ, zero, suc, ◌<◌, Bool, true, ◌≡◌, refl, Option, none, some, [], ◌∷◌, length, if◌then◌else◌,
  arith,
}
use energy_plant_monitoring.Errors.{new, Result, ok, err}
use energy_plant_monitoring.Server.Database.{PathNames, same_path, search, find_project_root}

same_path-length : (a b : PathNames) → same_path a b ≡ true → length a ≡ length b
same_path-length [] [] h = refl
same_path-length (x ∷ a) (y ∷ b) h = ground (arith, same_path-length a b)
same_path-length [] (y ∷ b) h = absurd (ground arith)
same_path-length (x ∷ a) [] h = absurd (ground arith)

-- the innermost of a directory and those around it that has the file
abbrev pub nearest : (PathNames → Bool) → PathNames → Option PathNames
nearest has_go_mod [] = if has_go_mod [] then some [] else none
nearest has_go_mod (name ∷ rest) =
    let outer = nearest has_go_mod rest in
    if has_go_mod (name ∷ rest) then some (name ∷ rest) else outer

abbrev pub found_or_error : Option PathNames → Result PathNames
found_or_error (some dir) = ok dir
found_or_error none = err (new "go.mod not found, cannot determine project root")

module _ (has_go_mod : PathNames → Bool) where
  search_ends :
      (fuel : ℕ) (dir : PathNames)
      → length dir < fuel
      → search has_go_mod fuel dir ≡ some (found_or_error (nearest has_go_mod dir))
  unfolding search
  search_ends zero dir enough = absurd (omega arith)
  search_ends (suc fuel) [] enough = ground arith
  search_ends (suc fuel) (name ∷ rest) enough =
      ground (arith, search_ends fuel rest (ground arith), same_path-length rest (name ∷ rest))

  -- The loop ends: from any working directory, after one round more than its path has names, it has
  -- found the innermost directory with a go.mod, or reports that there is none up to the root.
  pub find_project_root_ends :
      (fuel : ℕ) (dir : PathNames)
      → length dir < fuel
      → find_project_root has_go_mod fuel (ok dir) ≡ some (found_or_error (nearest has_go_mod dir))
  unfolding find_project_root
  find_project_root_ends fuel dir enough = search_ends fuel dir enough
