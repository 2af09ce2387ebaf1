-- ===== src/Repositories/Plants/Cached.antt =====
-- What the cache of energy_plant_repo.go makes of the answers of the database.
use energy_plant_monitoring.Base.{ℕ, Bool, ◌≡◌, refl, Option, none, some, ltb, arith}
use energy_plant_monitoring.Errors.{Result, ok, err}
use energy_plant_monitoring.Entities.{Uuid}
use energy_plant_monitoring.Repositories.Plants.{Lru, exists}

-- What an LRU cache does: an entry is there right after it was added, and a hit keeps its entry.
pub record Remembers {C : Type 0} (lru : Lru C) : Type 0 where
  pub added : (id : Uuid) (b : Bool) (c : C) → (lru.get id (lru.add id b c)).0 ≡ some b
  pub hit :
      (id : Uuid) (b : Bool) (c : C)
      → (lru.get id c).0 ≡ some b
      → (lru.get id (lru.get id c).1).0 ≡ some b

module _ {C : Type 0} (lru : Lru C) (id : Uuid) where
  -- With a cache, the answer to a plant that was found or not found is the answer to the next
  -- question for it, whatever the database would say then: a plant that was not found is still
  -- answered not to exist if it has been created since.
  exists_answers_again :
      (count later : Result ℕ) (found : Bool) (c c' : C)
      → Remembers lru
      → exists lru id count (some c) ≡ (ok found, some c')
      → (exists lru id later (some c')).0 ≡ ok found
  unfolding exists
  exists_answers_again count later found c c' laws asked = go (lru.get id c) refl count refl
    where
      go :
          (got : Option Bool × C)
          → lru.get id c ≡ got
          → (n : Result ℕ) → count ≡ n
          → (exists lru id later (some c')).0 ≡ ok found
      go (some b, d) e n k = ground (arith, laws.hit id b c)
      go (none, d) e (ok n) k = ground (arith, laws.added id (ltb 0 n) d)
      go (none, d) e (err x) k = ground arith
