-- ===== src/Base/Tables.antt =====
-- Tables as lists of rows: the first row that passes a test, and `INSERT ... ON CONFLICT DO UPDATE`.
use Prim.Native.Nat.{◌≤◌}
use mathlib.Core.Path.{◌≡◌}
use mathlib.Core.Logic.{inl, inr}
use mathlib.Core.Bool.{Bool, true, false}
use mathlib.Core.Option.{Option, none, some}
use mathlib.Core.List.{List, [], ◌∷◌}
use native.Mathlib.Omega.{arith}
use energy_plant_monitoring.Base.Tests.{if◌then◌else◌, Bool-cases}
use energy_plant_monitoring.Base.Lists.{tally, All}

module _ {A : Type 0} where
  abbrev pub first : (A → Bool) → List A → Option A
  first p [] = none
  first p (x ∷ xs) = let rest = first p xs in if p x then some x else rest

  -- the row in conflict is updated, or the new one is inserted
  abbrev pub upsert_with : (A → Bool) → (A → A) → A → List A → List A
  upsert_with p update new [] = new ∷ []
  upsert_with p update new (x ∷ xs) =
      let rest = upsert_with p update new xs in if p x then update x ∷ xs else x ∷ rest

  abbrev pub updated_or : (A → A) → A → Option A → A
  updated_or update new none = new
  updated_or update new (some x) = update x

  module _ (p : A → Bool) (update : A → A) (new : A) where
    pub first-upsert_with :
        (xs : List A)
        → ((x : A) → p (update x) ≡ p x)
        → p new ≡ true
        → first p (upsert_with p update new xs) ≡ some (updated_or update new (first p xs))
    first-upsert_with [] same own = ground arith
    first-upsert_with (x ∷ xs) same own = ground (arith, same x, first-upsert_with xs same own)

    -- a row that another test finds is not touched
    pub first-upsert_other :
        (q : A → Bool) (xs : List A)
        → ((x : A) → p x ≡ true → q x ≡ false)
        → ((x : A) → q (update x) ≡ q x)
        → q new ≡ false
        → first q (upsert_with p update new xs) ≡ first q xs
    first-upsert_other q [] apart same other = ground arith
    first-upsert_other q (x ∷ xs) apart same other =
        ground (arith, apart x, same x, first-upsert_other q xs apart same other)

    pub tally-upsert_other :
        (q : A → Bool) (xs : List A)
        → ((x : A) → q (update x) ≡ q x)
        → q new ≡ false
        → tally q (upsert_with p update new xs) ≡ tally q xs
    tally-upsert_other q [] same other = ground arith
    tally-upsert_other q (x ∷ xs) same other =
        ground (arith, same x, tally-upsert_other q xs same other)

    -- a unique key stays unique
    pub tally-upsert_with :
        (xs : List A)
        → ((x : A) → p (update x) ≡ p x)
        → tally p xs ≤ 1
        → tally p (upsert_with p update new xs) ≤ 1
    tally-upsert_with [] same alone = ground arith
    tally-upsert_with (x ∷ xs) same alone = ground (arith, same x, tally-upsert_with xs same)

    pub All-upsert_with :
        (P : A → Type 0) (xs : List A)
        → All P xs
        → P new
        → ((x : A) → P x → P (update x))
        → All P (upsert_with p update new xs)
    All-upsert_with P [] h own same = (own, tt)
    All-upsert_with P (x ∷ xs) h own same = elim (Bool-cases (p x)) [
      | inl passes ↦ rw passes (same x h.0, h.1)
      | inr fails ↦ rw fails (h.0, All-upsert_with P xs h.1 own same)
    ]
