-- ===== src/Base/Sorting.antt =====
-- Lists sorted by a number, the greatest first; what agrees in it keeps its order.
use Prim.Native.Nat.{ℕ}
use mathlib.Core.Path.{◌≡◌, refl}
use mathlib.Core.List.{List, [], ◌∷◌}
use mathlib.Core.Bool.{Bool, true, ◌&&◌}
use native.Mathlib.Omega.{arith}
use energy_plant_monitoring.Base.Tests.{if◌then◌else◌, leb}
use energy_plant_monitoring.Base.Lists.{keep, tally}

module _ {A : Type 0} (key : A → ℕ) where
  abbrev insert_desc : A → List A → List A
  insert_desc x [] = x ∷ []
  insert_desc x (y ∷ ys) =
      let rest = insert_desc x ys in if leb (key y) (key x) then x ∷ y ∷ ys else y ∷ rest

  abbrev pub sort_desc : List A → List A
  sort_desc [] = []
  sort_desc (x ∷ xs) = insert_desc x (sort_desc xs)

  -- descending, and at most `bound`
  abbrev descends : ℕ → List A → Bool
  descends bound [] = true
  descends bound (x ∷ xs) = let rest = descends (key x) xs in leb (key x) bound && rest

  abbrev pub is_descending : List A → Bool
  is_descending [] = true
  is_descending (x ∷ xs) = descends (key x) xs

  descends-insert_desc :
      (bound : ℕ) (x : A) (ys : List A)
      → descends bound ys ≡ true
      → leb (key x) bound ≡ true
      → descends bound (insert_desc x ys) ≡ true
  descends-insert_desc bound x [] h b = ground arith
  descends-insert_desc bound x (y ∷ ys) h b = ground (arith, descends-insert_desc (key y) x ys)

  is_descending-insert_desc :
      (x : A) (ys : List A) → is_descending ys ≡ true → is_descending (insert_desc x ys) ≡ true
  is_descending-insert_desc x [] h = refl
  is_descending-insert_desc x (y ∷ ys) h = ground (arith, descends-insert_desc (key y) x ys)

  pub is_descending-sort_desc : (xs : List A) → is_descending (sort_desc xs) ≡ true
  is_descending-sort_desc [] = refl
  is_descending-sort_desc (x ∷ xs) =
      is_descending-insert_desc x (sort_desc xs) (is_descending-sort_desc xs)

  tally-insert_desc :
      (p : A → Bool) (x : A) (ys : List A) → tally p (insert_desc x ys) ≡ tally p (x ∷ ys)
  tally-insert_desc p x [] = refl
  tally-insert_desc p x (y ∷ ys) = ground (arith, tally-insert_desc p x ys)

  -- sorting keeps each element as often as it was there
  pub tally-sort_desc : (p : A → Bool) (xs : List A) → tally p (sort_desc xs) ≡ tally p xs
  tally-sort_desc p [] = refl
  tally-sort_desc p (x ∷ xs) =
      ground (arith, tally-insert_desc p x (sort_desc xs), tally-sort_desc p xs)

  insert_desc_first :
      (bound : ℕ) (x : A) (ys : List A)
      → descends bound ys ≡ true
      → leb bound (key x) ≡ true
      → insert_desc x ys ≡ x ∷ ys
  insert_desc_first bound x [] h b = refl
  insert_desc_first bound x (y ∷ ys) h b = ground arith

  descends_weaker :
      (bound bound' : ℕ) (ys : List A)
      → descends bound ys ≡ true
      → leb bound bound' ≡ true
      → descends bound' ys ≡ true
  descends_weaker bound bound' [] h b = refl
  descends_weaker bound bound' (y ∷ ys) h b = ground arith

  descends-tail : (bound : ℕ) (ys : List A) → descends bound ys ≡ true → is_descending ys ≡ true
  descends-tail bound [] h = refl
  descends-tail bound (y ∷ ys) h = ground arith

  descends-keep :
      (p : A → Bool) (bound : ℕ) (ys : List A)
      → descends bound ys ≡ true
      → descends bound (keep p ys) ≡ true
  descends-keep p bound [] h = refl
  descends-keep p bound (y ∷ ys) h =
      ground (arith, descends-keep p (key y) ys, descends_weaker (key y) bound (keep p ys))

  keep-insert_desc :
      (p : A → Bool) (x : A) (ys : List A)
      → is_descending ys ≡ true
      → keep p (insert_desc x ys) ≡ (if p x then insert_desc x (keep p ys) else keep p ys)
  keep-insert_desc p x [] h = ground arith
  keep-insert_desc p x (y ∷ ys) h = ground (
    arith,
    keep-insert_desc p x ys (descends-tail (key y) ys h),
    descends-keep p (key y) ys h,
    insert_desc_first (key y) x (keep p ys),
  )

  -- what is kept of a sorted list is what was to be kept, sorted
  pub keep-sort_desc : (p : A → Bool) (xs : List A) → keep p (sort_desc xs) ≡ sort_desc (keep p xs)
  keep-sort_desc p [] = refl
  keep-sort_desc p (x ∷ xs) =
      ground (
        arith,
        keep-sort_desc p xs,
        keep-insert_desc p x (sort_desc xs) (is_descending-sort_desc xs),
      )
