-- ===== src/Pagination/Sorted.antt =====
-- Tables in the order of the queries of event_operational_repo.go, and their rows below a cursor.
use energy_plant_monitoring.Base.{
  Bool, true, false, ◌≡◌, refl, List, [], ◌∷◌, ◌++◌, arith, keep, Bool-cases, inl, inr,
}
use energy_plant_monitoring.Entities.{EventOperational}
use energy_plant_monitoring.Pagination.{PageCursor, is_below}

abbrev pub cursor_of : EventOperational → PageCursor
cursor_of r = record { created_at = r.created_at; id = r.id }

-- newest first, ids descending among rows of one time, no two rows with both the same
abbrev AllBelow : EventOperational → List EventOperational → Type 0
AllBelow r [] = Unit
AllBelow r (x ∷ rest) = (is_below (cursor_of r) x ≡ true) × AllBelow r rest

abbrev pub IsSorted : List EventOperational → Type 0
IsSorted [] = Unit
IsSorted (r ∷ rows) = AllBelow r rows × IsSorted rows

keep-AllBelow :
    (r : EventOperational) (rows : List EventOperational)
    → AllBelow r rows
    → keep (is_below (cursor_of r)) rows ≡ rows
keep-AllBelow r [] h = refl
keep-AllBelow r (x ∷ rest) h = ground (arith, keep-AllBelow r rest)

not_below_self : (r : EventOperational) → is_below (cursor_of r) r ≡ false
not_below_self r = ground arith

below_asym :
    (r x : EventOperational) → is_below (cursor_of r) x ≡ true → is_below (cursor_of x) r ≡ false
below_asym r x h = ground arith

AllBelow-append :
    (r l : EventOperational) (done rest : List EventOperational)
    → AllBelow r (done ++ l ∷ rest)
    → is_below (cursor_of r) l ≡ true
AllBelow-append r l [] rest h = h.0
AllBelow-append r l (x ∷ done) rest h = AllBelow-append r l done rest h.1

-- the rows below a row of the table are those that follow it
pub keep-after :
    (done : List EventOperational) (l : EventOperational) (rest : List EventOperational)
    → IsSorted (done ++ l ∷ rest)
    → keep (is_below (cursor_of l)) (done ++ l ∷ rest) ≡ rest
keep-after [] l rest h = ground (arith, not_below_self l, keep-AllBelow l rest h.0)
keep-after (x ∷ done) l rest h =
    ground (arith, below_asym x l (AllBelow-append x l done rest h.0), keep-after done l rest h.1)

AllBelow-keep :
    (test : EventOperational → Bool) (r : EventOperational) (rows : List EventOperational)
    → AllBelow r rows
    → AllBelow r (keep test rows)
AllBelow-keep test r [] h = tt
AllBelow-keep test r (x ∷ rest) h = elim (Bool-cases (test x)) [
  | inl e ↦ rw e (h.0, AllBelow-keep test r rest h.1)
  | inr e ↦ rw e (AllBelow-keep test r rest h.1)
]

pub IsSorted-keep :
    (test : EventOperational → Bool) (rows : List EventOperational)
    → IsSorted rows
    → IsSorted (keep test rows)
IsSorted-keep test [] h = tt
IsSorted-keep test (x ∷ rest) h = elim (Bool-cases (test x)) [
  | inl e ↦ rw e (AllBelow-keep test x rest h.0, IsSorted-keep test rest h.1)
  | inr e ↦ rw e (IsSorted-keep test rest h.1)
]
