-- ===== src/Errors.antt =====
-- internal/domain/errors/errors.go: the permanent and transient errors of the domain. The `error`
-- interface is a data type with `nil`; `wrapped` is what `fmt.Errorf` builds with `%w`, and `new`
-- any error with nothing inside.
pub mod Classes
use Prim.Native.String.{◌++◌}
use energy_plant_monitoring.Base.{String, Bool, true, false, ◌≡◌, refl, ◌⊎◌, inl, inr}

pub data Error : Type 0 where
  nil : Error
  new : String → Error
  wrapped : String → Error → Error
  permanent_error : String → Error → Error
  transient_error : String → Error → Error

unfoldable pub new_permanent_error : String → Error → Error
new_permanent_error reason err = permanent_error reason err

unfoldable pub new_transient_error : String → Error → Error
new_transient_error reason err = transient_error reason err

-- `err == nil`
abbrev pub is_nil : Error → Bool
is_nil nil = true
is_nil _ = false

-- what `Error()` returns for `Reason` and an inner error whose text is given
with_cause : String → Error → String → String
with_cause reason nil text = reason
with_cause reason _ text = reason ++ ": " ++ text

-- the method `Error()`; `nil` has none, and it is never called there
unfoldable pub message : Error → String
unfolding with_cause
message nil = ""
message (new text) = text
message (wrapped text err) = text ++ ": " ++ message err
message (permanent_error reason err) = with_cause reason err (message err)
message (transient_error reason err) = with_cause reason err (message err)

-- the method `Unwrap()`, as `errors.As` calls it
unfoldable pub unwrap : Error → Error
unwrap nil = nil
unwrap (new _) = nil
unwrap (wrapped _ err) = err
unwrap (permanent_error _ err) = err
unwrap (transient_error _ err) = err

-- `errors.As` with a `*PermanentError` target walks the chain from the error itself
unfoldable pub is_permanent : Error → Bool
is_permanent nil = false
is_permanent (new _) = false
is_permanent (wrapped _ err) = is_permanent err
is_permanent (permanent_error _ _) = true
is_permanent (transient_error _ err) = is_permanent err

unfoldable is_transient : Error → Bool
is_transient nil = false
is_transient (new _) = false
is_transient (wrapped _ err) = is_transient err
is_transient (permanent_error _ err) = is_transient err
is_transient (transient_error _ _) = true

-- an error of the chain of `e`: `e` itself, or one that repeated unwrapping reaches
pub data InChain (f : Error) : Error → Type 0 where
  here : {e : Error} → e ≡ f → InChain f e
  inside : (e : Error) → InChain f (unwrap e) → InChain f e

-- a value and an error, of which the code uses the value only if the error is `nil`
pub data Result {ℓ} (A : Type ℓ) : Type ℓ where
  ok : A → Result A
  err : Error → Result A

-- what a repository returns that looks for one row: the row, the sentinel ErrNotFound, which no
-- other error wraps, or another error
pub data Lookup (A : Type 0) : Type 0 where
  found : A → Lookup A
  not_found : Lookup A
  failed : Error → Lookup A

-- to split on a computed answer and keep the equation
pub Result-cases {ℓ} :
    {A : Type ℓ} (r : Result A) → ((a : A) × (r ≡ ok a)) ⊎ ((e : Error) × (r ≡ err e))
Result-cases (ok a) = inl (a, refl)
Result-cases (err e) = inr (e, refl)

pub Lookup-cases :
    {A : Type 0} (r : Lookup A)
    → ((a : A) × (r ≡ found a)) ⊎ ((r ≡ not_found) ⊎ ((e : Error) × (r ≡ failed e)))
Lookup-cases (found a) = inl (a, refl)
Lookup-cases not_found = inr (inl refl)
Lookup-cases (failed e) = inr (inr (e, refl))
