-- ===== src/Errors/Classes.antt =====
-- The classification of errors (IsPermanent, IsTransient) against the chain of wrapped errors.
use energy_plant_monitoring.Base.{String, true, ◌≡◌, refl, sym, subst, ◌↔◌, arith}
use energy_plant_monitoring.Errors.{
  Error, nil, new, wrapped, permanent_error, transient_error, unwrap, is_permanent, InChain, here,
  inside,
}

is_permanent-unwrap : (e : Error) → is_permanent (unwrap e) ≡ true → is_permanent e ≡ true
unfolding is_permanent unwrap
is_permanent-unwrap e h = ground arith

found_permanent :
    (e : Error)
    → is_permanent e ≡ true
    → (reason : String) × (err : Error) × InChain (permanent_error reason err) e
unfolding is_permanent unwrap
found_permanent nil h = cc
found_permanent (new _) h = cc
found_permanent (wrapped s e) h =
    let (reason, err, c) = found_permanent e h in (reason, err, inside (wrapped s e) c)
found_permanent (permanent_error reason err) h = (reason, err, here refl)
found_permanent (transient_error s e) h =
    let (reason, err, c) = found_permanent e h in (reason, err, inside (transient_error s e) c)

chain_permanent :
    {reason : String} {err e : Error}
    → InChain (permanent_error reason err) e
    → is_permanent e ≡ true
unfolding is_permanent
chain_permanent (here p) = subst (λ x. is_permanent x ≡ true) (sym p) refl
chain_permanent (inside e c) = is_permanent-unwrap e (chain_permanent c)

-- An error is classified as permanent exactly when some error of its chain is a PermanentError,
-- whatever wraps it: a TransientError around a PermanentError is permanent.
is_permanent_iff_chain :
    (e : Error)
    → (is_permanent e ≡ true)
      ↔ ((reason : String) × (err : Error) × InChain (permanent_error reason err) e)
is_permanent_iff_chain e = (found_permanent e, λ (_, _, c). chain_permanent c)
