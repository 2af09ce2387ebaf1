-- ===== src/Rest/TestIntake/Answers.antt =====
-- The answers of TestIntake (test_handlers.go).
use energy_plant_monitoring.Base.{
  Bool, true, false, ◌≡◌, List, [], ◌∷◌, arith, length, if◌then◌else◌, ◌==◌, ◌||◌, str_eq,
}
use energy_plant_monitoring.Errors.{is_nil, Result, ok, err}
use energy_plant_monitoring.Rest.TestIntake.{
  TestIntakeRequest, Notified, validation_notified, uuid_notified, Services, test_intake,
}

-- whether the plant of a request parses and exists
abbrev plant_known : Services → Result TestIntakeRequest → Bool
plant_known services (err _) = false
plant_known services (ok req) =
    if str_eq req.plant_source_id ""
    then false
    else elim (services.parse_uuid req.plant_source_id) [
      | err _ ↦ false
      | ok id ↦ elim (services.exists id) [ err _ ↦ false | ok found ↦ found ]
    ]

-- the notifications that returned without an error
abbrev pub delivered : List Notified → Bool
delivered [] = false
delivered (validation_notified _ _ _ e ∷ rest) = is_nil e
delivered (uuid_notified _ _ _ e ∷ rest) = is_nil e

-- Whatever the request and the services answer: success is answered, with status 200, exactly if
-- the request names a plant that parses and exists; at most one notification is asked for, and none
-- on success; and the answer says that Telegram was told exactly if one was and returned no error.
test_intake_answers :
    (services : Services) (req : Result TestIntakeRequest)
    → let r = test_intake services req in
      (r.response.success ≡ plant_known services req)
      × ((r.status == 200) ≡ plant_known services req)
      × ((length r.notified == 0 || length r.notified == 1) ≡ true)
      × ((if plant_known services req then length r.notified else 0) ≡ 0)
      × (r.response.telegram_sent ≡ delivered r.notified)
unfolding test_intake
test_intake_answers services req = ground arith
