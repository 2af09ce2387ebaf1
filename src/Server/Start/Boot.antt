-- ===== src/Server/Start/Boot.antt =====
-- What main.go leaves running.
use energy_plant_monitoring.Base.{
  String, Bool, true, false, ◌&&◌, ◌≡◌, ◌⊎◌, arith, tally, Bool-cases, inl, inr,
}
use energy_plant_monitoring.Errors.{is_nil}
use energy_plant_monitoring.Server.Start.{
  Begun, delivery_report, exited, Stages, is_ok, main, new_container, setup_database_psql,
}

abbrev pub is_exit : Begun → Bool
is_exit (exited _) = true
is_exit _ = false

-- neither the end of the process nor a goroutine of the Kafka producer
abbrev pub is_component : Begun → Bool
is_component (exited _) = false
is_component delivery_report = false
is_component _ = true

abbrev pub all_fine : Stages → Bool
all_fine s =
    is_nil s.parse_config
    && is_ok s.db_settings
    && is_nil s.open_db
    && is_nil s.underlying_db
    && is_nil s.perform_migrations
    && is_nil s.seed_db
    && is_nil s.new_producer
    && is_nil s.new_consumer

-- If every stage of the start succeeds, main starts ten goroutines of the components, among them
-- the consumer and the HTTP server, and goes on; if one fails, it starts none of them and exits.
pub main_all_or_nothing :
    (path_escape : String → String) (s : Stages)
    → let begun = main path_escape s in
      ((all_fine s ≡ true) × (tally is_component begun ≡ 10) × (tally is_exit begun ≡ 0))
      ⊎ ((all_fine s ≡ false) × (tally is_component begun ≡ 0) × (tally is_exit begun ≡ 1))
unfolding main new_container setup_database_psql
main_all_or_nothing path_escape s = elim (Bool-cases (all_fine s)) [
  | inl fine ↦ inl (fine, ground arith, ground arith)
  | inr failed ↦ inr (failed, ground arith, ground arith)
]
