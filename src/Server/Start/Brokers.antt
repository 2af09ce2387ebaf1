-- ===== src/Server/Start/Brokers.antt =====
-- The list of brokers from the settings (main.go) to the Kafka clients (factory.go).
use energy_plant_monitoring.Base.{
  ℕ, String, ◌≡◌, refl, List, [], ◌∷◌, arith, if◌then◌else◌, ◌==◌, Bool-cases, inl, inr,
}
use energy_plant_monitoring.Server.Cors.{Text, split_comma, onto_first}
use energy_plant_monitoring.Server.Start.{
  join_comma, new_kafka_factory, producer_config, consumer_config,
}

split_comma_first :
    (s : Text) → (part : Text) × (parts : List Text) × (split_comma s ≡ part ∷ parts)
unfolding split_comma
split_comma_first [] = ([], [], refl)
split_comma_first (c ∷ s) =
    let (part, parts, more) = split_comma_first s in
    elim (Bool-cases (c == b',')) [
      | inl comma ↦ ([], split_comma s, ground arith)
      | inr other ↦ (c ∷ part, parts, ground (arith, more))
    ]

join-split_comma : (s : Text) → join_comma (split_comma s) ≡ s
unfolding join_comma split_comma
join-split_comma [] = refl
join-split_comma (c ∷ s) =
    let (part, parts, more) = split_comma_first s in
    let rest = join-split_comma s in joined c part parts (split_comma s) more rest
  where
    joined :
        (c : ℕ) (part : Text) (parts split : List Text)
        → split ≡ part ∷ parts
        → join_comma split ≡ s
        → join_comma (if c == b',' then [] ∷ split else onto_first c split) ≡ c ∷ s
    joined c part [] split same rest = ground (arith, same, rest)
    joined c part (q ∷ parts) split same rest = ground (arith, same, rest)

-- The producer and the consumer are given exactly the brokers of the setting, in its own words,
-- though main splits it at the commas and the factory joins the parts again.
pub clients_use_setting :
    (setting : Text) (auto_offset group_id : String)
    → let kf = new_kafka_factory (split_comma setting) auto_offset in
      ((producer_config kf).bootstrap_servers ≡ setting)
      × ((consumer_config kf group_id).bootstrap_servers ≡ setting)
unfolding new_kafka_factory producer_config consumer_config
clients_use_setting setting auto_offset group_id =
    (join-split_comma setting, join-split_comma setting)
