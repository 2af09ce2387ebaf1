-- ===== src/Writer/Save/Spillover.antt =====
-- What the asynchronous save of dual_event_writer.go does at full channels and at shutdown.
use energy_plant_monitoring.Base.{
  ℕ, ◌+◌, ◌≤◌, String, true, false, ◌≡◌, some, [], ◌∷◌, arith, length, length-append, if◌then◌else◌,
}
use energy_plant_monitoring.Errors.{nil, is_nil}
use energy_plant_monitoring.Entities.{RawMessage, Uuid, EventOperational, EventAnalytical}
use energy_plant_monitoring.Writer.Pipeline.{pipeline_buffer_size}
use energy_plant_monitoring.Writer.Save.{
  DualEventWriter, save_event_async_with_raw, save_event_async,
}

-- where an accepted operational event can be: one more in the channel, or one more call of the
-- spillover callback
abbrev pub kept : DualEventWriter → ℕ
kept w = length w.op_channel + length w.spilled

module _ (uuid_string : Uuid → String) (op : EventOperational) (an : EventAnalytical) where
  -- With raw data and a callback, an accepted operational event is never lost by the asynchronous
  -- save: exactly one of the channel and the calls of the callback grows by one. The channels stay
  -- within their capacity, and a save that is refused changes nothing.
  save_event_async_with_raw_keeps :
      (raw : RawMessage) (w : DualEventWriter)
      → w.has_spillover_func ≡ true
      → length w.op_channel ≤ pipeline_buffer_size
      → length w.an_channel ≤ pipeline_buffer_size
      → let (err, w') = save_event_async_with_raw uuid_string op an (some raw) w in
        (kept w' ≡ kept w + (if is_nil err then 1 else 0))
        × (length w'.op_channel ≤ pipeline_buffer_size)
        × (length w'.an_channel ≤ pipeline_buffer_size)
        × (w' ≡ (if is_nil err then w' else w))
  unfolding save_event_async_with_raw
  save_event_async_with_raw_keeps raw w set fits fits' = ground (
    arith,
    length-append w.op_channel (record { entity = op; raw_data = some raw } ∷ []),
    length-append w.an_channel (record { entity = an; raw_data = some raw } ∷ []),
    length-append w.spilled ((raw, "operational pipeline full") ∷ []),
  )

  -- `SaveEventAsync`, which passes no raw data, never calls the spillover callback. In a writer that
  -- is not stopping, at a full operational channel it reports success, and the event is neither in
  -- the channel nor handed to the callback.
  pub save_event_async_loses :
      (w : DualEventWriter)
      → w.stopping ≡ false
      → pipeline_buffer_size ≤ length w.op_channel
      → let (err, w') = save_event_async uuid_string op an w in
        (err ≡ nil) × (w'.op_channel ≡ w.op_channel) × (w'.spilled ≡ w.spilled)
  unfolding save_event_async
  save_event_async_loses w running full = ground arith
