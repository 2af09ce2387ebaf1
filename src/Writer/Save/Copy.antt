-- ===== src/Writer/Save/Copy.antt =====
-- copyOperationalBatch and copyAnalyticalBatch of dual_event_writer.go: a batch goes through a
-- temporary table in one transaction, or, without a connection, through GORM in batches, which is
-- one transaction too. What each statement answers is given, and what it does to the temporary table
-- and to the tables as the transaction sees them; a statement that answers with an error does
-- nothing. Rows are named by their entities.
pub mod Atomic
use energy_plant_monitoring.Base.{
  String, Bool, true, false, Option, none, some, List, [], ◌∷◌, ◌++◌, if◌then◌else◌,
}
use energy_plant_monitoring.Errors.{Error, nil, wrapped, is_nil}
use energy_plant_monitoring.Entities.{EventOperational, EventAnalytical}
use energy_plant_monitoring.Writer.Save.{Tables, insert_operational, insert_analytical}

-- whether the temporary table is left from before on the connection (its rows are not: `ON COMMIT
-- DELETE ROWS`), and the errors of the connection, the transaction, the four statements, and the fallback
pub record Answers : Type 0 where
  pub has_temp : Bool
  pub acquired : Error
  pub begun : Error
  pub created : Error
  pub copied : Error
  pub inserted : Error
  pub committed : Error
  pub fallback : Error

-- `INSERT ... SELECT ... ON CONFLICT DO NOTHING`, row by row
unfoldable pub insert_all_operational : List EventOperational → Tables → Tables
insert_all_operational [] t = t
insert_all_operational (op ∷ ops) t = insert_all_operational ops (insert_operational op t)

unfoldable pub insert_all_analytical : List EventAnalytical → Tables → Tables
insert_all_analytical [] t = t
insert_all_analytical (an ∷ ans) t = insert_all_analytical ans (insert_analytical an t)

-- a transaction: the rows of the temporary table, if there is one, the tables as the transaction
-- sees them, and as everyone else does
record Transaction (E : Type 0) : Type 0 where
  temp : Option (List E)
  working : Tables
  durable : Tables

abbrev rows_of : {E : Type 0} → Option (List E) → List E
rows_of none = []
rows_of (some rows) = rows

module _ {E : Type 0} (insert_all : List E → Tables → Tables) where
  begin : Bool → Tables → Transaction E
  begin has_temp t = record { temp = if has_temp then some [] else none; working = t; durable = t }

  -- `CREATE TEMP TABLE IF NOT EXISTS`
  create_temp : Error → Transaction E → Transaction E
  create_temp e tx = if is_nil e then record tx { temp = some (rows_of tx.temp) } else tx

  -- `CopyFrom`, into the temporary table
  copy_from : Error → List E → Transaction E → Transaction E
  copy_from e rows tx =
      if is_nil e
      then record tx { temp = elim tx.temp [ none ↦ none | some before ↦ some (before ++ rows) ] }
      else tx

  -- `INSERT ... SELECT ... FROM` the temporary table `... ON CONFLICT DO NOTHING`
  insert_select : Error → Transaction E → Transaction E
  insert_select e tx =
      if is_nil e then record tx { working = insert_all (rows_of tx.temp) tx.working } else tx

  commit : Error → Transaction E → Tables
  commit e tx = if is_nil e then tx.working else tx.durable

  -- what the deferred function does on an error, after which the tables are those of before
  rollback : Transaction E → Tables
  rollback tx = tx.durable

  -- the three texts name the statements in the errors
  transaction : String → String → String → Answers → List E → Tables → Error × Tables
  unfolding begin create_temp copy_from insert_select commit rollback
  transaction create_text copy_text insert_text a rows t =
      let tx₁ = create_temp a.created (begin a.has_temp t) in
      let tx₂ = copy_from a.copied rows tx₁ in
      let tx₃ = insert_select a.inserted tx₂ in
      if is_nil a.created
      then (if is_nil a.copied
          then (if is_nil a.inserted
              then (a.committed, commit a.committed tx₃)
              else (wrapped insert_text a.inserted, rollback tx₃))
          else (wrapped copy_text a.copied, rollback tx₂))
      else (wrapped create_text a.created, rollback tx₁)

  -- `CreateInBatches`
  in_batches : Error → List E → Tables → Error × Tables
  in_batches e rows t = (e, if is_nil e then insert_all rows t else t)

  copied_batch : String → String → String → Answers → List E → Tables → Error × Tables
  unfolding transaction in_batches
  copied_batch create_text copy_text insert_text a rows t =
      if is_nil a.acquired
      then (if is_nil a.begun
          then transaction create_text copy_text insert_text a rows t
          else in_batches a.fallback rows t)
      else in_batches a.fallback rows t

unfoldable pub copy_operational_batch : Answers → List EventOperational → Tables → Error × Tables
unfolding copied_batch insert_all_operational
copy_operational_batch a [] t = (nil, t)
copy_operational_batch a (op ∷ ops) t =
    copied_batch insert_all_operational "pgx create temp" "pgx CopyFrom operational"
      "pgx insert operational" a (op ∷ ops) t

unfoldable pub copy_analytical_batch : Answers → List EventAnalytical → Tables → Error × Tables
unfolding copied_batch insert_all_analytical
copy_analytical_batch a [] t = (nil, t)
copy_analytical_batch a (an ∷ ans) t =
    copied_batch insert_all_analytical "pgx create temp analytical" "pgx CopyFrom analytical"
      "pgx insert analytical" a (an ∷ ans) t
