-- ===== src/Cron/Job.antt =====
-- src/modules/core/cron/jobs/SyncCron.job.ts, over NestJS's registry of jobs, which is an argument; what is
-- logged is not modelled.
use node_back_end_boilerplat.Prelude.{String, Option, ℕ}
use node_back_end_boilerplat.Effects.{Exec, raise, try_catch, ◌>>=◌}
use node_back_end_boilerplat.Cron.{BackingServices, execute}

-- A job of the registry, and `getCronJob`.
pub record CronJob (S : Type 0) : Type 0 where
  pub start : Exec S (Unit {0})
  pub stop : Exec S (Unit {0})
  pub last_date : Exec S (Option ℕ)

abbrev pub Registry : Type 0 → Type 0
Registry S = String → Exec S (CronJob S)

-- `CronJobsEnum.SYNC_CRON`
abbrev pub cron_name : String
cron_name = "SyncCron"

-- `catch (error) { this.logger.error(error); throw error }`
abbrev pub or_thrown : {S A : Type 0} → Exec S A → Exec S A
or_thrown m = try_catch m raise

module _ {S : Type 0} (registry : Registry S) where
  -- `startCron`, `stopCron` and `getLastJobDate`
  unfoldable pub start_cron : Exec S (Unit {0})
  start_cron = or_thrown (do job ← registry cron_name; job.start)

  unfoldable pub stop_cron : Exec S (Unit {0})
  stop_cron = or_thrown (do job ← registry cron_name; job.stop)

  unfoldable pub get_last_job_date : Exec S (Option ℕ)
  get_last_job_date = or_thrown (do job ← registry cron_name; job.last_date)

-- `handleCron`
unfoldable pub handle_cron : {S : Type 0} → BackingServices S → Exec S (Unit {0})
unfolding execute
handle_cron services = or_thrown (execute services)
