-- ===== src/Scheduler/NextRunEnds.antt =====
-- NextRun of source/internal/scheduler/scheduler.go comes to an end on every schedule.
use bonghos.Base.Text.{Text}
use bonghos.Scheduler.Cron.{CronResult}
use bonghos.Scheduler.NextRun.{Next, by_cron, out_of_fuel}

abbrev pub HasEnded : Next → Type 0
HasEnded out_of_fuel = ⊥
HasEnded (by_cron CronResult.out_of_fuel) = ⊥
HasEnded _ = Unit
