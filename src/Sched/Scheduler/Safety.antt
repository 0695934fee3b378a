-- ===== src/Sched/Scheduler/Safety.antt =====
-- generic/Transients.hh: `Hole::Fill` of a hole whose future is not bound.
use aliceml_seam.Sched.Scheduler.{Scheduler}
