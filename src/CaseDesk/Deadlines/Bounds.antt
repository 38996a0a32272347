-- ===== src/CaseDesk/Deadlines/Bounds.antt =====
-- The status of a deadline of src/kefu/case_desk/service.py, as time goes on.
use message_router.Prelude.{ℕ, Option, none, some, nat_eq}
use message_router.Models.{DeadlineStatus, lifecycle_status_eq}

-- How urgent a deadline's status is.
abbrev pub urgency : Option DeadlineStatus → ℕ
urgency none = 0
urgency (some DeadlineStatus.approaching) = 1
urgency (some DeadlineStatus.overdue) = 2
