-- ===== src/Witnesses/System.antt =====
-- The theorems on the case desk as a whole, at the sample deployment: the consultant closes the issue.
use message_router.Prelude.{
  ◌==◌, nat_eq, ◌+◌, false, ◌≡◌, refl, inr, List, ◌++◌, codes, first, arith,
}
use message_router.Models.{CaseEntry}
use message_router.CaseDesk.Commands.{person, close_case}
use message_router.CaseDesk.System.{
  Operation, command_executed, replies_recovered, perform, Reach, here, next,
}
use message_router.CaseDesk.System.Reached.{Reach-IsSound}
use message_router.CaseDesk.System.LifeCycle.{Move, closing, view, view_in, IsKeyed, AreFresh}
use message_router.CaseDesk.System.LifeCycle.Refines.{perform-Move}
use message_router.CaseDesk.Invariants.Lifecycle.{IsSound}
use message_router.Samples.{env, db}

abbrev closes : Operation
closes = command_executed (close_case (codes "ABCD123") 3) (person 1)

-- The worker starts after the issue was closed.
reached : Reach db (perform replies_recovered env (perform closes env db))
reached = next replies_recovered env (perform closes env db) (next closes env db here refl) refl

db-IsSound : IsSound db
db-IsSound = record { cases = (inr (refl, (λ e. cc), (λ e. cc)), tt); deliveries = ((λ e. cc), tt) }

Reach-IsSound_example :
    IsSound (perform replies_recovered env (perform closes env db))
    × ((new : List CaseEntry) × ((perform replies_recovered env (perform closes env db)).entries
          ≡ db.entries ++ new))
Reach-IsSound_example = Reach-IsSound reached db-IsSound

keyed : IsKeyed db
unfolding view_in first
keyed = (refl, tt)

fresh : AreFresh env db
unfolding view_in first
fresh n = let other : (100 == 900 + n) ≡ false = ground arith in rw other refl

perform-Move_example : Move closing (view 100 db) (view 100 (perform closes env db))
perform-Move_example = perform-Move closes env db 100 keyed fresh
