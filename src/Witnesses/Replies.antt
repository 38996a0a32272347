-- ===== src/Witnesses/Replies.antt =====
-- The theorems on passive replies, at a bundle that a callback may still carry.
use message_router.Prelude.{◌≡◌, refl, [], ◌∷◌, All, first, select, update, any, all, nat_eq}
use message_router.Session.{Env, ok}
use message_router.Session.Query
use message_router.Session.Tx.{transact, ◌>>=◌}
use message_router.CaseDesk.Common.{save_case, put_case}
use message_router.CaseDesk.Outbox.{
  put_delivery, delivery_transition, is_later_handoff, apply_transition,
}
use message_router.CaseDesk.Leasing.{joined}
use message_router.CaseDesk.Deferred.{
  is_deferred_item, is_deferred_pending_delivery, items_of, put_items, complete_deferred_delivery,
  complete_if, complete_each, complete_deferred_deliveries, current_case, restore_deferred_delivery,
  restore_if, restore_each, restore_deferred_deliveries, recover_deferred_deliveries,
}
use message_router.CaseDesk.Deferred.Final.{
  IsLinked, Finalizes, deferred-once, recover_deferred_deliveries-Finalizes,
}
use message_router.Samples.{env, message, issue, replying}

abbrev later : Env
later = record env { now = 3_000_000_000 }

linked : All (IsLinked replying) replying.deliveries
unfolding first
linked = ((message, issue, refl, refl), tt)

deferred-once_example :
    Finalizes (300 ∷ []) later (transact (complete_deferred_deliveries (300 ∷ [])) env replying)
    × Finalizes (300 ∷ []) later (transact (restore_deferred_deliveries (300 ∷ [])) env replying)
deferred-once_example = deferred-once (300 ∷ []) env later replying linked

recover_deferred_deliveries-Finalizes_example :
    Finalizes (300 ∷ []) later (transact recover_deferred_deliveries env replying)
recover_deferred_deliveries-Finalizes_example =
    recover_deferred_deliveries-Finalizes (300 ∷ []) env later replying

-- The reply is there to complete, or to take back.
completed_once : (transact (complete_deferred_deliveries (300 ∷ [])) env replying).0 ≡ ok 1
unfolding complete_deferred_deliveries complete_each complete_if complete_deferred_delivery
    current_case delivery_transition is_later_handoff apply_transition save_case put_case joined
    select first update any all is_deferred_item is_deferred_pending_delivery items_of put_items
    put_delivery transact ◌>>=◌ Query.◌>>=◌
completed_once = refl

recovered_once : (transact recover_deferred_deliveries env replying).0 ≡ ok 1
unfolding recover_deferred_deliveries restore_each restore_if restore_deferred_delivery select
    update all is_deferred_item is_deferred_pending_delivery items_of put_items put_delivery
    transact ◌>>=◌ Query.◌>>=◌
recovered_once = refl
