-- ===== src/CaseDesk/Leasing/Total.antt =====
-- A claim of src/kefu/case_desk/service.py returns, and keeps to its limit.
use message_router.Prelude.{
  ℕ, suc, ◌+◌, ◌≤◌, ◌≡◌, refl, ◌∙◌, ap, List, [], ◌∷◌, length, take, length-take, le→leb, arith,
}
use message_router.Models.{Moment}
use message_router.Session.{Env, ok}
use message_router.Session.Query.{ensure, gets}
use message_router.Session.Tx.{Session, pure, ◌>>=◌, >>=-ok}
use message_router.CaseDesk.Outbox.{Context}
use message_router.CaseDesk.Leasing.{
  DeliveryWork, due_rows, claim_row, claim_rows, claim_pending_deliveries,
}

claim_row-returns :
    (until : Moment) (row : Context) (env : Env) (s : Session)
    → (w : DeliveryWork) × (after : Session) × (claim_row until row env s ≡ ok (w, after))
unfolding claim_row ◌>>=◌ gets
claim_row-returns until row env s = (_, _, refl)

claim_rows-returns :
    (until : Moment) (rows : List Context) (env : Env) (s : Session)
    → (ws : List DeliveryWork) × (after : Session) × (claim_rows until rows env s ≡ ok (ws, after))
      × (length ws ≡ length rows)
unfolding claim_rows pure
claim_rows-returns until [] env s = ([], s, refl, refl)
claim_rows-returns until (row ∷ rows) env s =
    let (w, t, e₁) = claim_row-returns until row env s in
    let (ws, after, e₂, l) = claim_rows-returns until rows env t in
    (
      w ∷ ws,
      after,
      >>=-ok (claim_row until row) (λ work. claim_rows until rows >>= λ rest. pure (work ∷ rest))
            env s e₁
          ∙ >>=-ok (claim_rows until rows) (λ rest. pure (w ∷ rest)) env t e₂,
      ap suc l,
    )

-- A claim with a limit from 1 returns, whatever the tables, and takes at most that many deliveries.
pub claim_pending_deliveries-returns :
    (limit : ℕ) (lease : Moment) (env : Env) (s : Session)
    → 1 ≤ limit
    → (ws : List DeliveryWork) × (after : Session) × (claim_pending_deliveries limit lease env s
        ≡ ok (ws, after))
      × (length ws ≤ limit)
unfolding claim_pending_deliveries ◌>>=◌ gets ensure
claim_pending_deliveries-returns limit lease env s le =
    let rows = due_rows env.now s.db in
    let (ws, after, e, l) = claim_rows-returns (env.now + lease) (take limit rows) env s in
    (ws, after, rw (le→leb 1 limit le) e, omega (arith, l, length-take limit rows))
