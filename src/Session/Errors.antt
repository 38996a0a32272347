-- ===== src/Session/Errors.antt =====
-- src/kefu/case_desk/errors.py: the domain errors, without their messages.
-- `ValidationErrorForDirectory` is a `RoutingUnavailable`, as in the source's class hierarchy.
use mathlib.Core.Path.{◌≡◌}

pub data Error : Type 0 where
  not_found forbidden validation_error conflict routing_unavailable : Error
  -- `AuthenticationError` of src/kefu/web/auth.py
  authentication_error : Error
  -- `ValueError`, `TypeError`, `RuntimeError` and `AssertionError`, which no caller of the services
  -- expects.
  value_error type_error runtime_error assertion_error : Error

pub data Result {ℓ} (A : Type ℓ) : Type ℓ where
  ok : A → Result A
  err : Error → Result A

pub ok-injective {ℓ} : {A : Type ℓ} {a b : A} → Path (Result A) (ok a) (ok b) → a ≡ b
ok-injective h = cc
