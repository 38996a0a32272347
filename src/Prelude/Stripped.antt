-- ===== src/Prelude/Stripped.antt =====
-- Texts that `str.strip` leaves alone.
use mathlib.Core.Path.{◌≡◌, refl}
use mathlib.Core.Bool.{false}
use mathlib.Core.Logic.{inl, inr}
use mathlib.Core.List.{List, [], ◌∷◌, reverse, reverse-cons, reverse-reverse}
use Prim.Native.Nat.{ℕ}
use message_router.Prelude.Tests.{Bool-cases}
use message_router.Prelude.Lists.{All, All-append}
use message_router.Prelude.Texts.{Text, is_space, lstrip, rstrip, strip}

abbrev pub IsInk : ℕ → Type 0
IsInk c = is_space c ≡ false

All-reverse {ℓ} : {A : Type ℓ} (P : A → Type 0) (xs : List A) → All P xs → All P (reverse xs)
All-reverse P [] h = tt
All-reverse P (x ∷ xs) h =
    rw (reverse-cons x xs) (All-append P (reverse xs) (x ∷ []) (All-reverse P xs h.1) (h.0, tt))

lstrip-ink : (s : Text) → All IsInk s → lstrip s ≡ s
unfolding lstrip
lstrip-ink [] h = refl
lstrip-ink (c ∷ s) h = rw h.0 refl

-- A text without spaces is its own `strip()`.
pub strip-ink : (s : Text) → All IsInk s → strip s ≡ s
unfolding strip rstrip
strip-ink s h =
    rw (lstrip-ink s h) (rw (lstrip-ink (reverse s) (All-reverse IsInk s h)) (reverse-reverse s))

All-lstrip : (P : ℕ → Type 0) (s : Text) → All P s → All P (lstrip s)
unfolding lstrip
All-lstrip P [] h = tt
All-lstrip P (c ∷ s) h = elim (Bool-cases (is_space c)) [
  | inl t ↦ rw t (All-lstrip P s h.1)
  | inr n ↦ rw n h
]

-- What holds of each character of a text holds of those that `strip` leaves.
pub All-strip : (P : ℕ → Type 0) (s : Text) → All P s → All P (strip s)
unfolding strip rstrip
All-strip P s h =
    All-reverse P (lstrip (reverse (lstrip s)))
      (All-lstrip P (reverse (lstrip s)) (All-reverse P (lstrip s) (All-lstrip P s h)))
