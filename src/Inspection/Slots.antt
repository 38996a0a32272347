-- ===== src/Inspection/Slots.antt =====
-- The slots of src/kefu/inspection/schedule.py are recognized when they come.
use message_router.Prelude.{
  ℕ, ◌+◌, ◌*◌, ◌-◌, ◌/◌, ◌%◌, ◌≤◌, ◌<◌, ◌≡◌, refl, sym, subst, ap, ◌∙◌, true, some, List, [], ◌∷◌,
  ◌++◌, ◌==◌, text_eq, equal_refl, Text, any, All, All-at, In, inl, inr, arith,
}
use message_router.Models.{Moment}
use message_router.Inspection.{
  Digits, WallClock, items, all_texts, colon, normalize_inspection_times, next_inspection_at,
  parsed_minutes, minute, day, last_day, two_digits, hour_of, minute_of, scheduled_slot,
}
use message_router.Inspection.Ascii.{IsPython, IsAscii, IsClock, parsed-IsClock}
use message_router.Inspection.Next.{Clocks, IsSlot, normalized-Times, next_inspection_at-IsNext}

In-any : (t s : Text) (ts : List Text) → In t ts → t ≡ s → any (λ u. u == s) ts ≡ true
unfolding any
In-any t s [] i e = absurd i
In-any t s (u ∷ us) (inl p) e = rw (ap (λ (x : Text). x == s) (sym p ∙ e)) (rw (equal_refl s) refl)
In-any t s (u ∷ us) (inr i) e = let h = In-any t s us i e in ground arith

-- The hour and the minute of a clock that is so many minutes after midnight.
clock_hour : (n h m : ℕ) → h < 24 → m < 60 → hour_of (n * day + (h * 60 + m) * minute) ≡ h
clock_hour n h m p q = omega (arith, p, q)

clock_minute : (n h m : ℕ) → h < 24 → m < 60 → minute_of (n * day + (h * 60 + m) * minute) ≡ m
clock_minute n h m p q = omega (arith, p, q)

-- Two characters are the digits of the number that they write.
tens_of : (a b : ℕ) → 48 ≤ a → 48 ≤ b → b ≤ 57 → 48 + ((a - 48) * 10 + (b - 48)) / 10 ≡ a
tens_of a b p q r = omega (arith, p, q, r)

ones_of : (a b : ℕ) → 48 ≤ a → 48 ≤ b → b ≤ 57 → 48 + ((a - 48) * 10 + (b - 48)) % 10 ≡ b
ones_of a b p q r = omega (arith, p, q, r)

module _ (digits : Digits) (python : IsPython digits) where
  -- The wall clock shows a time of the clock.
  clock-text :
      (n : ℕ) {t : Text} (c : IsClock digits python t)
      → t
        ≡ two_digits (hour_of (n * day + parsed_minutes digits t * minute))
          ++ colon ∷ two_digits (minute_of (n * day + parsed_minutes digits t * minute))
  clock-text n c =
      let (a_low, a_high, b_low, b_high, ab) = c.hours in
      let (d_low, d_high, e_low, e_high) = c.minutes in
      let h = (c.a - 48) * 10 + (c.b - 48) in
      let m = (c.d - 48) * 10 + (c.e - 48) in
      let h_bound : h < 24 = omega (arith, a_low, b_low, ab) in
      let m_bound : m < 60 = omega (arith, d_low, d_high, e_low, e_high) in
      c.text
      ∙ sym (
          rw (parsed-IsClock digits python c) (
            rw (clock_hour n h m h_bound m_bound) (
              rw (clock_minute n h m h_bound m_bound) (
                rw (tens_of c.a c.b a_low b_low b_high) (
                  rw (ones_of c.a c.b a_low b_low b_high) (
                    rw (tens_of c.d c.e d_low e_low e_high)
                      (rw (ones_of c.d c.e d_low e_low e_high) refl)))))))

  -- For times that are written in ASCII and that `normalize_inspection_times` accepts, on any day but
  -- the last of the calendar: `next_inspection_at` returns a slot, and at each moment at which the wall
  -- clock shows that slot, `scheduled_slot` recognizes it by the normalized times.
  pub next_inspection_at-scheduled_slot :
      (local : WallClock) (date_text : ℕ → Text) (now : Moment) (times : List Text)
      {normalized : List Text}
      → All IsAscii times
      → normalize_inspection_times digits (items (all_texts times)) ≡ some normalized
      → local now / day < last_day
      → (slot : ℕ) × (next_inspection_at digits local now times ≡ some (some slot))
        × ((value : Moment)
            → local value ≡ slot
            → (label : Text) × (scheduled_slot local date_text value normalized ≡ some label))
  unfolding scheduled_slot
  next_inspection_at-scheduled_slot local date_text now times {normalized} a h early =
      let (slot, e, next) = next_inspection_at-IsNext digits python local now times a h early in
      let (_, _, _, clocks) = normalized-Times digits python times a h in
      (slot, e, λ value q. recognized slot next.is_slot clocks value q)
    where
      recognized :
          (slot : ℕ)
          → IsSlot digits normalized slot
          → Clocks digits python normalized
          → (value : Moment) → local value ≡ slot
          → (label : Text) × (scheduled_slot local date_text value normalized ≡ some label)
      recognized slot (n, t, i, e) clocks value q =
          let shown = clock-text n (All-at (IsClock digits python) normalized clocks i) in
          let there =
            subst
              (λ clock.
                any (λ u. u == two_digits (hour_of clock) ++ colon ∷ two_digits (minute_of clock))
                  normalized
                ≡ true)
              (sym (q ∙ e)) (In-any t _ normalized i shown) in
          (
            date_text (local value / day)
                ++ colon ∷ two_digits (hour_of (local value))
                ++ two_digits (minute_of (local value)),
            rw there refl,
          )
