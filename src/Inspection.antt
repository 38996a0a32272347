-- ===== src/Inspection.antt =====
-- src/kefu/inspection/schedule.py: the daily times of the inspection, in Shanghai's local time.
pub mod Ascii
pub mod Sorting
pub mod Next
pub mod Slots
use message_router.Prelude.{
  ℕ, ◌+◌, ◌-◌, ◌*◌, ◌/◌, ◌%◌, Bool, true, false, not, ◌&&◌, ◌||◌, Option, none, some, List, [], ◌∷◌,
  ◌++◌, ◌==◌, nat_eq, text_eq, leb, ltb, if◌then◌else◌, Text, strip, any, is_empty,
}
use message_router.Models.{Moment}
use message_router.CaseDesk.Leasing.{sort_by}

-- Python's tables of the decimal digits of Unicode: what `\d` matches and `int` reads.
pub record Digits : Type 0 where
  pub is_digit : ℕ → Bool
  pub value : ℕ → ℕ

-- Shanghai's wall clock by `zoneinfo`: microseconds since the year 1. Times with this zone are
-- compared by it.
abbrev pub WallClock : Type 0
WallClock = Moment → ℕ

-- The argument of `normalize_inspection_times`: a text, a list or tuple whose elements may be no
-- texts, or something else.
pub data Given : Type 0 where
  text : Text → Given
  items : List (Option Text) → Given
  something_else : Given

abbrev pub colon : ℕ
colon = 58

unfoldable pub split_comma : Text → Text → List Text
split_comma taken [] = taken ∷ []
split_comma taken (c ∷ cs) =
    let done = split_comma [] cs in
    let more = split_comma (taken ++ c ∷ []) cs in if c == 44 then taken ∷ done else more

abbrev pub all_texts : List Text → List (Option Text)
all_texts [] = []
all_texts (t ∷ ts) = some t ∷ all_texts ts

abbrev pub given_items : Given → Option (List (Option Text))
given_items (text s) = some (all_texts (split_comma [] s))
given_items (items ts) = some ts
given_items something_else = none

-- Lexicographic order of texts.
abbrev pub text_leb : Text → Text → Bool
text_leb [] t = true
text_leb (a ∷ s) [] = false
text_leb (a ∷ s) (b ∷ t) = let rest = text_leb s t in ltb a b || ((a == b) && rest)

unfoldable pub has_repeated : List Text → Bool
has_repeated [] = false
has_repeated (t ∷ ts) = any (λ s. s == t) ts || has_repeated ts

abbrev pub minute : ℕ
minute = 60_000_000

abbrev pub day : ℕ
day = 86_400_000_000

-- The last day of the calendar, 9999-12-31, counted from day 0.
abbrev pub last_day : ℕ
last_day = 3_652_058

module _ (digits : Digits) where
  -- `^(?:[01]\d|2[0-3]):[0-5]\d$`
  unfoldable pub is_time : Text → Bool
  is_time (a ∷ b ∷ c ∷ d ∷ e ∷ []) =
      (((((a == 48) || (a == 49)) && digits.is_digit b) || ((a == 50) && (leb 48 b && leb b 51)))
        && (c == colon))
      && ((leb 48 d && leb d 53) && digits.is_digit e)
  is_time _ = false

  abbrev pub kept : Bool → Text → Option (List Text) → Option (List Text)
  kept true t (some ts) = some (t ∷ ts)
  kept _ t _ = none

  abbrev pub normalized_items : List (Option Text) → Option (List Text)
  normalized_items [] = some []
  normalized_items (none ∷ rest) = none
  normalized_items (some raw ∷ rest) =
      kept (is_time (strip raw)) (strip raw) (normalized_items rest)

  abbrev pub sorted_times : Option (List Text) → Option (List Text)
  sorted_times none = none
  sorted_times (some ts) =
      if is_empty ts || has_repeated ts then none else some (sort_by text_leb ts)

  -- None stands for a ValidationError.
  unfoldable pub normalize_inspection_times : Given → Option (List Text)
  normalize_inspection_times value = elim (given_items value) [
    | none ↦ none
    | some ts ↦ sorted_times (normalized_items ts)
  ]

  -- `(int(item[:2]), int(item[3:]))`, in minutes of the day
  abbrev pub parsed_minutes : Text → ℕ
  parsed_minutes (a ∷ b ∷ c ∷ d ∷ e ∷ rest) =
      (digits.value a * 10 + digits.value b) * 60 + (digits.value d * 10 + digits.value e)
  parsed_minutes _ = 0

  -- The first of the day's slots that is not before the clock.
  unfoldable pub slot_of_day : ℕ → ℕ → List Text → Option ℕ
  slot_of_day clock start [] = none
  slot_of_day clock start (t ∷ ts) =
      let later = slot_of_day clock start ts in
      let candidate = start + parsed_minutes t * minute in
      if leb clock candidate then some candidate else later

  -- Today's slots, then tomorrow's; there is no day after the last.
  abbrev pub tomorrow : Option ℕ → ℕ → List Text → Option ℕ
  tomorrow (some slot) clock times = some slot
  tomorrow none clock times =
      if leb last_day (clock / day) then none else slot_of_day clock ((clock / day + 1) * day) times

  unfoldable pub next_slot : ℕ → List Text → Option ℕ
  next_slot clock times = tomorrow (slot_of_day clock (clock / day * day) times) clock times

  abbrev pub slot_among : ℕ → Option (List Text) → Option (Option ℕ)
  slot_among clock none = none
  slot_among clock (some normalized) = some (next_slot clock normalized)

  -- None for invalid times, and none inside for the errors that mean that there is no slot.
  unfoldable pub next_inspection_at : WallClock → Moment → List Text → Option (Option ℕ)
  unfolding next_slot normalize_inspection_times
  next_inspection_at local now times =
      slot_among (local now) (normalize_inspection_times (items (all_texts times)))

-- `f"{number:02d}"`, for numbers below 100
abbrev pub two_digits : ℕ → Text
two_digits n = (48 + n / 10) ∷ (48 + n % 10) ∷ []

-- The hour and the minute of a wall clock.
abbrev pub hour_of : ℕ → ℕ
hour_of clock = clock / 3_600_000_000 % 24

abbrev pub minute_of : ℕ → ℕ
minute_of clock = clock / minute % 60

-- `date_text` is the `isoformat` of a day.
unfoldable pub scheduled_slot : WallClock → (ℕ → Text) → Moment → List Text → Option Text
scheduled_slot local date_text value times =
    let clock = local value in
    let hour = two_digits (hour_of clock) in
    let minutes = two_digits (minute_of clock) in
    if any (λ t. t == hour ++ colon ∷ minutes) times
    then some (date_text (clock / day) ++ colon ∷ hour ++ minutes)
    else none
