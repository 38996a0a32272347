-- ===== src/Witnesses/Inspection.antt =====
-- The theorems on the inspection's schedule, at the default times and noon.
use message_router.Prelude.{
  ℕ, ◌+◌, ◌-◌, ◌≡◌, refl, none, some, List, [], ◌∷◌, ◌&&◌, ◌||◌, ◌*◌, if◌then◌else◌, leb, Text,
  codes, All, any, list_beq, arith, is_space, strip, lstrip, rstrip,
}
use message_router.Models.{Moment}
use message_router.CaseDesk.Leasing.{insert_by, sort_by}
use message_router.Inspection.{
  Digits, WallClock, items, all_texts, is_time, has_repeated, normalize_inspection_times,
  next_inspection_at, scheduled_slot, day,
}
use message_router.Inspection.Ascii.{IsPython, IsAscii}
use message_router.Inspection.Next.{IsNext, next_inspection_at-IsNext}
use message_router.Inspection.Slots.{next_inspection_at-scheduled_slot}

-- The digits of ASCII, and the fullwidth ones among the others.
abbrev digits : Digits
digits = record {
  is_digit = λ c. (leb 48 c && leb c 57) || (leb 65_296 c && leb c 65_305);
  value = λ c. if leb c 57 then c - 48 else c - 65_296;
}

python : IsPython digits
python = record { ascii_digit = λ c lt h. ground arith; ascii_value = λ c le le'. ground arith }

abbrev local : WallClock
local t = t + 28_800_000_000

abbrev times : List Text
times = codes "21:30" ∷ codes " 08:55 " ∷ codes "11:30" ∷ []

abbrev in_order : List Text
in_order = codes "08:55" ∷ codes "11:30" ∷ codes "21:30" ∷ []

ascii : All IsAscii times
ascii = ground arith

normalized : normalize_inspection_times digits (items (all_texts times)) ≡ some in_order
unfolding normalize_inspection_times is_time has_repeated any list_beq sort_by insert_by strip
    lstrip rstrip is_space
normalized = refl

-- 2026-03-07, at noon
abbrev noon : Moment
noon = 739_681 * day + 14_400_000_000

next_inspection_at-IsNext_example :
    (slot : ℕ) × (next_inspection_at digits local noon times ≡ some (some slot))
    × IsNext digits (local noon) in_order slot
next_inspection_at-IsNext_example =
    next_inspection_at-IsNext digits python local noon times ascii normalized (omega arith)

next_inspection_at-scheduled_slot_example :
    (slot : ℕ) × (next_inspection_at digits local noon times ≡ some (some slot))
    × ((value : Moment)
        → local value ≡ slot
        → (label : Text) × (scheduled_slot local (λ n. []) value in_order ≡ some label))
next_inspection_at-scheduled_slot_example =
    next_inspection_at-scheduled_slot digits python local (λ n. []) noon times ascii normalized
      (omega arith)

-- A time with a fullwidth digit is accepted, and is not recognized when it comes.
abbrev fullwidth : Text
fullwidth = 48 ∷ 65_304 ∷ 58 ∷ 48 ∷ 48 ∷ []

fullwidth_accepted :
    normalize_inspection_times digits (items (all_texts (fullwidth ∷ []))) ≡ some (fullwidth ∷ [])
unfolding normalize_inspection_times is_time has_repeated any list_beq sort_by insert_by strip
    lstrip rstrip is_space
fullwidth_accepted = refl

fullwidth_missed : scheduled_slot local (λ n. []) (739_681 * day) (fullwidth ∷ []) ≡ none
unfolding scheduled_slot any list_beq
fullwidth_missed = refl
