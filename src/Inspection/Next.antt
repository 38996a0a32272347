-- ===== src/Inspection/Next.antt =====
-- The next slot that src/kefu/inspection/schedule.py computes is the earliest one.
use message_router.Prelude.{
  ap, ◌∙◌, All-strip, some-injective, ltb, ℕ, ◌+◌, ◌*◌, ◌/◌, ◌≤◌, ◌<◌, ◌≡◌, refl, subst, Bool, true,
  false, ◌||◌, Option, none, some, List, [], ◌∷◌, leb, if◌then◌else◌, is_empty, strip, Text, All,
  All-weaken, All-at, In, Bool-cases, inl, inr, arith,
}
use message_router.Models.{Moment}
use message_router.CaseDesk.Leasing.{sort_by}
use message_router.CaseDesk.Leasing.Rows.{All-sort_by}
use message_router.Inspection.{
  slot_among, Digits, WallClock, items, all_texts, text_leb, has_repeated, is_time, kept,
  normalized_items, sorted_times, normalize_inspection_times, parsed_minutes, minute, day, last_day,
  slot_of_day, tomorrow, next_slot, next_inspection_at,
}
use message_router.Inspection.Sorting.{Ordered, sort_by-Ordered, sort_by-is_empty}
use message_router.Inspection.Ascii.{
  IsPython, IsAscii, IsClock, is_time-IsClock, parsed_bound, text_leb-parsed,
}

module _ (digits : Digits) where
  -- A moment of the wall clock at which one of the times comes, on any day.
  abbrev pub IsSlot : List Text → ℕ → Type 0
  IsSlot ts m = (n : ℕ) × (t : Text) × In t ts × (m ≡ n * day + parsed_minutes digits t * minute)

  -- What the search of one day finds, in times that are in order.
  abbrev Found : ℕ → ℕ → List Text → Option ℕ → Type 0
  Found clock start ts none = All (λ t. start + parsed_minutes digits t * minute < clock) ts
  Found clock start ts (some slot) =
      (clock ≤ slot)
      × ((t : Text) × In t ts × (slot ≡ start + parsed_minutes digits t * minute))
      × All
          (λ t.
            clock ≤ start + parsed_minutes digits t * minute
            → slot ≤ start + parsed_minutes digits t * minute)
          ts

  abbrev AllOrdered : List Text → Type 0
  AllOrdered ts = Ordered (parsed_minutes digits) ts

  after_first :
      (clock start : ℕ) (t : Text) (ts : List Text)
      → All (λ u. parsed_minutes digits t ≤ parsed_minutes digits u) ts
      → All
          (λ u.
            clock ≤ start + parsed_minutes digits u * minute
            → start + parsed_minutes digits t * minute ≤ start + parsed_minutes digits u * minute)
          ts
  after_first clock start t ts h = All-weaken _ _ ts (λ u le _. omega (arith, le)) h

  slot_of_day-Found :
      (clock start : ℕ) (ts : List Text)
      → AllOrdered ts
      → Found clock start ts (slot_of_day digits clock start ts)
  unfolding slot_of_day
  slot_of_day-Found clock start [] o = tt
  slot_of_day-Found clock start (t ∷ ts) (first_is_least, o) =
      elim (Bool-cases (leb clock (start + parsed_minutes digits t * minute))) [
        | inl b ↦ rw b (
          ground arith,
          (t, inl refl, refl),
          ((λ _. omega arith), after_first clock start t ts first_is_least),
        )
        | inr n ↦
            let before : start + parsed_minutes digits t * minute < clock = ground arith in
            rw n (
              later (slot_of_day digits clock start ts) before (slot_of_day-Found clock start ts o))
      ]
    where
      later :
          (o : Option ℕ)
          → start + parsed_minutes digits t * minute < clock
          → Found clock start ts o
          → Found clock start (t ∷ ts) o
      later none b h = (b, h)
      later (some slot) b (le, (u, i, e), least) =
          (le, (u, inr i, e), ((λ k. absurd (omega (arith, k, b))), least))

  -- The slot is at or after the clock, comes at one of the times, and no other such slot is earlier.
  pub record IsNext (clock : ℕ) (ts : List Text) (slot : ℕ) : Type 0 where
    pub not_past : clock ≤ slot
    pub is_slot : IsSlot ts slot
    pub least : (other : ℕ) → IsSlot ts other → clock ≤ other → slot ≤ other

  abbrev Bounded : List Text → Type 0
  Bounded ts = All (λ t. parsed_minutes digits t < 1440) ts

  Found-IsNext :
      (clock n slot : ℕ) (ts : List Text)
      → Bounded ts
      → ((k : ℕ) (t : Text) → k < n → In t ts → k * day + parsed_minutes digits t * minute < clock)
      → Found clock (n * day) ts (some slot)
      → IsNext clock ts slot
  Found-IsNext clock n slot ts bounded past (le, (t, i, e), least_today) = record {
    not_past = le;
    is_slot = (n, t, i, e);
    least = λ other (k, u, j, q) h.
        by_day other k u j q h (All-at (λ x. parsed_minutes digits x < 1440) ts bounded i) (
          All-at
            (λ x.
              clock ≤ n * day + parsed_minutes digits x * minute
              → slot ≤ n * day + parsed_minutes digits x * minute)
            ts least_today j);
  }
    where
      by_day :
          (other k : ℕ) (u : Text)
          → In u ts
          → other ≡ k * day + parsed_minutes digits u * minute
          → clock ≤ other
          → parsed_minutes digits t < 1440
          → (clock ≤ n * day + parsed_minutes digits u * minute
              → slot ≤ n * day + parsed_minutes digits u * minute)
          → slot ≤ other
      by_day other k u j q h t_bound today = elim (Bool-cases (ltb k n)) [
        | inl b ↦ let before = past k u (ground arith) j in absurd (omega (arith, before, q, h))
        | inr m ↦ elim (Bool-cases (ltb n k)) [
          | inl b ↦ let after : n < k = ground arith in omega (arith, e, q, t_bound, after)
          | inr l ↦
              let same : k ≡ n = ground arith in
              let q' : other ≡ n * day + parsed_minutes digits u * minute = rw same at q in
              let now = today (omega (arith, q', h)) in omega (arith, now, q')
        ]
      ]

  -- A day's search that starts after the clock finds a slot.
  some_later :
      (clock start : ℕ) (ts : List Text) (o : Option ℕ)
      → clock ≤ start
      → is_empty ts ≡ false
      → Found clock start ts o
      → (slot : ℕ) × (o ≡ some slot)
  some_later clock start (t ∷ ts) none le n (b, h) = absurd (omega (arith, le, b))
  some_later clock start (t ∷ ts) (some slot) le n h = (slot, refl)
  some_later clock start [] o le n h = absurd (cc)

  next_slot-IsNext :
      (clock : ℕ) (ts : List Text)
      → AllOrdered ts
      → Bounded ts
      → is_empty ts ≡ false
      → clock / day < last_day
      → (slot : ℕ) × (next_slot digits clock ts ≡ some slot) × IsNext clock ts slot
  unfolding next_slot
  next_slot-IsNext clock ts ordered bounded given early =
      today (slot_of_day digits clock (clock / day * day) ts)
        (slot_of_day-Found clock (clock / day * day) ts ordered)
    where
      past_before :
          (k : ℕ) (t : Text)
          → k < clock / day
          → In t ts
          → k * day + parsed_minutes digits t * minute < clock
      past_before k t lt i =
          let bound = All-at (λ x. parsed_minutes digits x < 1440) ts bounded i in
          omega (arith, lt, bound)

      past_today :
          Found clock (clock / day * day) ts none
          → (k : ℕ) (t : Text) → k < clock / day + 1
          → In t ts
          → k * day + parsed_minutes digits t * minute < clock
      past_today h k t lt i = elim (Bool-cases (ltb k (clock / day))) [
        | inl b ↦ past_before k t (ground arith) i
        | inr n ↦
            let same : k ≡ clock / day = ground arith in
            rw same
              (All-at (λ x. clock / day * day + parsed_minutes digits x * minute < clock) ts h i)
      ]

      today :
          (o : Option ℕ)
          → Found clock (clock / day * day) ts o
          → (slot : ℕ) × (tomorrow digits o clock ts ≡ some slot) × IsNext clock ts slot
      today (some slot) h =
          (slot, refl, Found-IsNext clock (clock / day) slot ts bounded past_before h)
      today none h =
          let start = (clock / day + 1) * day in
          let found = slot_of_day-Found clock start ts ordered in
          let (slot, e) =
            some_later clock start ts (slot_of_day digits clock start ts) (omega arith) given
              found in
          let more : leb last_day (clock / day) ≡ false = ground arith in
          (
            slot,
            rw more e,
            Found-IsNext clock (clock / day + 1) slot ts bounded (past_today h)
                (subst (Found clock start ts) e found),
          )

module _ (digits : Digits) (python : IsPython digits) where
  abbrev pub Clocks : List Text → Type 0
  Clocks ts = All (IsClock digits python) ts

  Clocks-kept :
      (b : Bool) (t : Text) (o : Option (List Text)) {ts : List Text}
      → is_time digits t ≡ b
      → IsAscii t
      → ((us : List Text) → o ≡ some us → Clocks us)
      → kept digits b t o ≡ some ts
      → Clocks ts
  Clocks-kept true t (some us) i a k h =
      subst Clocks (some-injective h) (is_time-IsClock digits python t i a, k us refl)
  Clocks-kept true t none i a k h = absurd (cc)
  Clocks-kept false t o i a k h = absurd (cc)

  Clocks-normalized :
      (times : List Text) {ts : List Text}
      → All IsAscii times
      → normalized_items digits (all_texts times) ≡ some ts
      → Clocks ts
  Clocks-normalized [] a h = subst Clocks (some-injective h) tt
  Clocks-normalized (raw ∷ times) (a, later) h =
      Clocks-kept (is_time digits (strip raw)) (strip raw)
        (normalized_items digits (all_texts times)) refl (All-strip (λ c. c < 128) raw a)
        (λ us e. Clocks-normalized times later e) h

  -- Times in order of the clock, each before midnight, and at least one.
  abbrev pub Times : List Text → Type 0
  Times ts = AllOrdered digits ts × Bounded digits ts × (is_empty ts ≡ false) × Clocks ts

  sorted-Times :
      (ts : List Text) {us : List Text}
      → Clocks ts
      → (if is_empty ts || has_repeated ts then none else some (sort_by text_leb ts)) ≡ some us
      → Times us
  sorted-Times [] c h = absurd (cc)
  sorted-Times (t ∷ ts) {us} c h = elim (Bool-cases (has_repeated (t ∷ ts))) [
    | inl r ↦ let k = rw r at h in absurd (cc)
    | inr n ↦
        let k = rw n at h in
        subst Times (some-injective k) (
          sort_by-Ordered text_leb (parsed_minutes digits) (IsClock digits python)
              (text_leb-parsed digits python) (t ∷ ts) c,
          All-weaken (IsClock digits python) (λ u. parsed_minutes digits u < 1440)
              (sort_by text_leb (t ∷ ts)) (λ u clock. parsed_bound digits python clock)
              (All-sort_by (IsClock digits python) text_leb (t ∷ ts) c),
          sort_by-is_empty text_leb t ts,
          All-sort_by (IsClock digits python) text_leb (t ∷ ts) c,
        )
  ]

  pub normalized-Times :
      (times : List Text) {us : List Text}
      → All IsAscii times
      → normalize_inspection_times digits (items (all_texts times)) ≡ some us
      → Times us
  unfolding normalize_inspection_times
  normalized-Times times {us} a h = by_items (normalized_items digits (all_texts times)) refl h
    where
      by_items :
          (o : Option (List Text))
          → normalized_items digits (all_texts times) ≡ o
          → sorted_times digits o ≡ some us
          → Times us
      by_items none e k = absurd (cc)
      by_items (some ts) e k = sorted-Times ts (Clocks-normalized times a e) k

  -- For times that are written in ASCII and that `normalize_inspection_times` accepts, on any day but
  -- the last of the calendar, `next_inspection_at` returns a slot, which is at or after the clock; it
  -- comes at one of the normalized times, and is the earliest that does.
  pub next_inspection_at-IsNext :
      (local : WallClock) (now : Moment) (times : List Text) {normalized : List Text}
      → All IsAscii times
      → normalize_inspection_times digits (items (all_texts times)) ≡ some normalized
      → local now / day < last_day
      → (slot : ℕ) × (next_inspection_at digits local now times ≡ some (some slot))
        × IsNext digits (local now) normalized slot
  unfolding next_inspection_at
  next_inspection_at-IsNext local now times {normalized} a h early =
      let (ordered, bounded, given, _) = normalized-Times times a h in
      let (slot, e, next) =
        next_slot-IsNext digits (local now) normalized ordered bounded given early in
      (slot, ap (slot_among digits (local now)) h ∙ ap some e, next)
