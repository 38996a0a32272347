-- ===== src/Inspection/Ascii.antt =====
-- The times of src/kefu/inspection/schedule.py that are written in ASCII: their order as texts is that
-- of the clock.
use message_router.Prelude.{
  ℕ, ◌+◌, ◌-◌, ◌*◌, ◌≤◌, ◌<◌, ◌≡◌, refl, ap, ◌∙◌, Bool, true, false, ◌&&◌, ◌||◌, [], ◌∷◌, ◌==◌,
  nat_eq, leb, Text, All, arith,
}
use message_router.Inspection.{Digits, is_time, text_leb, parsed_minutes}

-- What Python's documentation says of `\d` and `int` on ASCII: the digits are 0 to 9.
pub record IsPython (digits : Digits) : Type 0 where
  pub ascii_digit : (c : ℕ) → c < 128 → digits.is_digit c ≡ true → (48 ≤ c) × (c ≤ 57)
  pub ascii_value : (c : ℕ) → 48 ≤ c → c ≤ 57 → digits.value c ≡ c - 48

abbrev pub IsAscii : Text → Type 0
IsAscii s = All (λ c. c < 128) s

abbrev IsDigit : ℕ → Type 0
IsDigit c = (48 ≤ c) × (c ≤ 57)

module _ (digits : Digits) (python : IsPython digits) where
  -- A time of the clock, by its characters.
  pub record IsClock (s : Text) : Type 0 where
    pub a : ℕ
    pub b : ℕ
    pub d : ℕ
    pub e : ℕ
    pub text : s ≡ a ∷ b ∷ 58 ∷ d ∷ e ∷ []
    pub hours : (48 ≤ a) × (a ≤ 50) × (48 ≤ b) × (b ≤ 57) × (a * 10 + b ≤ 551)
    pub minutes : (48 ≤ d) × (d ≤ 53) × (48 ≤ e) × (e ≤ 57)

  clock_order :
      (a b d e a' b' d' e' : ℕ)
      → 48 ≤ a
      → 48 ≤ b
      → b ≤ 57
      → 48 ≤ d
      → d ≤ 53
      → 48 ≤ e
      → e ≤ 57
      → 48 ≤ a'
      → 48 ≤ b'
      → b' ≤ 57
      → 48 ≤ d'
      → d' ≤ 53
      → 48 ≤ e'
      → e' ≤ 57
      → text_leb (a ∷ b ∷ 58 ∷ d ∷ e ∷ []) (a' ∷ b' ∷ 58 ∷ d' ∷ e' ∷ [])
        ≡ leb
            (((a - 48) * 10 + (b - 48)) * 60 + ((d - 48) * 10 + (e - 48)))
            (((a' - 48) * 10 + (b' - 48)) * 60 + ((d' - 48) * 10 + (e' - 48)))
  clock_order a b d e a' b' d' e' p₁ p₂ p₃ p₄ p₅ p₆ p₇ q₁ q₂ q₃ q₄ q₅ q₆ q₇ = ground arith

  hour_range :
      (a b : ℕ) (digit : Bool)
      → (digit ≡ true → (48 ≤ b) × (b ≤ 57))
      → (((a == 48) || (a == 49)) && digit) || ((a == 50) && (leb 48 b && leb b 51)) ≡ true
      → (48 ≤ a) × (a ≤ 50) × (48 ≤ b) × (b ≤ 57) × (a * 10 + b ≤ 551)
  hour_range a b true k h = let (l, u) = k refl in ground arith
  hour_range a b false k h = ground arith

  pub is_time-IsClock : (s : Text) → is_time digits s ≡ true → IsAscii s → IsClock s
  unfolding is_time
  is_time-IsClock (a ∷ b ∷ c ∷ d ∷ e ∷ []) h (x, (y, (z, (u, (v, w))))) =
      let last_digit : digits.is_digit e ≡ true = ground arith in
      let e_range = python.ascii_digit e v last_digit in
      let middle : c ≡ 58 = ground arith in
      let d_low : 48 ≤ d = ground arith in
      let d_high : d ≤ 53 = ground arith in
      let hour = hour_range a b (digits.is_digit b) (python.ascii_digit b y) (ground arith) in
      record {
        a = a;
        b = b;
        d = d;
        e = e;
        text = rw middle refl;
        hours = hour;
        minutes = (d_low, d_high, e_range.0, e_range.1);
      }
  is_time-IsClock [] h w = absurd (cc)
  is_time-IsClock (a ∷ []) h w = absurd (cc)
  is_time-IsClock (a ∷ b ∷ []) h w = absurd (cc)
  is_time-IsClock (a ∷ b ∷ c ∷ []) h w = absurd (cc)
  is_time-IsClock (a ∷ b ∷ c ∷ d ∷ []) h w = absurd (cc)
  is_time-IsClock (a ∷ b ∷ c ∷ d ∷ e ∷ f ∷ s) h w = absurd (cc)

  pub parsed-IsClock :
      {s : Text} (t : IsClock s)
      → parsed_minutes digits s
        ≡ ((t.a - 48) * 10 + (t.b - 48)) * 60 + ((t.d - 48) * 10 + (t.e - 48))
  parsed-IsClock {s} t =
      let (a_low, a_high, b_low, b_high, _) = t.hours in
      let (d_low, d_high, e_low, e_high) = t.minutes in
      ap (parsed_minutes digits) t.text
      ∙ rw (python.ascii_value t.a a_low (omega (arith, a_high))) (
          rw (python.ascii_value t.b b_low b_high) (
            rw (python.ascii_value t.d d_low (omega (arith, d_high)))
              (rw (python.ascii_value t.e e_low e_high) refl)))

  pub parsed_bound : {s : Text} → IsClock s → parsed_minutes digits s < 1440
  parsed_bound t =
      let (a_low, a_high, b_low, b_high, ab) = t.hours in
      let (d_low, d_high, e_low, e_high) = t.minutes in
      rw (parsed-IsClock t)
        (omega (arith, a_low, a_high, b_low, b_high, ab, d_low, d_high, e_low, e_high))

  pub text_leb-parsed :
      (s t : Text)
      → IsClock s
      → IsClock t
      → text_leb s t ≡ leb (parsed_minutes digits s) (parsed_minutes digits t)
  text_leb-parsed s t x y =
      let (a_low, a_high, b_low, b_high, _) = x.hours in
      let (d_low, d_high, e_low, e_high) = x.minutes in
      let (a_low', a_high', b_low', b_high', _) = y.hours in
      let (d_low', d_high', e_low', e_high') = y.minutes in
      rw (parsed-IsClock x) (
        rw (parsed-IsClock y) (
          rw x.text (
            rw y.text (
              clock_order x.a x.b x.d x.e y.a y.b y.d y.e a_low b_low b_high d_low d_high e_low
                e_high a_low' b_low' b_high' d_low' d_high' e_low' e_high'))))
