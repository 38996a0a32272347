-- ===== src/Markers/Normalized.antt =====
-- Normal references: what `normalize_case_ref` of src/kefu/case_desk/markers.py returns.
use message_router.Prelude.{
  ℕ, zero, suc, ◌<◌, ◌≤◌, ◌≡◌, refl, ◌⊎◌, true, [], ◌∷◌, ap, ◌==◌, nat_eq, Text, is_space, strip,
  strip-ink, IsInk, length, any, all, All, Bool-cases, inl, inr, arith, subst,
}
use message_router.Session.{Db, Env, ok, ok-injective, validation_error}
use message_router.Session.Query
use message_router.Session.Query.{ensure, gets, >>=-ok, >>=-eq-ok}
use message_router.Session.Tx.{Session, ◌>>=◌}
use message_router.Markers.{
  is_crockford, upper_char, upper, normalize_case_ref, char_at, crockford_alphabet,
  default_case_ref_length, draw_chars, new_case_ref,
}

crockford-bounds : (c : ℕ) → is_crockford c ≡ true → ((48 ≤ c) × (c ≤ 57)) ⊎ ((65 ≤ c) × (c ≤ 90))
unfolding is_crockford any
crockford-bounds c h = ground arith

upper_char-crockford :
    (table : ℕ → Text) (c : ℕ) → is_crockford c ≡ true → upper_char table c ≡ c ∷ []
unfolding upper_char
upper_char-crockford table c h = let b = crockford-bounds c h in ground arith

crockford-IsInk : (c : ℕ) → is_crockford c ≡ true → IsInk c
unfolding is_space
crockford-IsInk c h = let b = crockford-bounds c h in ground arith

upper-crockford : (table : ℕ → Text) (s : Text) → all is_crockford s ≡ true → upper table s ≡ s
unfolding upper all
upper-crockford table [] h = refl
upper-crockford table (c ∷ s) h =
    let hc : is_crockford c ≡ true = ground arith in
    let hs : all is_crockford s ≡ true = ground arith in
    rw (upper_char-crockford table c hc) (ap (λ t. c ∷ t) (upper-crockford table s hs))

all-IsInk : (s : Text) → all is_crockford s ≡ true → All IsInk s
unfolding all
all-IsInk [] h = tt
all-IsInk (c ∷ s) h =
    let hc : is_crockford c ≡ true = ground arith in
    let hs : all is_crockford s ≡ true = ground arith in (crockford-IsInk c hc, all-IsInk s hs)

-- The references that the code works with: seven characters of the alphabet.
pub record IsCaseRef (s : Text) : Type 0 where
  pub seven : (length s == default_case_ref_length) ≡ true
  pub chars : all is_crockford s ≡ true

normalize-IsCaseRef :
    (s : Text) (env : Env) (db : Db) → IsCaseRef s → normalize_case_ref s env db ≡ ok s
unfolding normalize_case_ref Query.◌>>=◌ ensure
normalize-IsCaseRef s env db h =
    rw (strip-ink s (all-IsInk s h.chars))
      (rw (upper-crockford env.upper s h.chars) (rw h.seven (rw h.chars refl)))

tested-IsCaseRef :
    (t n : Text) (env : Env) (db : Db)
    → Query.◌>>◌
        (ensure (length t == default_case_ref_length) validation_error)
        (Query.◌>>◌ (ensure (all is_crockford t) validation_error) (Query.pure t))
        env
        db
      ≡ ok n
    → IsCaseRef n
unfolding Query.◌>>=◌ ensure
tested-IsCaseRef t n env db h = elim (Bool-cases (length t == default_case_ref_length)) [
  | inr f ↦ absurd (let k = rw f at h in cc)
  | inl e ↦ elim (Bool-cases (all is_crockford t)) [
    | inr f ↦ absurd (let k = rw f at (rw e at h) in cc)
    | inl c ↦ subst IsCaseRef (ok-injective (rw c at (rw e at h))) (record { seven = e; chars = c })
  ]
]

normalize_case_ref-IsCaseRef :
    (s n : Text) (env : Env) (db : Db) → normalize_case_ref s env db ≡ ok n → IsCaseRef n
unfolding normalize_case_ref Query.◌>>=◌
normalize_case_ref-IsCaseRef s n env db h = tested-IsCaseRef (upper env.upper (strip s)) n env db h

-- A reference that `normalize_case_ref` returned consists of seven characters of the alphabet, and
-- normalizing it again returns it unchanged, also later on, with other tables.
pub normalize_case_ref-normalized :
    (s n : Text) (env : Env) (db later : Db)
    → normalize_case_ref s env db ≡ ok n
    → (length n ≡ 7) × (all is_crockford n ≡ true) × (normalize_case_ref n env later ≡ ok n)
normalize_case_ref-normalized s n env db later h =
    let r = normalize_case_ref-IsCaseRef s n env db h in
    ((nat_eq.equal_iff (length n) 7).0 r.seven, r.chars, normalize-IsCaseRef n env later r)

char_at-any : (s : Text) (i : ℕ) → i < length s → any (λ d. char_at s i == d) s ≡ true
unfolding char_at any
char_at-any [] i h = absurd (omega (arith, h))
char_at-any (c ∷ s) zero h = ground arith
char_at-any (c ∷ s) (suc i) h =
    let rest = char_at-any s i (omega (arith, h)) in rw rest (ground arith)

draw_chars-drawn :
    (n : ℕ) (env : Env) (s : Session)
    → ((i : ℕ) → env.choice i < 32)
    → (ref : Text) × (after : Session) × (draw_chars n env s ≡ ok (ref, after))
      × (length ref ≡ n)
      × (all is_crockford ref ≡ true)
unfolding draw_chars ◌>>=◌ all is_crockford
draw_chars-drawn zero env s h = ([], s, refl, refl, refl)
draw_chars-drawn (suc n) env s h =
    let c = char_at crockford_alphabet (env.choice s.chosen) in
    let (ref, after, e, l, a) = draw_chars-drawn n env (record s { chosen = suc s.chosen }) h in
    (
      c ∷ ref,
      after,
      rw e refl,
      ap suc l,
      rw (char_at-any crockford_alphabet (env.choice s.chosen) (h s.chosen)) a,
    )

-- If every draw of `secrets.choice` is an index into the 32 characters, then `new_case_ref` with the
-- default length returns a reference, and that is one which `normalize_case_ref` accepts unchanged.
pub new_case_ref-normalized :
    (env : Env) (s : Session)
    → ((i : ℕ) → env.choice i < 32)
    → (ref : Text) × (after : Session) × (new_case_ref default_case_ref_length env s
        ≡ ok (ref, after))
      × (normalize_case_ref ref env after.db ≡ ok ref)
unfolding new_case_ref ◌>>=◌ Query.◌>>=◌ ensure
new_case_ref-normalized env s h =
    let (ref, after, e, l, a) = draw_chars-drawn default_case_ref_length env s h in
    (
      ref,
      after,
      e,
      normalize-IsCaseRef ref env after.db
          (record { seven = (nat_eq.equal_iff (length ref) 7).1 l; chars = a }),
    )
