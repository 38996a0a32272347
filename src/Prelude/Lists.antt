-- ===== src/Prelude/Lists.antt =====
-- Lists measured by native numbers, and the statements that the service sends to a table:
-- the matching rows (`select`), the first of them (`first`), and a change of them (`update`).
use Prim.Native.Nat.{ℕ, zero, suc, ◌+◌, min}
use mathlib.Core.Path.{◌≡◌, refl, sym, ap, subst}
use mathlib.Core.Logic.{◌⊎◌, inl, inr}
use mathlib.Core.Bool.{Bool, true, false, ◌&&◌, ◌||◌}
use mathlib.Core.Option.{Option, none, some}
use mathlib.Core.List.{List, [], ◌∷◌, ◌++◌}
use native.Mathlib.Omega.{arith}
use message_router.Prelude.Tests.{if◌then◌else◌, Bool-cases}

module _ {ℓ} {A : Type ℓ} where
  abbrev pub length : List A → ℕ
  length [] = 0
  length (x ∷ xs) = suc (length xs)

  abbrev pub take : ℕ → List A → List A
  take zero xs = []
  take (suc n) [] = []
  take (suc n) (x ∷ xs) = x ∷ take n xs

  abbrev pub drop : ℕ → List A → List A
  drop zero xs = xs
  drop (suc n) [] = []
  drop (suc n) (x ∷ xs) = drop n xs

  unfoldable pub any : (A → Bool) → List A → Bool
  any p [] = false
  any p (x ∷ xs) = p x || any p xs

  unfoldable pub all : (A → Bool) → List A → Bool
  all p [] = true
  all p (x ∷ xs) = p x && all p xs

  unfoldable pub select : (A → Bool) → List A → List A
  select p [] = []
  select p (x ∷ xs) = let rest = select p xs in if p x then x ∷ rest else rest

  unfoldable pub first : (A → Bool) → List A → Option A
  first p [] = none
  first p (x ∷ xs) = let rest = first p xs in if p x then some x else rest

  unfoldable pub update : (A → Bool) → (A → A) → List A → List A
  update p f [] = []
  update p f (x ∷ xs) = (if p x then f x else x) ∷ update p f xs

  pub length-append : (xs ys : List A) → length (xs ++ ys) ≡ length xs + length ys
  length-append [] ys = omega arith
  length-append (x ∷ xs) ys = omega (arith, length-append xs ys)

  pub length-update : (p : A → Bool) (f : A → A) (xs : List A) → length (update p f xs) ≡ length xs
  unfolding update
  length-update p f [] = refl
  length-update p f (x ∷ xs) = ap suc (length-update p f xs)

  pub length-take : (n : ℕ) (xs : List A) → length (take n xs) ≡ min n (length xs)
  length-take zero xs = omega arith
  length-take (suc n) [] = omega arith
  length-take (suc n) (x ∷ xs) = omega (arith, length-take n xs)

  pub first-matches : (p : A → Bool) (xs : List A) {x : A} → first p xs ≡ some x → p x ≡ true
  unfolding first
  first-matches p [] h = absurd (cc)
  first-matches p (y ∷ ys) {x} h = elim (Bool-cases (p y)) [
    | inl t ↦ ground arith
    | inr n ↦ first-matches p ys (rw n at h)
  ]

  -- The first row that a change finds again: the change of the row that was first.
  pub first-update :
      (p : A → Bool) (f : A → A) (xs : List A) {x : A}
      → ((y : A) → p y ≡ true → p (f y) ≡ true)
      → first p xs ≡ some x
      → first p (update p f xs) ≡ some (f x)
  unfolding first update
  first-update p f [] k h = absurd (cc)
  first-update p f (y ∷ ys) {x} k h = elim (Bool-cases (p y)) [
    | inl t ↦ let q : y ≡ x = ground arith in rw t (rw (k y t) (ap (λ z. some (f z)) q))
    | inr n ↦ rw n (rw n (first-update p f ys k (rw n at h)))
  ]

  -- The row that a change writes over the first match, and that matches again.
  pub first-overwrite :
      (p q : A → Bool) (y : A) (xs : List A) {x : A}
      → ((z : A) → p z ≡ true → q z ≡ true)
      → p y ≡ true
      → first p xs ≡ some x
      → first p (update q (λ _. y) xs) ≡ some y
  unfolding first update
  first-overwrite p q y [] k e h = absurd (cc)
  first-overwrite p q y (z ∷ zs) k e h = elim (Bool-cases (q z)) [
    | inl t ↦ rw t (rw e refl)
    | inr f ↦ elim (Bool-cases (p z)) [
      | inl t ↦ let yes = k z t in absurd (cc)
      | inr n ↦ rw f (rw n (first-overwrite p q y zs k e (rw n at h)))
    ]
  ]

  pub update-first_none :
      (p : A → Bool) (f : A → A) (xs : List A) → first p xs ≡ none → update p f xs ≡ xs
  unfolding first update
  update-first_none p f [] h = refl
  update-first_none p f (x ∷ xs) h = elim (Bool-cases (p x)) [
    | inl t ↦ absurd (ground arith)
    | inr n ↦ rw n (ap (λ ys. x ∷ ys) (update-first_none p f xs (rw n at h)))
  ]

  pub update-append :
      (p : A → Bool) (f : A → A) (xs ys : List A)
      → update p f (xs ++ ys) ≡ update p f xs ++ update p f ys
  unfolding update
  update-append p f [] ys = refl
  update-append p f (x ∷ xs) ys = ap (λ zs. (if p x then f x else x) ∷ zs) (update-append p f xs ys)

  pub first-append_none :
      (p : A → Bool) (xs ys : List A) → first p xs ≡ none → first p (xs ++ ys) ≡ first p ys
  unfolding first
  first-append_none p [] ys h = refl
  first-append_none p (x ∷ xs) ys h = elim (Bool-cases (p x)) [
    | inl t ↦ absurd (ground arith)
    | inr n ↦ rw n (first-append_none p xs ys (rw n at h))
  ]

  -- A row appended behind rows none of which matches.
  pub update-append_match :
      (p : A → Bool) (f : A → A) (xs : List A) (y : A)
      → first p xs ≡ none
      → p y ≡ true
      → update p f (xs ++ y ∷ []) ≡ xs ++ f y ∷ []
  unfolding update
  update-append_match p f xs y n t =
      rw (update-append p f xs (y ∷ []))
        (rw t (ap (λ zs. zs ++ f y ∷ []) (update-first_none p f xs n)))

  pub first-append_match :
      (p : A → Bool) (xs : List A) (y : A)
      → first p xs ≡ none
      → p y ≡ true
      → first p (xs ++ y ∷ []) ≡ some y
  unfolding first
  first-append_match p xs y n t = rw (first-append_none p xs (y ∷ []) n) (rw t refl)

module _ {ℓ κ} {A : Type ℓ} (P : A → Type κ) where
  abbrev pub All : List A → Type κ
  All [] = Unit
  All (x ∷ xs) = P x × All xs

  pub All-append : (xs ys : List A) → All xs → All ys → All (xs ++ ys)
  All-append [] ys h k = k
  All-append (x ∷ xs) ys h k = (h.0, All-append xs ys h.1 k)

  pub All-first : (p : A → Bool) (xs : List A) {x : A} → All xs → first p xs ≡ some x → P x
  unfolding first
  All-first p [] h e = absurd (cc)
  All-first p (y ∷ ys) {x} h e = elim (Bool-cases (p y)) [
    | inl t ↦ let q : y ≡ x = ground arith in subst P q h.0
    | inr f ↦ All-first p ys h.1 (rw f at e)
  ]

  pub All-update :
      (p : A → Bool) (f : A → A) (xs : List A)
      → ((x : A) → P x → p x ≡ true → P (f x))
      → All xs
      → All (update p f xs)
  unfolding update
  All-update p f [] k h = tt
  All-update p f (x ∷ xs) k h = elim (Bool-cases (p x)) [
    | inl t ↦ rw t (k x h.0 t, All-update p f xs k h.1)
    | inr n ↦ rw n (h.0, All-update p f xs k h.1)
  ]

  pub All-select : (p : A → Bool) (xs : List A) → All xs → All (select p xs)
  unfolding select
  All-select p [] h = tt
  All-select p (x ∷ xs) h = elim (Bool-cases (p x)) [
    | inl t ↦ rw t (h.0, All-select p xs h.1)
    | inr n ↦ rw n (All-select p xs h.1)
  ]

module _ {ℓ κ} {A : Type ℓ} where
  pub All-weaken : (P Q : A → Type κ) (xs : List A) → ((x : A) → P x → Q x) → All P xs → All Q xs
  All-weaken P Q [] k h = tt
  All-weaken P Q (x ∷ xs) k h = (k x h.0, All-weaken P Q xs k h.1)

abbrev pub In : {A : Type 0} → A → List A → Type 0
In x [] = ⊥
In x (y ∷ ys) = (x ≡ y) ⊎ In x ys

-- What holds of every element holds of each.
pub All-at : {A : Type 0} (P : A → Type 0) (xs : List A) {x : A} → All P xs → In x xs → P x
All-at P (y ∷ ys) h (inl e) = subst P (sym e) h.0
All-at P (y ∷ ys) h (inr i) = All-at P ys h.1 i
All-at P [] h i = absurd i

-- The element for which a test over a list holds.
pub any-In :
    {A : Type 0} (p : A → Bool) (xs : List A) → any p xs ≡ true → (x : A) × In x xs × (p x ≡ true)
unfolding any
any-In p [] h = absurd (cc)
any-In p (y ∷ ys) h = elim (Bool-cases (p y)) [
  | inl t ↦ (y, inl refl, t)
  | inr n ↦ let later = any-In p ys (rw n at h) in (later.0, inr later.1, later.2)
]
