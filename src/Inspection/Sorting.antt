-- ===== src/Inspection/Sorting.antt =====
-- Sorting by a test that compares keys.
use message_router.Prelude.{
  ℕ, ◌≤◌, ◌≡◌, refl, Bool, false, List, [], ◌∷◌, leb, is_empty, All, Bool-cases, inl, inr, arith,
}
use message_router.CaseDesk.Leasing.{insert_by, sort_by}
use message_router.CaseDesk.Leasing.Rows.{All-insert_by, All-sort_by}

-- Each key is at most those that follow.
abbrev pub Ordered : {A : Type 0} → (A → ℕ) → List A → Type 0
Ordered key [] = Unit
Ordered key (x ∷ xs) = All (λ y. key x ≤ key y) xs × Ordered key xs

insert_by-is_empty :
    {A : Type 0} (le : A → A → Bool) (x : A) (ys : List A) → is_empty (insert_by le x ys) ≡ false
unfolding insert_by
insert_by-is_empty le x [] = refl
insert_by-is_empty le x (y ∷ ys) = elim (Bool-cases (le x y)) [
  | inl t ↦ rw t refl
  | inr f ↦ rw f refl
]

pub sort_by-is_empty :
    {A : Type 0} (le : A → A → Bool) (x : A) (xs : List A) → is_empty (sort_by le (x ∷ xs)) ≡ false
unfolding sort_by
sort_by-is_empty le x xs = insert_by-is_empty le x (sort_by le xs)

module _ {A : Type 0} (le : A → A → Bool) (key : A → ℕ) (P : A → Type 0)
    (agrees : (x y : A) → P x → P y → le x y ≡ leb (key x) (key y)) where
  before-All :
      (x y : A) (ys : List A)
      → key x ≤ key y
      → All (λ z. key y ≤ key z) ys
      → All (λ z. key x ≤ key z) ys
  before-All x y [] h k = tt
  before-All x y (z ∷ zs) h k = (omega (arith, h, k.0), before-All x y zs h k.1)

  insert_by-Ordered :
      (x : A) (ys : List A) → P x → All P ys → Ordered key ys → Ordered key (insert_by le x ys)
  unfolding insert_by
  insert_by-Ordered x [] p ps o = (tt, tt)
  insert_by-Ordered x (y ∷ ys) p (q, qs) (k, o) = elim (Bool-cases (le x y)) [
    | inl t ↦
        let e = agrees x y p q in
        let h : key x ≤ key y = ground arith in rw t ((h, before-All x y ys h k), (k, o))
    | inr f ↦
        let e = agrees x y p q in
        let h : key y ≤ key x = ground arith in
        rw f (All-insert_by (λ z. key y ≤ key z) le x ys h k, insert_by-Ordered x ys p qs o)
  ]

  pub sort_by-Ordered : (xs : List A) → All P xs → Ordered key (sort_by le xs)
  unfolding sort_by
  sort_by-Ordered [] ps = tt
  sort_by-Ordered (x ∷ xs) (p, ps) =
      insert_by-Ordered x (sort_by le xs) p (All-sort_by P le xs ps) (sort_by-Ordered xs ps)
