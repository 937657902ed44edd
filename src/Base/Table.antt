-- ===== src/Base/Table.antt =====
-- A database table is the list of its rows in the order of their primary keys.
use Prim.Native.Nat.{ℕ, suc, ◌+◌}
use mathlib.Core.Path.{◌≡◌, refl, sym, ◌∙◌, subst, ap}
use mathlib.Core.Logic.{◌≢◌, ◌⊎◌, inl, inr}
use mathlib.Core.Bool.{Bool, true, false, ◌||◌}
use mathlib.Core.Option.{Option, none, some, some-injective}
use mathlib.Core.List.{List, [], ◌∷◌, ◌++◌}
use native.Mathlib.Omega.{arith}
use gdl_finance_v.Base.Tests.{◌==◌, eq_of_==, if◌then◌else◌, Bool-cases}

module _ {ℓ} {A : Type ℓ} where
  -- `findOne`: the first row that meets the condition.
  abbrev pub find_one : (A → Bool) → List A → Option A
  find_one p [] = none
  find_one p (x ∷ xs) = if p x then some x else find_one p xs

  -- `find` and `getMany`: all the rows that meet the condition.
  abbrev pub find_all : (A → Bool) → List A → List A
  find_all p [] = []
  find_all p (x ∷ xs) = let rest = find_all p xs in if p x then x ∷ rest else rest

  abbrev pub any : (A → Bool) → List A → Bool
  any p [] = false
  any p (x ∷ xs) = p x || any p xs

  -- `UPDATE … SET … WHERE`, on a table without triggers.
  abbrev pub update_where : (A → Bool) → (A → A) → List A → List A
  update_where p f [] = []
  update_where p f (x ∷ xs) = (if p x then f x else x) ∷ update_where p f xs

  abbrev pub length : List A → ℕ
  length [] = 0
  length (x ∷ xs) = suc (length xs)

  pub List-cases : (xs : List A) → (xs ≡ []) ⊎ ((x : A) × (ys : List A) × (xs ≡ x ∷ ys))
  List-cases [] = inl refl
  List-cases (x ∷ xs) = inr (x, xs, refl)

  pub length-append : (xs ys : List A) → length (xs ++ ys) ≡ length xs + length ys
  length-append [] ys = omega arith
  length-append (x ∷ xs) ys = omega (arith, length-append xs ys)

  pub update_where_none :
      (p : A → Bool) (f : A → A) (xs : List A) → any p xs ≡ false → update_where p f xs ≡ xs
  update_where_none p f [] h = refl
  update_where_none p f (x ∷ xs) h = ground (arith, update_where_none p f xs)

  pub find_one_holds : (p : A → Bool) (a : A) (xs : List A) → find_one p xs ≡ some a → p a ≡ true
  find_one_holds p a [] h = cc
  find_one_holds p a (x ∷ xs) h = ground (arith, find_one_holds p a xs)

  -- An UPDATE that a search does not look at leaves it with the same row, as it is now.
  pub find_one-update :
      (p q : A → Bool) (f : A → A) (a : A) (xs : List A)
      → ((x : A) → p (f x) ≡ p x)
      → find_one p xs ≡ some a
      → q a ≡ true
      → find_one p (update_where q f xs) ≡ some (f a)
  find_one-update p q f a [] blind h hit = cc
  find_one-update p q f a (x ∷ xs) blind h hit =
      ground (arith, blind x, find_one-update p q f a xs blind)

  -- A row that is added is found where no other one fits.
  pub find_one-append :
      (p : A → Bool) (a : A) (xs : List A)
      → find_one p xs ≡ none
      → p a ≡ true
      → find_one p (xs ++ a ∷ []) ≡ some a
  find_one-append p a [] h fits = rw fits refl
  find_one-append p a (x ∷ xs) h fits = ground (arith, find_one-append p a xs)

module _ {ℓ κ} {A : Type ℓ} where
  abbrev pub All : (A → Type κ) → List A → Type κ
  All P [] = Unit
  All P (x ∷ xs) = P x × All P xs

  pub All-append : (P : A → Type κ) (xs ys : List A) → All P xs → All P ys → All P (xs ++ ys)
  All-append P [] ys hx hy = hy
  All-append P (x ∷ xs) ys hx hy = (hx.0, All-append P xs ys hx.1 hy)

  pub All-find_all :
      (P : A → Type κ) (p : A → Bool) (xs : List A)
      → ((a : A) → p a ≡ true → P a)
      → All P (find_all p xs)
  All-find_all P p [] h = tt
  All-find_all P p (x ∷ xs) h = elim (Bool-cases (p x)) [
    | inl hit ↦ rw hit (h x hit, All-find_all P p xs h)
    | inr miss ↦ rw miss (All-find_all P p xs h)
  ]

  pub All-find_one :
      (P : A → Type κ) (p : A → Bool) (a : A) (xs : List A)
      → All P xs
      → find_one p xs ≡ some a
      → P a
  All-find_one P p a [] h e = cc
  All-find_one P p a (x ∷ xs) h e = elim (Bool-cases (p x)) [
    | inl hit ↦ subst P (some-injective x a (rw hit at e)) h.0
    | inr miss ↦ All-find_one P p a xs h.1 (rw miss at e)
  ]

module _ {ℓ κ μ} {A : Type ℓ} where
  pub All-map :
      {Q : A → Type μ} (P : A → Type κ) (xs : List A) → ((a : A) → P a → Q a) → All P xs → All Q xs
  All-map P [] f h = tt
  All-map P (x ∷ xs) f h = (f x h.0, All-map P xs f h.1)

module _ {ℓ} {A : Type ℓ} (key : A → ℕ) where
  -- The key is a primary key of the table.
  abbrev pub DistinctBy : List A → Type 0
  DistinctBy [] = Unit
  DistinctBy (x ∷ xs) = All (λ y. key x ≢ key y) xs × DistinctBy xs

  All-ne :
      (x : A) (xs : List A) (k : ℕ)
      → key x ≡ k
      → All (λ y. key x ≢ key y) xs
      → All (λ y. key y ≢ k) xs
  All-ne x [] k e h = tt
  All-ne x (y ∷ xs) k e h = (λ e'. h.0 (e ∙ sym e'), All-ne x xs k e h.1)

  -- The row that is found by its key is the only one with that key.
  pub find_one-only :
      (k : ℕ) (w : A) (xs : List A)
      → DistinctBy xs
      → find_one (λ x. key x == k) xs ≡ some w
      → All (λ v. key v ≡ k → v ≡ w) xs
  find_one-only k w [] d e = tt
  find_one-only k w (x ∷ xs) d e = elim (Bool-cases (key x == k)) [
    | inl hit ↦
        let same : x ≡ w = some-injective x w (rw hit at e) in
        (
          λ e'. same,
          All-map {Q = λ v. key v ≡ k → v ≡ w} (λ y. key y ≢ k) xs (λ v ne e'. absurd (ne e'))
              (All-ne x xs k (eq_of_== (key x) k hit) d.0),
        )
    | inr miss ↦ (λ e'. absurd (ground arith), find_one-only k w xs d.1 (rw miss at e))
  ]

  -- The second of two saves of a row is the one that stays.
  pub update_where-twice :
      (k : ℕ) (a b : A) (xs : List A)
      → key a ≡ k
      → key b ≡ k
      → update_where (λ x. key x == key b) (λ _. b) (update_where (λ x. key x == key a) (λ _. a) xs)
        ≡ update_where (λ x. key x == k) (λ _. b) xs
  update_where-twice k a b [] ea eb = refl
  update_where-twice k a b (x ∷ xs) ea eb = ground (arith, update_where-twice k a b xs ea eb)

  -- A row that was found is found again after it was saved, if the search still fits it.
  pub find_one-saved :
      (f : A → Bool) (a b : A) (xs : List A)
      → find_one f xs ≡ some a
      → key b ≡ key a
      → f b ≡ true
      → find_one f (update_where (λ x. key x == key b) (λ _. b) xs) ≡ some b
  find_one-saved f a b [] found same fits = cc
  find_one-saved f a b (x ∷ xs) found same fits = elim (Bool-cases (f x)) [
    | inl hit ↦
        let e : key x ≡ key a = ap key (some-injective x a (rw hit at found)) in
        let again : (key x == key b) ≡ true = ground arith in rw (again, fits) refl
    | inr miss ↦
        let rest = find_one-saved f a b xs (rw miss at found) same fits in
        elim (Bool-cases (key x == key b)) [
          | inl again ↦ rw (again, fits) refl
          | inr apart ↦ rw (apart, miss) rest
        ]
  ]
