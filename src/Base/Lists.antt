-- ===== src/Base/Lists.antt =====
-- Python's sequence operations with Boolean tests, measured by the native numbers.
use Prim.Native.Nat.{ℕ, suc, ◌+◌, ◌≤◌}
use mathlib.Core.Path.{◌≡◌, refl, ap, ◌∙◌}
use mathlib.Core.Logic.{inl, inr}
use mathlib.Core.Bool.{Bool, true, false, not, ◌&&◌, ◌||◌}
use mathlib.Core.List.{List, [], ◌∷◌, ◌++◌}
use native.Mathlib.Omega.{arith}
use networkops_ai_agent.Base.Tests.{ltb, nat_beq, if◌then◌else◌, Bool-cases}
use networkops_ai_agent.Base.Equality.{Eq, ◌==◌, eq_iff}

module _ {ℓ} {A : Type ℓ} where
  abbrev pub length : List A → ℕ
  length [] = 0
  length (x ∷ xs) = suc (length xs)

  -- A truth of every item, by recursion into a product.
  abbrev pub All {κ} : (A → Type κ) → List A → Type κ
  All P [] = Unit
  All P (x ∷ xs) = P x × All P xs

  unfoldable pub all : (A → Bool) → List A → Bool
  all p [] = true
  all p (x ∷ xs) = p x && all p xs

  unfoldable pub any : (A → Bool) → List A → Bool
  any p [] = false
  any p (x ∷ xs) = p x || any p xs

  unfoldable pub filter : (A → Bool) → List A → List A
  filter p [] = []
  filter p (x ∷ xs) = let rest = filter p xs in if p x then x ∷ rest else rest

  pub length-append : (xs ys : List A) → length (xs ++ ys) ≡ length xs + length ys
  length-append [] ys = omega arith
  length-append (x ∷ xs) ys = omega (arith, length-append xs ys)

  pub length-filter-le : (p : A → Bool) (xs : List A) → length (filter p xs) ≤ length xs
  unfolding filter
  length-filter-le p [] = omega arith
  length-filter-le p (x ∷ xs) = ground (arith, length-filter-le p xs)

  -- What `filter` keeps satisfies the test.
  pub All-filter : (p : A → Bool) (xs : List A) → All (λ x. p x ≡ true) (filter p xs)
  unfolding filter
  All-filter p [] = tt
  All-filter p (x ∷ xs) = elim (Bool-cases (p x)) [
    | inl e ↦ rw e (e, All-filter p xs)
    | inr e ↦ rw e (All-filter p xs)
  ]

  pub All-map {κ μ} :
      {P : A → Type κ} {Q : A → Type μ}
      → ((x : A) → P x → Q x)
      → (xs : List A) → All P xs
      → All Q xs
  All-map f [] h = tt
  All-map f (x ∷ xs) h = (f x h.0, All-map f xs h.1)

  pub All-append {κ} : (P : A → Type κ) (xs ys : List A) → All P xs → All P ys → All P (xs ++ ys)
  All-append P [] ys hx hy = hy
  All-append P (x ∷ xs) ys hx hy = (hx.0, All-append P xs ys hx.1 hy)

  pub filter-eq_nil : (p : A → Bool) (xs : List A) → any p xs ≡ false → filter p xs ≡ []
  unfolding filter any
  filter-eq_nil p [] h = refl
  filter-eq_nil p (x ∷ xs) h = ground (arith, filter-eq_nil p xs)

  pub any-filter_nil : (p : A → Bool) (xs : List A) → filter p xs ≡ [] → any p xs ≡ false
  unfolding filter any
  any-filter_nil p [] h = refl
  any-filter_nil p (x ∷ xs) h = ground (arith, any-filter_nil p xs)

  pub any-filter : (p q : A → Bool) (xs : List A) → any q (filter p xs) ≡ any (λ x. p x && q x) xs
  unfolding filter any
  any-filter p q [] = refl
  any-filter p q (x ∷ xs) = ground (arith, any-filter p q xs)

  -- Python's `max(items, key=…)`: the first item of the greatest key.
  unfoldable pub max_by : (A → ℕ) → A → List A → A
  max_by key best [] = best
  max_by key best (x ∷ xs) = max_by key (if ltb (key best) (key x) then x else best) xs

  pub max_by-ge_start : (key : A → ℕ) (best : A) (xs : List A) → key best ≤ key (max_by key best xs)
  unfolding max_by
  max_by-ge_start key best [] = omega arith
  max_by-ge_start key best (x ∷ xs) =
      ground (arith, max_by-ge_start key (if ltb (key best) (key x) then x else best) xs)

  pub max_by-ge :
      (key : A → ℕ) (best : A) (xs : List A) → All (λ x. key x ≤ key (max_by key best xs)) xs
  unfolding max_by
  max_by-ge key best [] = tt
  max_by-ge key best (x ∷ xs) = (
    ground (arith, max_by-ge_start key (if ltb (key best) (key x) then x else best) xs),
    max_by-ge key (if ltb (key best) (key x) then x else best) xs,
  )

-- Python's `sorted(items, key=…)`: a stable insertion sort by a Boolean order.
module _ {ℓ} {A : Type ℓ} (le : A → A → Bool) where
  unfoldable pub insert_sorted : A → List A → List A
  insert_sorted x [] = x ∷ []
  insert_sorted x (y ∷ ys) =
      let rest = insert_sorted x ys in if le x y then x ∷ y ∷ ys else y ∷ rest

  unfoldable pub sorted : List A → List A
  unfolding insert_sorted
  sorted [] = []
  sorted (x ∷ xs) = insert_sorted x (sorted xs)

  any-insert_sorted :
      (p : A → Bool) (x : A) (ys : List A) → any p (insert_sorted x ys) ≡ (p x || any p ys)
  unfolding insert_sorted any
  any-insert_sorted p x [] = refl
  any-insert_sorted p x (y ∷ ys) = ground (arith, any-insert_sorted p x ys)

  pub any-sorted : (p : A → Bool) (xs : List A) → any p (sorted xs) ≡ any p xs
  unfolding sorted any
  any-sorted p [] = refl
  any-sorted p (x ∷ xs) = any-insert_sorted p x (sorted xs) ∙ ap (λ b. p x || b) (any-sorted p xs)

module _ {ℓ} {A : Type ℓ} ⦃e : Eq A⦄ where
  -- Python's `in` on a sequence or a set.
  unfoldable pub contains : List A → A → Bool
  contains [] a = false
  contains (x ∷ xs) a = x == a || contains xs a

  -- Python's `set(items)`, or `dict.fromkeys(items)`: the first occurrences, in order.
  unfoldable pub dedup : List A → List A
  dedup [] = []
  dedup (x ∷ xs) = x ∷ filter (λ y. not (x == y)) (dedup xs)

  -- `len(values) != len(set(values))`
  unfoldable pub has_duplicates : List A → Bool
  unfolding dedup filter
  has_duplicates xs = not (nat_beq (length xs) (length (dedup xs)))

  pub length-dedup-le : (xs : List A) → length (dedup xs) ≤ length xs
  unfolding dedup
  length-dedup-le [] = omega arith
  length-dedup-le (x ∷ xs) =
      omega (arith, length-dedup-le xs, length-filter-le (λ y. not (x == y)) (dedup xs))

  pub contains-append :
      (xs ys : List A) (a : A) → contains (xs ++ ys) a ≡ (contains xs a || contains ys a)
  unfolding contains
  contains-append [] ys a = refl
  contains-append (x ∷ xs) ys a = ground (arith, contains-append xs ys a)

  pub contains-filter-true :
      (p : A → Bool) (xs : List A) (a : A) → contains (filter p xs) a ≡ true → contains xs a ≡ true
  unfolding contains filter
  contains-filter-true p [] a h = h
  contains-filter-true p (x ∷ xs) a h = ground (arith, contains-filter-true p xs a)

  contains-insert_sorted :
      (le : A → A → Bool) (x : A) (ys : List A) (a : A)
      → contains (insert_sorted le x ys) a ≡ ((x == a) || contains ys a)
  unfolding insert_sorted contains
  contains-insert_sorted le x [] a = refl
  contains-insert_sorted le x (y ∷ ys) a = ground (arith, contains-insert_sorted le x ys a)

  -- Sorting keeps membership.
  pub contains-sorted :
      (le : A → A → Bool) (xs : List A) (a : A) → contains (sorted le xs) a ≡ contains xs a
  unfolding sorted contains
  contains-sorted le [] a = refl
  contains-sorted le (x ∷ xs) a =
      contains-insert_sorted le x (sorted le xs) a
      ∙ ap (λ b. (x == a) || b) (contains-sorted le xs a)

  pub contains-filter :
      (p : A → Bool) (xs : List A) (a : A) → contains (filter p xs) a ≡ (p a && contains xs a)
  unfolding contains filter
  contains-filter p [] a = ground arith
  contains-filter p (x ∷ xs) a = elim (Bool-cases (x == a)) [
    | inl same ↦
        let px : p x ≡ p a = ap p ((eq_iff x a).0 same) in ground (arith, contains-filter p xs a)
    | inr other ↦ ground (arith, contains-filter p xs a)
  ]
