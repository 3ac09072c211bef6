-- ===== src/Base/Unique.antt =====
-- Sets as lists of first occurrences, and what the test for duplicates means.
use mathlib.Core.Path.{◌≡◌, refl, sym, ap, ◌∙◌}
use mathlib.Core.Bool.{Bool, true, false, not}
use mathlib.Core.List.{List, [], ◌∷◌}
use native.Mathlib.Omega.{arith}
use networkops_ai_agent.Base.Tests.{nat_beq_iff}
use networkops_ai_agent.Base.Equality.{Eq, ◌==◌, eq_iff, eq_refl}
use networkops_ai_agent.Base.Lists.{
  length, filter, length-filter-le, contains, dedup, has_duplicates, length-dedup-le,
}

filter-eq_self {ℓ} :
    {A : Type ℓ} (p : A → Bool) (xs : List A) → length (filter p xs) ≡ length xs → filter p xs ≡ xs
unfolding filter
filter-eq_self p [] h = refl
filter-eq_self p (x ∷ xs) h = ground (arith, filter-eq_self p xs, length-filter-le p xs)

module _ {ℓ} {A : Type ℓ} ⦃e : Eq A⦄ where
  -- No item of the list is met twice.
  abbrev pub Unique : List A → Type 0
  Unique [] = Unit
  Unique (x ∷ xs) = (contains xs x ≡ false) × Unique xs

  pub contains-filter_ne :
      (x : A) (xs : List A) (a : A)
      → contains (filter (λ y. not (x == y)) xs) a ≡ true
      → contains xs a ≡ true
  unfolding contains filter
  contains-filter_ne x [] a h = h
  contains-filter_ne x (y ∷ ys) a h = ground (arith, contains-filter_ne x ys a)

  -- The item that `filter` drops is not there.
  pub contains-filter_self :
      (x : A) (xs : List A) → contains (filter (λ y. not (x == y)) xs) x ≡ false
  unfolding contains filter
  contains-filter_self x [] = refl
  contains-filter_self x (y ∷ ys) =
      ground (arith, contains-filter_self x ys, eq_iff x y, eq_iff y x, eq_refl x)

  pub contains-filter_keep :
      (x : A) (xs : List A) (a : A)
      → (x == a) ≡ false
      → contains (filter (λ y. not (x == y)) xs) a ≡ contains xs a
  unfolding contains filter
  contains-filter_keep x [] a h = refl
  contains-filter_keep x (y ∷ ys) a h =
      ground (arith, contains-filter_keep x ys a, eq_iff x y, eq_iff y a, eq_iff x a)

  -- Dropping repetitions keeps membership.
  pub contains-dedup : (xs : List A) (a : A) → contains (dedup xs) a ≡ contains xs a
  unfolding contains dedup
  contains-dedup [] a = refl
  contains-dedup (x ∷ xs) a =
      ground (arith, contains-dedup xs a, contains-filter_keep x (dedup xs) a)

  Unique-of_length : (xs : List A) → length (dedup xs) ≡ length xs → Unique xs
  unfolding dedup
  Unique-of_length [] h = tt
  Unique-of_length (x ∷ xs) h =
      let shorter = length-filter-le (λ y. not (x == y)) (dedup xs) in
      let bound = length-dedup-le xs in
      let kept = filter-eq_self (λ y. not (x == y)) (dedup xs) (omega arith) in
      (
        sym (contains-dedup xs x)
            ∙ ap (λ ys. contains ys x) (sym kept)
            ∙ contains-filter_self x (dedup xs),
        Unique-of_length xs (omega arith),
      )

  -- A sequence that passes the duplicate test holds no item twice.
  pub has_duplicates-Unique : (xs : List A) → has_duplicates xs ≡ false → Unique xs
  unfolding has_duplicates
  has_duplicates-Unique xs h =
      Unique-of_length xs (ground (arith, nat_beq_iff (length xs) (length (dedup xs))))
