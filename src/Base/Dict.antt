-- ===== src/Base/Dict.antt =====
-- Python's `dict`: keys in the order of their first insertion. The representation is an
-- association list; clients use the laws of `dict_laws`.
use mathlib.Core.Path.{◌≡◌, refl, ap, ◌∙◌}
use mathlib.Core.Bool.{Bool, not}
use mathlib.Core.Logic.{inl, inr}
use mathlib.Core.Option.{Option, none, some}
use mathlib.Core.List.{List, [], ◌∷◌}
use native.Mathlib.Omega.{arith}
use networkops_ai_agent.Base.Tests.{if◌then◌else◌, is_none, Bool-cases}
use networkops_ai_agent.Base.Equality.{Eq, ◌==◌, eq_iff, eq_refl}
use networkops_ai_agent.Base.Lists.{sorted, insert_sorted}

abbrev pub Dict {ℓ κ} : Type ℓ → Type κ → Type (ℓ ⊔ κ)
Dict K V = List (K × V)

module _ {ℓ κ} {K : Type ℓ} {V : Type κ} ⦃e : Eq K⦄ where
  -- `d.get(k)`
  unfoldable pub get : Dict K V → K → Option V
  get [] k = none
  get ((j, v) ∷ d) k = if j == k then some v else get d k

  -- `k in d`
  unfoldable pub has : Dict K V → K → Bool
  unfolding get
  has d k = not (is_none (get d k))

  -- `d[k] = v`: a key that is there keeps its place.
  unfoldable pub put : Dict K V → K → V → Dict K V
  put [] k v = (k, v) ∷ []
  put ((j, w) ∷ d) k v = let rest = put d k v in if j == k then (j, v) ∷ d else (j, w) ∷ rest

  unfoldable pub keys : Dict K V → List K
  keys [] = []
  keys ((j, v) ∷ d) = j ∷ keys d

  unfoldable pub values : Dict K V → List V
  values [] = []
  values ((j, v) ∷ d) = v ∷ values d

  pub get-nil : (k : K) → get [] k ≡ none
  unfolding get
  get-nil k = refl

  pub get-put :
      (d : Dict K V) (k : K) (v : V) (j : K)
      → get (put d k v) j ≡ (if k == j then some v else get d j)
  unfolding get put
  get-put [] k v j = refl
  get-put ((i, w) ∷ d) k v j = ground (arith, eq_iff k j, eq_iff i k, eq_iff i j, get-put d k v j)

  pub get-put_self : (d : Dict K V) (k : K) (v : V) → get (put d k v) k ≡ some v
  get-put_self d k v = simp (get-put, eq_refl)

-- Each key stands once.
module _ {ℓ κ} {K : Type ℓ} {V : Type κ} ⦃e : Eq K⦄ where
  abbrev pub HasUniqueKeys : Dict K V → Type κ
  HasUniqueKeys [] = Unit
  HasUniqueKeys ((j, v) ∷ d) = (get d j ≡ none) × HasUniqueKeys d

  pub put-HasUniqueKeys :
      (d : Dict K V) (k : K) (v : V) → HasUniqueKeys d → HasUniqueKeys (put d k v)
  unfolding put
  put-HasUniqueKeys [] k v h = (get-nil k, tt)
  put-HasUniqueKeys ((j, w) ∷ d) k v h = elim (Bool-cases (j == k)) [
    | inl same ↦ rw same h
    | inr other ↦
        rw other
          (ground (arith, get-put d k v j, eq_iff j k, eq_iff k j), put-HasUniqueKeys d k v h.1)
  ]

  module _ (le : K × V → K × V → Bool) where
    get-insert_sorted :
        (k : K) (v : V) (d : Dict K V) (j : K)
        → get d k ≡ none
        → get (insert_sorted le (k, v) d) j ≡ (if k == j then some v else get d j)
    unfolding get insert_sorted
    get-insert_sorted k v [] j h = refl
    get-insert_sorted k v ((i, w) ∷ d) j h =
        ground (arith, get-insert_sorted k v d j, eq_iff k j, eq_iff i k, eq_iff i j, eq_refl k)

    -- Sorting the items of a dictionary changes no lookup.
    pub get-sorted : (d : Dict K V) (j : K) → HasUniqueKeys d → get (sorted le d) j ≡ get d j
    get-sorted [] j h = unfold sorted in refl
    get-sorted ((k, v) ∷ d) j h = step (get-sorted d k h.1) (get-sorted d j h.1)
      where
        step :
            get (sorted le d) k ≡ get d k
            → get (sorted le d) j ≡ get d j
            → get (sorted le ((k, v) ∷ d)) j ≡ get ((k, v) ∷ d) j
        step at_k at_j =
            unfold sorted get in
            (get-insert_sorted k v (sorted le d) j (at_k ∙ h.0)
              ∙ ap (λ o. if k == j then some v else o) at_j)

pub ruleset dict_laws = (get-nil, get-put)
