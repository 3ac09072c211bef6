-- ===== src/Embedded/Mcu/Least.antt =====
-- The least microcontroller of the catalog that meets the requirements.
use networkops_ai_agent.Base.{
  Bool, ltb, ◌||◌, nat_beq, ◌&&◌, leb, ◌≡◌, true, arith, not, text_le, if◌then◌else◌, false, List,
  All, [], ◌∷◌, refl, filter, Bool-cases, inl, inr, ok, ok_injective, subst, subst₂, sym, ◌⊎◌,
  contains, ◌≤◌, ◌<◌, All-filter, All-map, none, nat_eq, string_eq,
}
use networkops_ai_agent.Embedded.Mcu.{
  McuSpec, least, mcu_lt, least_of, McuRequirements, bus_can, is_candidate, is_suitable, select_mcu,
  mcu_catalog, bus_eq,
}
use networkops_ai_agent.Enterprise.Execution.{held}

-- No more RAM, and no faster clock at the same RAM.
abbrev pub no_more : McuSpec → McuSpec → Bool
no_more a b =
    ltb a.ram_kb b.ram_kb || (nat_beq a.ram_kb b.ram_kb && leb a.core_clock_mhz b.core_clock_mhz)

no_more_trans : (a b c : McuSpec) → no_more a b ≡ true → no_more b c ≡ true → no_more a c ≡ true
no_more_trans a b c h k = ground arith

no_more_refl : (a : McuSpec) → no_more a a ≡ true
no_more_refl a = ground arith

lesser_no_more :
    (spec best : McuSpec) (differs : Bool)
    → differs ≡ (
        ltb spec.ram_kb best.ram_kb
        || (nat_beq spec.ram_kb best.ram_kb
            && (ltb spec.core_clock_mhz best.core_clock_mhz
                || (nat_beq spec.core_clock_mhz best.core_clock_mhz
                    && not (text_le best.model spec.model)))))
    → (no_more (if differs then spec else best) spec ≡ true)
      × (no_more (if differs then spec else best) best ≡ true)
lesser_no_more spec best true h = (no_more_refl spec, ground arith)
lesser_no_more spec best false h = (ground arith, no_more_refl best)

least-no_more :
    (best : McuSpec) (specs : List McuSpec)
    → (no_more (least best specs) best ≡ true)
      × All (λ spec. no_more (least best specs) spec ≡ true) specs
unfolding least
least-no_more best [] = (no_more_refl best, tt)
least-no_more best (spec ∷ specs) =
    let next_best = if mcu_lt spec best then spec else best in
    let (below_next, below_all) = least-no_more next_best specs in
    let (next_spec, next_old) = lesser_no_more spec best (mcu_lt spec best) refl in
    (
      no_more_trans (least next_best specs) next_best best below_next next_old,
      (no_more_trans (least next_best specs) next_best spec below_next next_spec, below_all),
    )

least-All {ℓ} :
    (P : McuSpec → Type ℓ) (best : McuSpec) (specs : List McuSpec)
    → P best
    → All P specs
    → P (least best specs)
unfolding least
least-All P best [] h hs = h
least-All P best (spec ∷ specs) h hs =
    least-All P (if mcu_lt spec best then spec else best) specs (elim_choice (mcu_lt spec best))
      hs.1
  where
    elim_choice : (b : Bool) → P (if b then spec else best)
    elim_choice true = hs.0
    elim_choice false = h

All-kept {ℓ} :
    (P : McuSpec → Type ℓ) (p : McuSpec → Bool) (specs : List McuSpec)
    → All P specs
    → All P (filter p specs)
unfolding filter
All-kept P p [] h = tt
All-kept P p (spec ∷ specs) h = elim (Bool-cases (p spec)) [
  | inl kept ↦ rw kept (h.0, All-kept P p specs h.1)
  | inr dropped ↦ rw dropped (All-kept P p specs h.1)
]

All-where :
    (p q : McuSpec → Bool) (specs : List McuSpec)
    → All (λ spec. q spec ≡ true) (filter p specs)
    → All (λ spec. (not (p spec) || q spec) ≡ true) specs
unfolding filter
All-where p q [] h = tt
All-where p q (spec ∷ specs) h = elim (Bool-cases (p spec)) [
  | inl kept ↦
      let both : (q spec ≡ true) × All (λ x. q x ≡ true) (filter p specs) = rw kept at h in
      (rw kept both.0, All-where p q specs both.1)
  | inr dropped ↦ (rw dropped refl, All-where p q specs (rw dropped at h))
]

least_of-ok :
    (specs : List McuSpec) (spec : McuSpec)
    → least_of specs ≡ ok spec
    → (first : McuSpec) × (rest : List McuSpec) × (specs ≡ first ∷ rest) × (least first rest ≡ spec)
unfolding least_of
least_of-ok [] spec h = cc
least_of-ok (first ∷ rest) spec h = (first, rest, refl, ok_injective h)

-- What holds of each that is suitable holds of the selected one, which is no more than any.
least_of-Least {ℓ} :
    (P : McuSpec → Type ℓ) (specs : List McuSpec) (spec : McuSpec)
    → All P specs
    → least_of specs ≡ ok spec
    → P spec × All (λ other. no_more spec other ≡ true) specs
least_of-Least P specs spec held h =
    let (first, rest, shape, same) = least_of-ok specs spec h in
    let all_held : All P (first ∷ rest) = subst (All P) shape held in
    let (below, below_all) = least-no_more first rest in
    (
      subst P same (least-All P first rest all_held.0 all_held.1),
      subst₂ (λ s xs. All (λ other. no_more s other ≡ true) xs) same (sym shape) (below, below_all),
    )

-- The microcontroller is one of a list.
abbrev pub IsIn : McuSpec → List McuSpec → Type 0
IsIn spec [] = ⊥
IsIn spec (x ∷ specs) = (spec ≡ x) ⊎ IsIn spec specs

All-IsIn {ℓ} :
    (P : McuSpec → Type ℓ) (specs : List McuSpec)
    → ((spec : McuSpec) → IsIn spec specs → P spec)
    → All P specs
All-IsIn P [] h = tt
All-IsIn P (x ∷ specs) h = (h x (inl refl), All-IsIn P specs (λ spec at. h spec (inr at)))

IsIn-itself : (specs : List McuSpec) → All (λ spec. IsIn spec specs) specs
IsIn-itself specs = All-IsIn (λ spec. IsIn spec specs) specs (λ spec at. at)

-- The need that is looked at: Wi-Fi, or else CAN, or else BLE; and the floors.
abbrev pub MeetsNeeds : McuRequirements → McuSpec → Type 0
MeetsNeeds requirements spec =
    (requirements.needs_wifi ≡ true → contains spec.wireless "Wi-Fi" ≡ true)
    × (requirements.needs_wifi ≡ false
        → requirements.needs_can ≡ true
        → contains spec.interfaces bus_can ≡ true)
    × (requirements.needs_wifi ≡ false
        → requirements.needs_can ≡ false
        → requirements.needs_ble ≡ true
        → contains spec.wireless "BLE" ≡ true)
    × (requirements.min_ram_kb ≤ spec.ram_kb)
    × (requirements.min_clock_mhz ≤ spec.core_clock_mhz)

-- Less RAM, or the same RAM and a slower clock.
abbrev pub IsLess : McuSpec → McuSpec → Type 0
IsLess a b = (a.ram_kb < b.ram_kb) ⊎ ((a.ram_kb ≡ b.ram_kb) × (a.core_clock_mhz < b.core_clock_mhz))

chosen_needs :
    (requirements : McuRequirements) (spec : McuSpec)
    → is_candidate requirements spec ≡ true
    → is_suitable requirements spec ≡ true
    → MeetsNeeds requirements spec
unfolding is_candidate is_suitable
chosen_needs requirements spec candidate suitable =
    (ground arith, ground arith, ground arith, ground arith, ground arith)

meeting-chosen :
    (requirements : McuRequirements) (spec : McuSpec)
    → MeetsNeeds requirements spec
    → (is_candidate requirements spec ≡ true) × (is_suitable requirements spec ≡ true)
unfolding is_candidate is_suitable
meeting-chosen requirements spec (wifi, can, ble, ram, clock) = (ground arith, ground arith)

not-IsLess : (a b : McuSpec) → no_more a b ≡ true → ¬ IsLess b a
not-IsLess a b h less = ground arith

above_not-IsLess :
    (requirements : McuRequirements) (spec other : McuSpec)
    → (not (is_candidate requirements other)
        || (not (is_suitable requirements other) || no_more spec other))
      ≡ true
    → MeetsNeeds requirements other
    → ¬ IsLess other spec
above_not-IsLess requirements spec other above meets =
    let (candidate, suitable) = meeting-chosen requirements other meets in
    not-IsLess spec other (ground arith)

chosen-least :
    (requirements : McuRequirements) (catalog : List McuSpec) (spec : McuSpec)
    → least_of (filter (is_suitable requirements) (filter (is_candidate requirements) catalog))
      ≡ ok spec
    → IsIn spec catalog
      × MeetsNeeds requirements spec
      × All (λ other. MeetsNeeds requirements other → ¬ IsLess other spec) catalog
chosen-least requirements catalog spec h =
    let candidate = is_candidate requirements in
    let suitable = is_suitable requirements in
    let candidates = filter candidate catalog in
    let listed =
      least_of-Least (λ s. IsIn s catalog) (filter suitable candidates) spec
        (All-kept (λ s. IsIn s catalog) suitable candidates
          (All-kept (λ s. IsIn s catalog) candidate catalog (IsIn-itself catalog)))
        h in
    let fits =
      least_of-Least (λ s. candidate s ≡ true) (filter suitable candidates) spec
        (All-kept (λ s. candidate s ≡ true) suitable candidates (All-filter candidate catalog)) h in
    let suits =
      least_of-Least (λ s. suitable s ≡ true) (filter suitable candidates) spec
        (All-filter suitable candidates) h in
    (
      listed.0,
      chosen_needs requirements spec fits.0 suits.0,
      All-map (above_not-IsLess requirements spec) catalog (
          All-where candidate (λ other. not (suitable other) || no_more spec other) catalog
            (All-where suitable (no_more spec) candidates listed.1)),
    )

-- Without a preferred model, a microcontroller that is selected is one of the catalog, has Wi-Fi
-- if it is needed, or else a CAN bus if that is needed, or else BLE if that is needed, has the
-- RAM and the clock that are required, and no other of the catalog that meets the same has less
-- RAM, or a slower clock at the same RAM.
pub select_mcu-least :
    (requirements : McuRequirements) (spec : McuSpec)
    → requirements.preferred_model ≡ none
    → select_mcu requirements ≡ ok spec
    → IsIn spec mcu_catalog
      × MeetsNeeds requirements spec
      × All (λ other. MeetsNeeds requirements other → ¬ IsLess other spec) mcu_catalog
unfolding select_mcu
select_mcu-least requirements spec free h =
    chosen-least requirements mcu_catalog spec (rw (free, select_mcu) at h)
