-- ===== src/Capability/Versions.antt =====
-- What a look-up in the registry answers.
use networkops_ai_agent.Base.Dict
use networkops_ai_agent.Base.{
  List, ℕ, ◌≡◌, true, [], arith, ◌∷◌, refl, false, Bool, all, not, if◌then◌else◌, ◌⊎◌, inl, inr, ok,
  subst, ok_injective, String, filter, none, raise_if-eq-ok, nat_beq, length, Option, ap, sym, ◌∙◌,
  or_else, some, err, nat_eq, string_eq,
}
use networkops_ai_agent.Base.Dict.{Dict}
use networkops_ai_agent.Capability.{
  key_lt, Capability, version_sort_key, better, highest, latest, CapabilityRegistry, versions_of,
  get_capability, get_version, unknown_capability, register, already_registered,
  capability_disabled,
}

key_lt_trans : (a b c : List ℕ) → key_lt a b ≡ true → key_lt b c ≡ true → key_lt a c ≡ true
unfolding key_lt
key_lt_trans a b [] h k = ground arith
key_lt_trans a [] (z ∷ zs) h k = ground arith
key_lt_trans [] (y ∷ ys) (z ∷ zs) h k = refl
key_lt_trans (x ∷ xs) (y ∷ ys) (z ∷ zs) h k = ground (arith, key_lt_trans xs ys zs)

key_lt_irrefl : (a : List ℕ) → key_lt a a ≡ false
unfolding key_lt
key_lt_irrefl [] = refl
key_lt_irrefl (x ∷ xs) = ground (arith, key_lt_irrefl xs)

-- No version of the capabilities is above the version of `best`.
abbrev pub none_above : Capability → List Capability → Bool
none_above best cs =
    all
      (λ (c : Capability).
        not (key_lt (version_sort_key best.version) (version_sort_key c.version)))
      cs

key_le_trans : (r m b : List ℕ) → key_lt r m ≡ false → key_lt m b ≡ false → key_lt r b ≡ false
unfolding key_lt
key_le_trans r m [] h k = ground arith
key_le_trans r [] (z ∷ zs) h k = ground arith
key_le_trans [] (y ∷ ys) (z ∷ zs) h k = ground arith
key_le_trans (x ∷ xs) (y ∷ ys) (z ∷ zs) h k = ground (arith, key_le_trans xs ys zs)

key_lt_asym : (a b : List ℕ) → key_lt a b ≡ true → key_lt b a ≡ false
key_lt_asym a b h = ground (arith, key_lt_trans a b a h, key_lt_irrefl a)

picked-ge :
    (later : Bool) (best c : Capability)
    → key_lt (version_sort_key best.version) (version_sort_key c.version) ≡ later
    → (key_lt (version_sort_key (if later then c else best).version) (version_sort_key best.version)
        ≡ false)
      × (key_lt (version_sort_key (if later then c else best).version) (version_sort_key c.version)
          ≡ false)
picked-ge true best c h = (
  key_lt_asym (version_sort_key best.version) (version_sort_key c.version) h,
  key_lt_irrefl (version_sort_key c.version),
)
picked-ge false best c h = (key_lt_irrefl (version_sort_key best.version), h)

better-ge :
    (best c : Capability)
    → (key_lt (version_sort_key (better best c).version) (version_sort_key best.version) ≡ false)
      × (key_lt (version_sort_key (better best c).version) (version_sort_key c.version) ≡ false)
unfolding better
better-ge best c =
    picked-ge (key_lt (version_sort_key best.version) (version_sort_key c.version)) best c refl

highest-ge :
    (best : Capability) (cs : List Capability)
    → key_lt (version_sort_key (highest best cs).version) (version_sort_key best.version) ≡ false
unfolding highest
highest-ge best [] = key_lt_irrefl (version_sort_key best.version)
highest-ge best (c ∷ rest) =
    key_le_trans (version_sort_key (highest (better best c) rest).version)
      (version_sort_key (better best c).version) (version_sort_key best.version)
      (highest-ge (better best c) rest) (better-ge best c).0

highest-none_above :
    (best : Capability) (cs : List Capability) → none_above (highest best cs) cs ≡ true
unfolding highest all
highest-none_above best [] = refl
highest-none_above best (c ∷ rest) =
    let above =
      key_le_trans (version_sort_key (highest (better best c) rest).version)
        (version_sort_key (better best c).version) (version_sort_key c.version)
        (highest-ge (better best c) rest) (better-ge best c).1 in
    rw above (highest-none_above (better best c) rest)

-- A capability of the list.
abbrev pub IsIn : Capability → List Capability → Type 0
IsIn c [] = ⊥
IsIn c (x ∷ xs) = (c ≡ x) ⊎ IsIn c xs

-- What is in the list that starts with one of two is in the list of both.
IsIn-either :
    (later : Bool) (x best c : Capability) (rest : List Capability)
    → IsIn x ((if later then c else best) ∷ rest)
    → IsIn x (best ∷ c ∷ rest)
IsIn-either true x best c rest (inl e) = inr (inl e)
IsIn-either false x best c rest (inl e) = inl e
IsIn-either later x best c rest (inr m) = inr (inr m)

highest-IsIn : (best : Capability) (cs : List Capability) → IsIn (highest best cs) (best ∷ cs)
unfolding highest better
highest-IsIn best [] = inl refl
highest-IsIn best (c ∷ rest) =
    IsIn-either (key_lt (version_sort_key best.version) (version_sort_key c.version))
      (highest (better best c) rest) best c rest (highest-IsIn (better best c) rest)

latest-none_above :
    (cs : List Capability) (found : Capability)
    → latest cs ≡ ok found
    → IsIn found cs × (none_above found cs ≡ true)
unfolding all
latest-none_above [] found h = cc
latest-none_above (c ∷ cs) found h =
    subst (λ f. IsIn f (c ∷ cs) × (none_above f (c ∷ cs) ≡ true)) (ok_injective h)
      (highest-IsIn c cs, rw (highest-ge c cs) (highest-none_above c cs))

-- The enabled versions of a capability.
abbrev pub enabled_versions : CapabilityRegistry → String → List Capability
enabled_versions registry name =
    filter (λ (c : Capability). c.enabled) (Dict.values (versions_of registry name))

-- A look-up without a version finds an enabled version that no other enabled version of the name
-- is above, in the order of the numbers of the versions.
pub get_capability-latest :
    (registry : CapabilityRegistry) (name : String) (found : Capability)
    → get_capability registry name none ≡ ok found
    → IsIn found (enabled_versions registry name)
      × (none_above found (enabled_versions registry name) ≡ true)
unfolding get_capability get_version
get_capability-latest registry name found h =
    let (_, h1) =
      raise_if-eq-ok (nat_beq (length (versions_of registry name)) 0) unknown_capability _ h in
    latest-none_above (enabled_versions registry name) found h1

put-some :
    (versions : Dict String Capability) (v : String) (c : Capability)
    → nat_beq (length (Dict.put versions v c)) 0 ≡ false
unfolding Dict.put
put-some [] v c = refl
put-some ((k, x) ∷ versions) v c = ground arith

register-versions :
    (registry after : CapabilityRegistry) (c : Capability) (handler : Option String)
    → register registry c handler ≡ ok after
    → versions_of after c.name ≡ Dict.put (versions_of registry c.name) c.version c
unfolding register
register-versions registry after c handler h =
    let (_, made) =
      raise_if-eq-ok (Dict.has (versions_of registry c.name) c.version) already_registered _ h in
    ap (λ r. versions_of r c.name) (sym (ok_injective made))
    ∙ ap (λ o. or_else o [])
        (Dict.get-put_self registry.capabilities c.name
          (Dict.put (versions_of registry c.name) c.version c))

-- A capability that was registered is found under its name and version, and reported as disabled
-- where it is not enabled.
pub get_capability-register :
    (registry after : CapabilityRegistry) (c : Capability) (handler : Option String)
    → register registry c handler ≡ ok after
    → get_capability after c.name (some c.version)
      ≡ (if c.enabled then ok c else err capability_disabled)
unfolding get_capability get_version
get_capability-register registry after c handler h =
    rw
      (
        register-versions registry after c handler h,
        put-some (versions_of registry c.name) c.version c,
        Dict.get-put_self (versions_of registry c.name) c.version c,
      )
      (ground arith)

-- A name and version that was registered cannot be registered again.
register-twice :
    (registry after : CapabilityRegistry) (c copy : Capability) (handler other : Option String)
    → register registry c handler ≡ ok after
    → copy.name ≡ c.name
    → copy.version ≡ c.version
    → register after copy other ≡ err already_registered
unfolding register Dict.has
register-twice registry after c copy handler other h same_name same_version =
    rw
      (
        same_name,
        same_version,
        register-versions registry after c handler h,
        Dict.get-put_self (versions_of registry c.name) c.version c,
      )
      refl
