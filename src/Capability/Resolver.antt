-- ===== src/Capability/Resolver.antt =====
-- src/network_agent_rag/capability/resolver.py: the capabilities that fit a goal. Python's text of a
-- value that is no text and its `lower` are parameters where all letters count; the tokens need only
-- what `lower` makes of a-z and digits.
pub mod Results
use networkops_ai_agent.Audit.Redaction.{is_plain, lower_plain}
use networkops_ai_agent.Auth.Models.{Permission, role_eq, permission_eq}
use networkops_ai_agent.Base.{
  Char, String, List, if◌then◌else◌, is_empty, ◌∷◌, [], ◌<>◌, code, contains, filter, not, Option,
  ℕ, nat_beq, Bool, true, false, map, join, any, ◌++◌, ◌&&◌, leb, length, Result, ok, err, some,
  nat_eq, string_eq,
}
use networkops_ai_agent.Capability.{
  CapabilityType, cap_firmware, cap_simulation, cap_hardware, cap_operations, cap_knowledge,
  Capability, CapabilityError, CapabilityRegistry, get_capability, list_capabilities,
}
use networkops_ai_agent.Embedded.Loop.{run}
use networkops_ai_agent.Enterprise.Approval.{python_str}
use networkops_ai_agent.Values.{Items, Value, nil, cons, list, Fields, end, field, null, get_field}

-- The text of a character.
abbrev one : Char → String
one c = String.◌∷◌ c String.[]

abbrev flush : String → List String → List String
flush run rest = if is_empty run then rest else run ∷ rest

-- `re.findall(r"[a-z0-9]+", text)`, after the characters of a run.
unfoldable pub runs_after : String → String → List String
runs_after run String.[] = flush run []
runs_after run (String.◌∷◌ c text) =
    let longer = runs_after (run <> one c) text in
    let ended = flush run (runs_after "" text) in if is_plain (code c) then longer else ended

abbrev pub stop_tokens : List String
stop_tokens =
    "a" ∷ "an" ∷ "and" ∷ "build" ∷ "compile" ∷ "the" ∷ "for" ∷ "in" ∷ "need" ∷ "needs" ∷ "of" ∷ "on"
    ∷ "project" ∷ "run" ∷ "to" ∷ "use" ∷ "using" ∷ "with" ∷ "i" ∷ "my" ∷ "me" ∷ "please" ∷ "want"
    ∷ []

-- `_tokenize`, as a list for a set.
unfoldable pub tokenize : String → List String
unfolding runs_after lower_plain contains filter
tokenize text =
    filter (λ token. not (contains stop_tokens token)) (runs_after "" (lower_plain text))

pub record CapabilityQuery : Type 0 where
  pub kind : Option CapabilityType
  pub permission : Option Permission
  pub version : Option String
  pub constraints : List (String × String)
  pub max_results : ℕ

abbrev values_in : Items → List Value
values_in nil = []
values_in (cons v items) = v ∷ values_in items

abbrev as_values : Value → List Value
as_values (list items) = values_in items
as_values v = v ∷ []

unfoldable pub with_spaces : String → String
with_spaces String.[] = String.[]
with_spaces (String.◌∷◌ c text) =
    let rest = with_spaces text in
    if nat_beq (code c) 95 then String.◌∷◌ " " rest else String.◌∷◌ c rest

abbrev type_text : CapabilityType → String
type_text cap_firmware = "firmware"
type_text cap_simulation = "simulation"
type_text cap_hardware = "hardware"
type_text cap_operations = "operations"
type_text cap_knowledge = "knowledge"

abbrev keys_of : Fields → List String
keys_of end = []
keys_of (field k v fields) = k ∷ keys_of fields

abbrev pub none_or_null : Value → Bool
none_or_null null = true
none_or_null _ = false

module _ (render : Value → String) (lower : String → String) where
  -- `_metadata_matches`
  unfoldable pub metadata_matches : Fields → List (String × String) → Bool
  unfolding get_field contains
  metadata_matches metadata [] = true
  metadata_matches metadata ((key, expected) ∷ constraints) =
      let actual = get_field metadata key in
      let rest = metadata_matches metadata constraints in
      if none_or_null actual
      then false
      else if contains (map (λ v. lower (python_str render v)) (as_values actual)) (lower expected)
      then rest
      else false

  abbrev value_texts : Fields → String
  value_texts end = ""
  value_texts (field k v fields) =
      " " <> (join " " (map (python_str render) (as_values v)) <> value_texts fields)

  -- `_capability_tokens`
  unfoldable pub capability_tokens : Capability → List String
  unfolding tokenize join with_spaces
  capability_tokens c = tokenize (
      join " "
        (with_spaces c.name ∷ type_text c.capability_type ∷ join " " (keys_of c.metadata) ∷ [])
      <> value_texts c.metadata)

  -- `tokens and not (tokens & self._capability_tokens(capability))`, the other way round
  unfoldable pub fits : List String → Capability → Bool
  unfolding capability_tokens any contains
  fits [] c = true
  fits (token ∷ tokens) c = any (contains (capability_tokens c)) (token ∷ tokens)

  -- The loop over the listed capabilities, with the names that matched before.
  unfoldable pub match_names :
      CapabilityQuery → List String → List String → List Capability → List String
  unfolding metadata_matches fits contains
  match_names query tokens names [] = names
  match_names query tokens names (c ∷ cs) =
      let grown = if contains names c.name then names else names ++ c.name ∷ [] in
      let go_on = match_names query tokens grown cs in
      let skipped = match_names query tokens names cs in
      if metadata_matches c.metadata query.constraints && fits tokens c
      then (if leb query.max_results (length grown) then grown else go_on)
      else skipped

abbrev pub prepend_ok : Result CapabilityError Capability → List Capability → List Capability
prepend_ok (ok c) cs = c ∷ cs
prepend_ok (err e) cs = cs

-- The capabilities of the names: a name that the registry refuses is passed over.
unfoldable pub get_all : CapabilityRegistry → Option String → List String → List Capability
unfolding get_capability
get_all registry version [] = []
get_all registry version (name ∷ names) =
    prepend_ok (get_capability registry name version) (get_all registry version names)

-- `CapabilityResolver.resolve`
unfoldable pub resolve :
    (Value → String)
    → (String → String)
    → CapabilityRegistry
    → String
    → CapabilityQuery
    → List Capability
unfolding match_names get_all list_capabilities tokenize
resolve render lower registry goal query = get_all registry query.version (
    match_names render lower query (tokenize goal) []
      (list_capabilities registry query.kind query.permission (some true)))
