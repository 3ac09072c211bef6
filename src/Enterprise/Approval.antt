-- ===== src/Enterprise/Approval.antt =====
-- .../enterprise/approval.py: the risk decision of a plan and the validation of its approval. The
-- digest of the actions, `sha256(json.dumps(actions))`, is a parameter.
pub mod Outcomes
pub mod Once
pub mod Window
use networkops_ai_agent.Base.{
  List, String, Result, Bool, contains, ok, err, false, Option, some, none, is_blank, if◌then◌else◌,
  ltb, ℕ, ◌+◌, ◌*◌, true, ◌∷◌, [], ◌<>◌, ◌++◌, ◌||◌, raise_if, nat_beq, or_raise, not, or_else,
  strip, ◌>>=◌, ◌>>◌, nat_eq, string_eq,
}
use networkops_ai_agent.Values.{
  Value, str, list, dict, Fields, bool, Items, Datetime, datetime, aware, naive, nil, cons, field,
  end, get_field, null, value_eq,
}

-- What the functions raise; `type_error` is Python's own, of a comparison or a set lookup.
pub data Error : Type 0 where
  bad_ttl no_repair_plan bad_risk_level bad_forced bad_actions naive_now : Error
  already_decided no_risk_decision bad_decision bad_actor digest_mismatch : Error
  no_expiry expired bad_comment type_error : Error

-- `value in {texts}`: a list or a dictionary has no hash.
unfoldable pub in_texts : Value → List String → Result Error Bool
unfolding contains
in_texts (str s) texts = ok (contains texts s)
in_texts (list items) texts = err type_error
in_texts (dict fields) texts = err type_error
in_texts _ texts = ok false

-- `isinstance(value, dict)` and its like: the part, or nothing.
abbrev pub as_dict : Value → Option Fields
as_dict (dict fields) = some fields
as_dict _ = none

abbrev pub as_bool : Value → Option Bool
as_bool (bool b) = some b
as_bool _ = none

abbrev pub as_list : Value → Option Items
as_list (list items) = some items
as_list _ = none

abbrev pub as_datetime : Value → Option Datetime
as_datetime (datetime t) = some t
as_datetime _ = none

-- A text that is not blank.
unfoldable pub as_text : Value → Option String
unfolding is_blank
as_text (str s) = if is_blank s then none else some s
as_text _ = none

-- `current > expires_at`: Python compares no naive instant with an aware one.
unfoldable pub is_after : Datetime → Datetime → Result Error Bool
is_after (aware a) (aware b) = ok (ltb b a)
is_after (naive a) (naive b) = ok (ltb b a)
is_after _ _ = err type_error

unfoldable pub add_seconds : Datetime → ℕ → Datetime
add_seconds (aware a) seconds = aware (a + seconds * 1000000)
add_seconds (naive a) seconds = naive (a + seconds * 1000000)

abbrev pub is_aware : Datetime → Bool
is_aware (aware a) = true
is_aware (naive a) = false

abbrev pub high_levels : List String
high_levels = "high" ∷ "critical" ∷ []

abbrev pub all_levels : List String
all_levels = "low" ∷ "medium" ∷ "high" ∷ "critical" ∷ []

abbrev items_of : List Value → Items
items_of [] = nil
items_of (v ∷ vs) = cons v (items_of vs)

-- `reasons`, in the order in which they are appended.
unfoldable pub risk_reasons : Value → Bool → Bool → List Value
risk_reasons (str level) is_high forced =
    (if is_high then str ("risk level is " <> level) ∷ [] else [])
    ++ (if forced then str "repair plan requires human approval" ∷ [] else [])
risk_reasons _ is_high forced = []

-- The dictionary that `evaluate_risk` returns.
unfoldable pub risk_decision :
    (Items → String) → Value → Bool → Bool → Items → Datetime → ℕ → Fields
unfolding add_seconds risk_reasons
risk_decision plan_digest risk_level is_high forced actions current ttl =
    field "risk_level" risk_level (
      field "approval_required" (bool (is_high || forced)) (
        field "reasons" (list (items_of (risk_reasons risk_level is_high forced))) (
          field "plan_digest" (str (plan_digest actions)) (
            field "requested_at" (datetime current)
              (field "expires_at" (datetime (add_seconds current ttl)) end)))))

-- The time-to-live is an `int`; a negative one is refused like zero.
unfoldable pub evaluate_risk :
    (Items → String) → Fields → Option Datetime → Datetime → ℕ → Result Error Fields
unfolding in_texts get_field risk_decision
evaluate_risk plan_digest state now system_now approval_ttl_seconds = do
  raise_if (nat_beq approval_ttl_seconds 0) bad_ttl
  plan ← or_raise (as_dict (get_field state "repair_plan")) no_repair_plan
  let risk_level = get_field plan "risk_level"
  known ← in_texts risk_level all_levels
  raise_if (not known) bad_risk_level
  forced ← or_raise (as_bool (get_field plan "requires_human_approval")) bad_forced
  actions ← or_raise (as_list (get_field state "proposed_actions")) bad_actions
  let current = or_else now system_now
  raise_if (not (is_aware current)) naive_now
  is_high ← in_texts risk_level high_levels
  ok (risk_decision plan_digest risk_level is_high forced actions current approval_ttl_seconds)

abbrev pub is_null : Value → Bool
is_null null = true
is_null _ = false

-- `str(value)`; `render` is Python's text of a value that is no text itself.
abbrev pub python_str : (Value → String) → Value → String
python_str render (str s) = s
python_str render v = render v

-- The comment that is kept: stripped, or None.
unfoldable pub checked_comment : Value → Result Error Value
unfolding is_blank strip
checked_comment null = ok null
checked_comment (str s) = if is_blank s then err bad_comment else ok (str (strip s))
checked_comment _ = err bad_comment

-- Only an approval has to be in time; a rejection may come late.
unfoldable pub check_expiry : Value → Datetime → Datetime → Result Error (Unit {0})
unfolding is_after
check_expiry decision current expires_at =
    if value_eq decision (str "approve")
    then (do late ← is_after current expires_at; raise_if late expired)
    else ok tt

-- The dictionary that `validate_approval` returns.
unfoldable pub approval_result :
    (Value → String) → Value → String → Value → Value → Datetime → Fields
unfolding strip
approval_result render decision actor digest comment current = field "decision" decision (
    field "actor" (str (strip actor)) (
      field "plan_digest" (str (python_str render digest))
        (field "comment" comment (field "decided_at" (datetime current) end))))

unfoldable pub validate_approval :
    (Value → String) → Fields → Fields → Option Datetime → Datetime → Result Error Fields
unfolding get_field in_texts as_text value_eq check_expiry checked_comment approval_result
validate_approval render state payload now system_now = do
  raise_if (not (is_null (get_field state "approval_result"))) already_decided
  risk ← or_raise (as_dict (get_field state "risk_decision")) no_risk_decision
  let decision = get_field payload "decision"
  known ← in_texts decision ("approve" ∷ "reject" ∷ [])
  raise_if (not known) bad_decision
  actor ← or_raise (as_text (get_field payload "actor")) bad_actor
  let digest = get_field payload "plan_digest"
  raise_if (not (value_eq digest (get_field risk "plan_digest"))) digest_mismatch
  let current = or_else now system_now
  expires_at ← or_raise (as_datetime (get_field risk "expires_at")) no_expiry
  check_expiry decision current expires_at
  comment ← checked_comment (get_field payload "comment")
  ok (approval_result render decision actor digest comment current)
