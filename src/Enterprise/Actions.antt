-- ===== src/Enterprise/Actions.antt =====
-- .../enterprise/workflow.py: the validation of proposed actions.
pub mod Checked
use networkops_ai_agent.Base.{
  Bool, not, is_blank, false, true, ◌&&◌, List, String, ◌∷◌, [], Result, ok, raise_if, ◌<>◌,
  contains, or_raise, ◌>>=◌, ◌>>◌, nat_eq, string_eq,
}
use networkops_ai_agent.Enterprise.Approval.{as_dict, as_list}
use networkops_ai_agent.Enterprise.Workflow.{WorkflowError, bad_action}
use networkops_ai_agent.Policy.Models.{identifiers, effect_eq, operation_eq, risk_eq}
use networkops_ai_agent.Values.{Value, str, Items, nil, cons, list, Fields, get_field}

-- A text that is not blank.
abbrev pub is_filled : Value → Bool
is_filled (str s) = not (is_blank s)
is_filled _ = false

unfoldable pub all_filled : Items → Bool
unfolding is_blank
all_filled nil = true
all_filled (cons v items) = is_filled v && all_filled items

abbrev pub has_items : Items → Bool
has_items nil = false
has_items (cons v items) = true

-- `isinstance(checks, list) and checks and all(...)`
abbrev pub are_steps : Value → Bool
are_steps (list items) = has_items items && all_filled items
are_steps _ = false

abbrev pub required_strings : List String
required_strings = "action_id" ∷ "tool_name" ∷ "target" ∷ "rollback_instructions" ∷ []

-- The first field that is no text or blank raises.
unfoldable pub check_strings : Fields → List String → Result WorkflowError (Unit {0})
unfolding get_field is_blank
check_strings action [] = ok tt
check_strings action (name ∷ names) = do
  raise_if (not (is_filled (get_field action name)))
      (bad_action ("repair action " <> (name <> " must be non-empty")))
  check_strings action names

abbrev pub text_of : Value → String
text_of (str s) = s
text_of _ = ""

-- The checks of an action, with the identifiers before it; they give the identifier.
unfoldable pub check_action : List String → Value → Result WorkflowError String
unfolding check_strings get_field contains all_filled
check_action identifiers value = do
  action ← or_raise (as_dict value) (bad_action "repair action must be a dictionary")
  check_strings action required_strings
  let action_id = text_of (get_field action "action_id")
  raise_if (contains identifiers action_id) (bad_action "repair action_id must be unique")
  arguments ←
      or_raise (as_dict (get_field action "arguments"))
        (bad_action "repair action arguments must be a dictionary")
  raise_if (not (are_steps (get_field action "verification_steps")))
      (bad_action "repair action verification_steps must be non-empty")
  ok action_id

unfoldable pub check_actions : List String → Items → Result WorkflowError (Unit {0})
unfolding check_action
check_actions identifiers nil = ok tt
check_actions identifiers (cons value items) = do
  action_id ← check_action identifiers value
  check_actions (action_id ∷ identifiers) items

-- `_validate_actions`
unfoldable pub validate_actions : Value → Result WorkflowError (Unit {0})
unfolding check_actions
validate_actions actions = do
  items ← or_raise (as_list actions) (bad_action "plan_actions must return a list")
  check_actions [] items
