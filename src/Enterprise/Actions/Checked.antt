-- ===== src/Enterprise/Actions/Checked.antt =====
-- What the proposed actions of a plan passed.
use networkops_ai_agent.Auth.Token.{is_text}
use networkops_ai_agent.Base.{
  String, ◌≡◌, is_blank, false, List, contains, ◌∷◌, or_raise, ok, arith, Bool, raise_if, not, true,
  All, [], ◌<>◌, >>=-eq-ok, refl, ◌∙◌, ap, subst, raise_if-eq-ok, ok_injective, sym, nat_eq,
  string_eq,
}
use networkops_ai_agent.Enterprise.Actions.{
  check_strings, is_filled, text_of, all_filled, are_steps, check_action, required_strings,
  check_actions, validate_actions,
}
use networkops_ai_agent.Enterprise.Approval.{as_dict}
use networkops_ai_agent.Enterprise.Workflow.{WorkflowError, bad_action}
use networkops_ai_agent.Policy.Models.{identifiers, effect_eq, operation_eq, risk_eq}
use networkops_ai_agent.Values.{
  Value, str, Items, nil, cons, Fields, dict, get_field, list, null, bool, number, datetime,
}

-- A value that is a text, and not a blank one.
abbrev pub IsText : Value → Type 0
IsText v = (text : String) × (v ≡ str text) × (is_blank text ≡ false)

-- Items that are all texts, and none of them blank.
abbrev pub AreTexts : Items → Type 0
AreTexts nil = Unit
AreTexts (cons v items) = IsText v × AreTexts items

-- What an action is, with the identifiers of the actions before it.
pub record IsAction (identifiers : List String) (value : Value) (action_id : String) : Type 0 where
  pub action : Fields
  pub arguments : Fields
  pub first_step : Value
  pub more_steps : Items
  pub is_dict : value ≡ dict action
  pub identified : get_field action "action_id" ≡ str action_id
  pub not_blank : is_blank action_id ≡ false
  pub has_tool : IsText (get_field action "tool_name")
  pub has_target : IsText (get_field action "target")
  pub has_rollback : IsText (get_field action "rollback_instructions")
  pub is_new : contains identifiers action_id ≡ false
  pub has_arguments : get_field action "arguments" ≡ dict arguments
  pub has_steps : get_field action "verification_steps" ≡ list (cons first_step more_steps)
  pub are_texts : AreTexts (cons first_step more_steps)

-- Each action of a list, whose identifiers differ.
abbrev pub AreActions : List String → Items → Type 0
AreActions identifiers nil = Unit
AreActions identifiers (cons value items) =
    (action_id : String) × IsAction identifiers value action_id
    × AreActions (action_id ∷ identifiers) items

as_dict-eq :
    (v : Value) (e : WorkflowError) (fields : Fields)
    → or_raise (as_dict v) e ≡ ok fields
    → v ≡ dict fields
as_dict-eq v e fields h = ground arith

passed_check : (b : Bool) (e : WorkflowError) → raise_if (not b) e ≡ ok tt → b ≡ true
passed_check b e h = ground arith

check_strings-All :
    (action : Fields) (names : List String)
    → check_strings action names ≡ ok tt
    → All (λ name. is_filled (get_field action name) ≡ true) names
unfolding check_strings
check_strings-All action [] h = tt
check_strings-All action (name ∷ names) h =
    let raised = bad_action ("repair action " <> (name <> " must be non-empty")) in
    let (_, filled, rest) =
      >>=-eq-ok (raise_if (not (is_filled (get_field action name))) raised) _ h in
    (
      passed_check (is_filled (get_field action name)) raised filled,
      check_strings-All action names rest,
    )

filled-IsText : (v : Value) → is_filled v ≡ true → IsText v
filled-IsText (str s) h = (s, refl, ground arith)
filled-IsText null h = cc
filled-IsText (bool b) h = cc
filled-IsText (number n) h = cc
filled-IsText (datetime t) h = cc
filled-IsText (list items) h = cc
filled-IsText (dict fields) h = cc

-- The identifier of an action is its text.
identified_text :
    (v : Value) (action_id : String)
    → is_filled v ≡ true
    → text_of v ≡ action_id
    → (v ≡ str action_id) × (is_blank action_id ≡ false)
identified_text v action_id h same =
    let (text, is_text, filled) = filled-IsText v h in
    let named : text ≡ action_id = rw is_text at same in
    (is_text ∙ ap str named, subst (λ t. is_blank t ≡ false) named filled)

all_filled-AreTexts : (items : Items) → all_filled items ≡ true → AreTexts items
unfolding all_filled
all_filled-AreTexts nil h = tt
all_filled-AreTexts (cons v items) h =
    (filled-IsText v (ground arith), all_filled-AreTexts items (ground arith))

steps_of :
    (v : Value)
    → are_steps v ≡ true
    → (first : Value) × (more : Items) × (v ≡ list (cons first more)) × AreTexts (cons first more)
steps_of (list (cons first more)) h = (first, more, refl, all_filled-AreTexts (cons first more) h)
steps_of (list nil) h = cc
steps_of null h = cc
steps_of (bool b) h = cc
steps_of (str s) h = cc
steps_of (number n) h = cc
steps_of (datetime t) h = cc
steps_of (dict fields) h = cc

check_action-IsAction :
    (identifiers : List String) (value : Value) (action_id : String)
    → check_action identifiers value ≡ ok action_id
    → IsAction identifiers value action_id
unfolding check_action
check_action-IsAction identifiers value action_id h =
    let (action, is_dict, h₁) =
      >>=-eq-ok (or_raise (as_dict value) (bad_action "repair action must be a dictionary")) _ h in
    let (_, stringed, h₂) = >>=-eq-ok (check_strings action required_strings) _ h₁ in
    let (fresh, h₃) =
      raise_if-eq-ok (contains identifiers (text_of (get_field action "action_id")))
        (bad_action "repair action_id must be unique") _ h₂ in
    let (arguments, argued, h₄) =
      >>=-eq-ok
        (or_raise (as_dict (get_field action "arguments"))
          (bad_action "repair action arguments must be a dictionary"))
        _ h₃ in
    let (_, stepped, h₅) =
      >>=-eq-ok
        (raise_if (not (are_steps (get_field action "verification_steps")))
          (bad_action "repair action verification_steps must be non-empty"))
        _ h₄ in
    let strings = check_strings-All action required_strings stringed in
    let (identified, not_blank) =
      identified_text (get_field action "action_id") action_id strings.0 (ok_injective h₅) in
    let (first, more, listed, texts) =
      steps_of (get_field action "verification_steps") (passed_check _ _ stepped) in
    record {
      action = action;
      arguments = arguments;
      first_step = first;
      more_steps = more;
      is_dict = as_dict-eq value (bad_action "repair action must be a dictionary") action is_dict;
      identified = identified;
      not_blank = not_blank;
      has_tool = filled-IsText (get_field action "tool_name") strings.1.0;
      has_target = filled-IsText (get_field action "target") strings.1.1.0;
      has_rollback = filled-IsText (get_field action "rollback_instructions") strings.1.1.1.0;
      is_new = ap (contains identifiers) (sym (ok_injective h₅)) ∙ fresh;
      has_arguments =
          as_dict-eq (get_field action "arguments")
            (bad_action "repair action arguments must be a dictionary") arguments argued;
      has_steps = listed;
      are_texts = texts;
    }

check_actions-AreActions :
    (identifiers : List String) (items : Items)
    → check_actions identifiers items ≡ ok tt
    → AreActions identifiers items
unfolding check_actions
check_actions-AreActions identifiers nil h = tt
check_actions-AreActions identifiers (cons value items) h =
    let (action_id, checked, rest) = >>=-eq-ok (check_action identifiers value) _ h in
    (
      action_id,
      check_action-IsAction identifiers value action_id checked,
      check_actions-AreActions (action_id ∷ identifiers) items rest,
    )

-- Proposed actions that pass their validation are a list of dictionaries, each with an
-- identifier, a tool's name, a target and rollback instructions that are texts and not blank, an
-- identifier that no action before it has, a dictionary of arguments, and a list of at least one
-- verification step, all of them texts and not blank.
pub validate_actions-AreActions :
    (actions : Value)
    → validate_actions actions ≡ ok tt
    → (items : Items) × (actions ≡ list items) × AreActions [] items
unfolding validate_actions
validate_actions-AreActions (list items) h = (items, refl, check_actions-AreActions [] items h)
validate_actions-AreActions null h = cc
validate_actions-AreActions (bool b) h = cc
validate_actions-AreActions (str s) h = cc
validate_actions-AreActions (number n) h = cc
validate_actions-AreActions (datetime t) h = cc
validate_actions-AreActions (dict fields) h = cc
