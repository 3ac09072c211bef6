-- ===== src/Enterprise/Approval/Window.antt =====
-- The request and the answer together: the time in which a plan can be approved.
use networkops_ai_agent.Base.{
  Option, String, none, some, ◌≡◌, is_blank, false, ℕ, Result, ok, if◌then◌else◌, err, strip,
  contains, ◌∷◌, [], true, ◌==◌, ◌&&◌, ltb, eq_refl, arith, ◌+◌, ◌*◌, ◌∙◌, ap, sym, nat_eq,
  string_eq,
}
use networkops_ai_agent.Enterprise.Approval.{
  Error, approval_result, bad_comment, validate_approval, expired, checked_comment, evaluate_risk,
}
use networkops_ai_agent.Enterprise.Approval.Outcomes.{evaluate_risk-Judges}
use networkops_ai_agent.Values.{
  Value, null, str, Fields, get_field, aware, Items, list, put_field, dict, Datetime, datetime,
  get_field-put_field,
}

-- A comment in a payload: none, or a text.
abbrev pub comment_value : Option String → Value
comment_value none = null
comment_value (some comment) = str comment

-- A payload that approves or rejects a plan by its digest, with a comment or none.
pub record Answers (payload : Fields) (decision actor digest : String) (comment : Option String)
    : Type 0 where
  pub decided : get_field payload "decision" ≡ str decision
  pub named : get_field payload "actor" ≡ str actor
  pub not_blank : is_blank actor ≡ false
  pub of_plan : get_field payload "plan_digest" ≡ str digest
  pub commented : get_field payload "comment" ≡ comment_value comment

-- What an answer in time comes to: a blank comment is refused, another is kept without the blanks
-- around it.
abbrev pub answered :
    (Value → String) → String → String → String → Option String → ℕ → Result Error Fields
answered render decision actor digest none t =
    ok (approval_result render (str decision) actor (str digest) null (aware t))
answered render decision actor digest (some comment) t =
    if is_blank comment
    then err bad_comment
    else ok
        (approval_result render (str decision) actor (str digest) (str (strip comment)) (aware t))

list_injective : {a b : Items} → list a ≡ list b → a ≡ b
list_injective h = cc

-- The state with the risk decision that the request stored.
abbrev pub pending_state : Fields → Fields → Fields
pending_state state risk = put_field state "risk_decision" (dict risk)

module _ (render : Value → String) (state risk payload : Fields) (actor digest : String)
    (expires : ℕ) (t : ℕ) (system_now : Datetime)
    (undecided : get_field state "approval_result" ≡ null)
    (pending : get_field state "risk_decision" ≡ dict risk)
    (judged : get_field risk "plan_digest" ≡ str digest)
    (expiry : get_field risk "expires_at" ≡ datetime (aware expires)) where
  -- Only the expiry and a blank comment can refuse an answer that is well formed.
  validate_approval-answer :
      (decision : String) (comment : Option String)
      → contains ("approve" ∷ "reject" ∷ []) decision ≡ true
      → Answers payload decision actor digest comment
      → validate_approval render state payload (some (aware t)) system_now ≡ (
          if decision == "approve" && ltb expires t
          then err expired
          else answered render decision actor digest comment t)
  unfolding validate_approval checked_comment
  validate_approval-answer decision none known a =
      rw
        (
          undecided,
          pending,
          a.decided,
          a.named,
          a.not_blank,
          a.of_plan,
          judged,
          expiry,
          a.commented,
          eq_refl digest,
        )
        (ground arith)
  validate_approval-answer decision (some comment) known a =
      rw
        (
          undecided,
          pending,
          a.decided,
          a.named,
          a.not_blank,
          a.of_plan,
          judged,
          expiry,
          a.commented,
          eq_refl digest,
        )
        (ground arith)

-- For a plan whose risk was judged at an instant, the answer of a named actor with the digest of
-- the proposed actions, with a text as comment or none, is accepted, but for an approval after
-- the time-to-live and for a blank comment, which are refused; a comment is kept without the
-- blanks around it.
pub approval_window :
    (plan_digest : Items → String) (render : Value → String) (state risk payload : Fields)
    (actions : Items) (actor decision : String) (requested ttl t : ℕ) (comment : Option String)
    (system_now : Datetime)
    → get_field state "approval_result" ≡ null
    → get_field state "proposed_actions" ≡ list actions
    → evaluate_risk plan_digest state (some (aware requested)) system_now ttl ≡ ok risk
    → contains ("approve" ∷ "reject" ∷ []) decision ≡ true
    → Answers payload decision actor (plan_digest actions) comment
    → validate_approval render (pending_state state risk) payload (some (aware t)) system_now ≡ (
        if decision == "approve" && ltb (requested + ttl * 1000000) t
        then err expired
        else answered render decision actor (plan_digest actions) comment t)
approval_window plan_digest render state risk payload actions actor decision requested ttl t comment
      system_now undecided proposed made known answers =
    let judges = evaluate_risk-Judges plan_digest state system_now ttl requested risk made in
    validate_approval-answer render (pending_state state risk) risk payload actor
      (plan_digest actions) (requested + ttl * 1000000) t system_now
      (get_field-put_field state "risk_decision" (dict risk) "approval_result" ∙ undecided)
      (get_field-put_field state "risk_decision" (dict risk) "risk_decision")
      (judges.digest
        ∙ ap (λ a. str (plan_digest a)) (list_injective (sym judges.proposed ∙ proposed)))
      judges.expires decision comment known answers
