-- ===== src/Enterprise/Approval/Once.antt =====
-- An approval is given once, for the plan that was judged, and in time.
use networkops_ai_agent.Base.{
  String, ◌≡◌, true, contains, ◌∷◌, [], is_blank, false, if◌then◌else◌, ◌==◌, ok, Bool, raise_if,
  not, arith, or_raise, refl, ◌∙◌, ap, sym, some, >>=-eq-ok, ok_injective, nat_eq, string_eq,
}
use networkops_ai_agent.Enterprise.Approval.{
  is_null, is_after, Error, as_text, bad_actor, as_datetime, no_expiry, check_expiry,
  approval_result, already_decided, as_dict, no_risk_decision, in_texts, bad_decision,
  digest_mismatch, validate_approval, checked_comment,
}
use networkops_ai_agent.Enterprise.Approval.Outcomes.{in_texts-true, as_dict-some}
use networkops_ai_agent.Values.{Fields, Datetime, get_field, dict, str, value_eq, datetime, Value}

-- What was checked of an accepted approval, against the risk decision of the state.
pub record Accepts (state payload result : Fields) (now : Datetime) : Type 0 where
  pub risk : Fields
  pub decision : String
  pub actor : String
  pub expires_at : Datetime
  pub undecided : is_null (get_field state "approval_result") ≡ true
  pub pending : get_field state "risk_decision" ≡ dict risk
  pub decided : get_field payload "decision" ≡ str decision
  pub known : contains ("approve" ∷ "reject" ∷ []) decision ≡ true
  pub named : get_field payload "actor" ≡ str actor
  pub not_blank : is_blank actor ≡ false
  pub same_plan : value_eq (get_field payload "plan_digest") (get_field risk "plan_digest") ≡ true
  pub expiry : get_field risk "expires_at" ≡ datetime expires_at
  pub in_time : (if decision == "approve" then is_after now expires_at else ok false) ≡ ok false
  pub recorded : get_field result "decision" ≡ str decision

raise_unless : (b : Bool) (e : Error) → raise_if (not b) e ≡ ok tt → b ≡ true
raise_unless b e h = ground arith

as_text-some :
    (v : Value) (s : String)
    → or_raise (as_text v) bad_actor ≡ ok s
    → (v ≡ str s) × (is_blank s ≡ false)
unfolding as_text
as_text-some v s h = ground arith

as_datetime-some :
    (v : Value) (t : Datetime) → or_raise (as_datetime v) no_expiry ≡ ok t → v ≡ datetime t
as_datetime-some v t h = ground arith

in_time_of :
    (v : Value) (decision : String) (now expires_at : Datetime)
    → v ≡ str decision
    → check_expiry v now expires_at ≡ ok tt
    → (if decision == "approve" then is_after now expires_at else ok false) ≡ ok false
unfolding check_expiry value_eq
in_time_of v decision now expires_at e h = ground arith

approval_result-decision :
    (render : Value → String) (decision : Value) (actor : String) (digest comment : Value)
    (now : Datetime)
    → get_field (approval_result render decision actor digest comment now) "decision" ≡ decision
unfolding approval_result get_field
approval_result-decision render decision actor digest comment now = refl

module _ (render : Value → String) (state payload : Fields) (now : Datetime) where
  Accepts-of :
      (risk : Fields) (known : Bool) (actor : String) (expires_at : Datetime) (comment : Value)
      (result : Fields)
      → raise_if (not (is_null (get_field state "approval_result"))) already_decided ≡ ok tt
      → or_raise (as_dict (get_field state "risk_decision")) no_risk_decision ≡ ok risk
      → in_texts (get_field payload "decision") ("approve" ∷ "reject" ∷ []) ≡ ok known
      → raise_if (not known) bad_decision ≡ ok tt
      → or_raise (as_text (get_field payload "actor")) bad_actor ≡ ok actor
      → raise_if
          (not (value_eq (get_field payload "plan_digest") (get_field risk "plan_digest")))
          digest_mismatch
        ≡ ok tt
      → or_raise (as_datetime (get_field risk "expires_at")) no_expiry ≡ ok expires_at
      → check_expiry (get_field payload "decision") now expires_at ≡ ok tt
      → approval_result render
          (get_field payload "decision")
          actor
          (get_field payload "plan_digest")
          comment
          now
        ≡ result
      → Accepts state payload result now
  Accepts-of risk known actor expires_at comment result undecided pending decided known_ok named
        same expiry in_time made =
      let (decision, decision_eq, decision_in) =
        in_texts-true (get_field payload "decision") ("approve" ∷ "reject" ∷ [])
          (decided ∙ ap ok (raise_unless known bad_decision known_ok)) in
      let (actor_eq, not_blank) = as_text-some (get_field payload "actor") actor named in
      record {
        risk = risk;
        decision = decision;
        actor = actor;
        expires_at = expires_at;
        undecided =
            raise_unless (is_null (get_field state "approval_result")) already_decided undecided;
        pending = as_dict-some (get_field state "risk_decision") no_risk_decision risk pending;
        decided = decision_eq;
        known = decision_in;
        named = actor_eq;
        not_blank = not_blank;
        same_plan =
            raise_unless (value_eq (get_field payload "plan_digest") (get_field risk "plan_digest"))
              digest_mismatch same;
        expiry = as_datetime-some (get_field risk "expires_at") expires_at expiry;
        in_time =
            in_time_of (get_field payload "decision") decision now expires_at decision_eq in_time;
        recorded =
            ap (λ r. get_field r "decision") (sym made)
            ∙ approval_result-decision render (get_field payload "decision") actor
                (get_field payload "plan_digest") comment now
            ∙ decision_eq;
      }

  -- An approval is accepted only once, for the digest of the plan that was judged, from a named
  -- actor whose text is not blank, and to approve only while the request has not expired.
  pub validate_approval-Accepts :
      (system_now : Datetime) (result : Fields)
      → validate_approval render state payload (some now) system_now ≡ ok result
      → Accepts state payload result now
  unfolding validate_approval
  validate_approval-Accepts system_now result h =
      let (_, undecided, h1) =
        >>=-eq-ok (raise_if (not (is_null (get_field state "approval_result"))) already_decided) _
          h in
      let (risk, pending, h2) =
        >>=-eq-ok (or_raise (as_dict (get_field state "risk_decision")) no_risk_decision) _ h1 in
      let (known, decided, h3) =
        >>=-eq-ok (in_texts (get_field payload "decision") ("approve" ∷ "reject" ∷ [])) _ h2 in
      let (_, known_ok, h4) = >>=-eq-ok (raise_if (not known) bad_decision) _ h3 in
      let (actor, named, h5) =
        >>=-eq-ok (or_raise (as_text (get_field payload "actor")) bad_actor) _ h4 in
      let (_, same, h6) =
        >>=-eq-ok
          (raise_if
            (not (value_eq (get_field payload "plan_digest") (get_field risk "plan_digest")))
            digest_mismatch)
          _ h5 in
      let (expires_at, expiry, h7) =
        >>=-eq-ok (or_raise (as_datetime (get_field risk "expires_at")) no_expiry) _ h6 in
      let (_, in_time, h8) =
        >>=-eq-ok (check_expiry (get_field payload "decision") now expires_at) _ h7 in
      let (comment, _, h9) = >>=-eq-ok (checked_comment (get_field payload "comment")) _ h8 in
      Accepts-of risk known actor expires_at comment result undecided pending decided known_ok named
        same expiry in_time (ok_injective h9)
