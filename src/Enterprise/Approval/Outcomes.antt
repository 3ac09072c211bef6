-- ===== src/Enterprise/Approval/Outcomes.antt =====
-- When the risk decision and the approval succeed, and what they then hold.
use networkops_ai_agent.Base.{
  List, String, ◌≡◌, ok, true, contains, refl, ok_injective, Bool, ℕ, ◌||◌, ◌+◌, ◌*◌, or_raise,
  arith, raise_if, not, ◌∙◌, ap, sym, some, >>=-eq-ok, nat_beq, nat_eq, string_eq,
}
use networkops_ai_agent.Enterprise.Approval.{
  in_texts, risk_decision, Error, as_dict, as_bool, bad_forced, as_list, bad_actions,
  bad_risk_level, all_levels, high_levels, no_repair_plan, evaluate_risk, bad_ttl,
}
use networkops_ai_agent.Values.{
  Value, str, null, bool, number, datetime, list, dict, Items, aware, get_field, Fields, Datetime,
}
use networkops_ai_agent.Policy.Models.{effect_eq, operation_eq, risk_eq}

-- What the dynamic tests find where they succeed.
pub in_texts-true :
    (v : Value) (texts : List String)
    → in_texts v texts ≡ ok true
    → (s : String) × (v ≡ str s) × (contains texts s ≡ true)
unfolding in_texts
in_texts-true (str s) texts h = (s, refl, ok_injective h)
in_texts-true null texts h = cc
in_texts-true (bool b) texts h = cc
in_texts-true (number n) texts h = cc
in_texts-true (datetime t) texts h = cc
in_texts-true (list items) texts h = cc
in_texts-true (dict fields) texts h = cc

in_texts-str :
    (v : Value) (s : String) (texts : List String) (b : Bool)
    → v ≡ str s
    → in_texts v texts ≡ ok b
    → contains texts s ≡ b
unfolding in_texts
in_texts-str v s texts b e h = ok_injective (rw e at h)

risk_decision-fields :
    (plan_digest : Items → String) (level : Value) (is_high forced : Bool) (actions : Items)
    (requested ttl : ℕ)
    → let risk = risk_decision plan_digest level is_high forced actions (aware requested) ttl in
      (get_field risk "approval_required" ≡ bool (is_high || forced))
      × (get_field risk "plan_digest" ≡ str (plan_digest actions))
      × (get_field risk "expires_at" ≡ datetime (aware (requested + ttl * 1000000)))
unfolding risk_decision get_field
risk_decision-fields plan_digest level is_high forced actions requested ttl = (refl, refl, refl)

pub as_dict-some :
    (v : Value) (e : Error) (fields : Fields) → or_raise (as_dict v) e ≡ ok fields → v ≡ dict fields
as_dict-some v e fields h = ground arith

as_bool-some : (v : Value) (b : Bool) → or_raise (as_bool v) bad_forced ≡ ok b → v ≡ bool b
as_bool-some v b h = ground arith

as_list-some :
    (v : Value) (items : Items) → or_raise (as_list v) bad_actions ≡ ok items → v ≡ list items
as_list-some v items h = ground arith

accepted_known : (known : Bool) → raise_if (not known) bad_risk_level ≡ ok tt → known ≡ true
accepted_known known h = ground arith

-- What a successful risk decision says of the plan that it judges.
pub record Judges (plan_digest : Items → String) (state risk : Fields) (requested : ℕ) (ttl : ℕ)
    : Type 0 where
  pub plan : Fields
  pub level : String
  pub forced : Bool
  pub actions : Items
  pub planned : get_field state "repair_plan" ≡ dict plan
  pub level_of_plan : get_field plan "risk_level" ≡ str level
  pub known_level : contains all_levels level ≡ true
  pub forced_of_plan : get_field plan "requires_human_approval" ≡ bool forced
  pub proposed : get_field state "proposed_actions" ≡ list actions
  pub required : get_field risk "approval_required" ≡ bool (contains high_levels level || forced)
  pub digest : get_field risk "plan_digest" ≡ str (plan_digest actions)
  pub expires : get_field risk "expires_at" ≡ datetime (aware (requested + ttl * 1000000))

module _ (plan_digest : Items → String) (state : Fields) (system_now : Datetime) (ttl : ℕ) where
  Judges-of :
      (plan : Fields) (known forced is_high : Bool) (actions : Items) (requested : ℕ)
      (risk : Fields)
      → or_raise (as_dict (get_field state "repair_plan")) no_repair_plan ≡ ok plan
      → in_texts (get_field plan "risk_level") all_levels ≡ ok known
      → raise_if (not known) bad_risk_level ≡ ok tt
      → or_raise (as_bool (get_field plan "requires_human_approval")) bad_forced ≡ ok forced
      → or_raise (as_list (get_field state "proposed_actions")) bad_actions ≡ ok actions
      → in_texts (get_field plan "risk_level") high_levels ≡ ok is_high
      → risk_decision plan_digest
          (get_field plan "risk_level")
          is_high
          forced
          actions
          (aware requested)
          ttl
        ≡ risk
      → Judges plan_digest state risk requested ttl
  Judges-of plan known forced is_high actions requested risk planned level_known accepted is_forced
        proposed upper made =
      let (level, level_eq, level_in) =
        in_texts-true (get_field plan "risk_level") all_levels
          (level_known ∙ ap ok (accepted_known known accepted)) in
      let same = sym made in
      let (required, digest, expires) =
        risk_decision-fields plan_digest (get_field plan "risk_level") is_high forced actions
          requested ttl in
      record {
        plan = plan;
        level = level;
        forced = forced;
        actions = actions;
        planned = as_dict-some (get_field state "repair_plan") no_repair_plan plan planned;
        level_of_plan = level_eq;
        known_level = level_in;
        forced_of_plan = as_bool-some (get_field plan "requires_human_approval") forced is_forced;
        proposed = as_list-some (get_field state "proposed_actions") actions proposed;
        required =
            ap (λ r. get_field r "approval_required") same
            ∙ required
            ∙ ap (λ b. bool (b || forced))
                (sym (
                  in_texts-str (get_field plan "risk_level") level high_levels is_high level_eq
                    upper));
        digest = ap (λ r. get_field r "plan_digest") same ∙ digest;
        expires = ap (λ r. get_field r "expires_at") same ∙ expires;
      }

  -- A risk decision that is made requires approval exactly for a high or critical level or a plan
  -- that demands it, holds the digest of the proposed actions and expires after the time-to-live.
  pub evaluate_risk-Judges :
      (requested : ℕ) (risk : Fields)
      → evaluate_risk plan_digest state (some (aware requested)) system_now ttl ≡ ok risk
      → Judges plan_digest state risk requested ttl
  unfolding evaluate_risk
  evaluate_risk-Judges requested risk h =
      let (_, _, h1) = >>=-eq-ok (raise_if (nat_beq ttl 0) bad_ttl) _ h in
      let (plan, planned, h2) =
        >>=-eq-ok (or_raise (as_dict (get_field state "repair_plan")) no_repair_plan) _ h1 in
      let (known, level_known, h3) =
        >>=-eq-ok (in_texts (get_field plan "risk_level") all_levels) _ h2 in
      let (_, accepted, h4) = >>=-eq-ok (raise_if (not known) bad_risk_level) _ h3 in
      let (forced, is_forced, h5) =
        >>=-eq-ok (or_raise (as_bool (get_field plan "requires_human_approval")) bad_forced) _ h4 in
      let (actions, proposed, h6) =
        >>=-eq-ok (or_raise (as_list (get_field state "proposed_actions")) bad_actions) _ h5 in
      let (is_high, upper, h7) =
        >>=-eq-ok (in_texts (get_field plan "risk_level") high_levels) _ h6 in
      Judges-of plan known forced is_high actions requested risk planned level_known accepted
        is_forced proposed upper (ok_injective h7)
