-- ===== src/Orchestration/Attempts/Laws.antt =====
-- Which requests reach the provider, and which responses count.
use psychic_octo_invention.Prelude.{
  ℕ, ◌+◌, ◌≤◌, ◌≡◌, refl, sym, ap, ◌∙◌, subst, String, Option, none, some, List, [], ◌∷◌, ◌++◌, All,
  All-append, length, length-append, arith,
}
use psychic_octo_invention.Routing.Types.{RoutingDecision}
use psychic_octo_invention.Routing.Spend.{SpendControlParams, enforce_spend_controls}
use psychic_octo_invention.Orchestration.Types.{LlmRequest, LlmResponse, ToolResult}
use psychic_octo_invention.Orchestration.Tools.Executor.{Outcome, returned, thrown}
use psychic_octo_invention.Orchestration.Attempts.{
  Prepared, AttemptOutcome, blocked, failed, responded, Traffic, Attempt, monthly_cost_so_far,
  initial_params, follow_up_params, permitted_request, sent, call_outcome, with_answer,
  checked_attempt, attempt, escalate_to, escalate, retry, primary, cost_of,
}

-- The parameters of a check for an event: its settings, and at least the cost of the month so far.
pub record IsFor (p : Prepared) (params : SpendControlParams) : Type 0 where
  pub settings : params.settings ≡ p.settings
  pub month : ℕ
  pub counted : params.monthly_cost_so_far ≡ some month
  pub enough : monthly_cost_so_far p ≤ month

-- A request that the spend controls let through, with their model and their token limit.
pub record IsPermitted (p : Prepared) (request : LlmRequest) : Type 0 where
  pub params : SpendControlParams
  pub for_event : IsFor p params
  pub passed : (enforce_spend_controls params).blocked_reply ≡ none
  pub permitted : request ≡ permitted_request params

abbrev pub Responses : AttemptOutcome → Traffic → Traffic → Type 0
Responses (responded r) before after = after.responses ≡ before.responses ++ (r ∷ [])
Responses (blocked reply cost) before after = after.responses ≡ before.responses
Responses (failed message) before after = after.responses ≡ before.responses

-- At most one more request, which is permitted, and the response that it brought.
pub record Attempted (p : Prepared) (before : Traffic) (a : Attempt) : Type 0 where
  pub permits : All (IsPermitted p) before.requests → All (IsPermitted p) a.traffic.requests
  pub at_most : length a.traffic.requests ≤ length before.requests + 1
  pub responses : Responses a.outcome before a.traffic

with_answer-requests :
    (o : Outcome LlmResponse) (t : Traffic) → (with_answer o t).requests ≡ t.requests
with_answer-requests (returned r) t = refl
with_answer-requests (thrown m) t = refl

with_answer-Responses :
    (o : Outcome LlmResponse) (t : Traffic) → Responses (call_outcome o) t (with_answer o t)
with_answer-Responses (returned r) t = refl
with_answer-Responses (thrown m) t = refl

-- `Responses` reads only the responses before.
Responses-sent :
    (o : AttemptOutcome) (before after : Traffic) (request : LlmRequest)
    → Responses o (sent request before) after
    → Responses o before after
Responses-sent (responded r) before after request h = h
Responses-sent (blocked reply cost) before after request h = h
Responses-sent (failed message) before after request h = h

initial_params-IsFor :
    (p : Prepared) (routing : RoutingDecision) → IsFor p (initial_params p routing)
initial_params-IsFor p routing = record {
  settings = refl;
  month = monthly_cost_so_far p;
  counted = refl;
  enough = omega arith;
}

pub follow_up_params-IsFor :
    (p : Prepared) (routing : RoutingDecision) (response : LlmResponse) (results : List ToolResult)
    → IsFor p (follow_up_params p routing response results)
follow_up_params-IsFor p routing response results = record {
  settings = refl;
  month = monthly_cost_so_far p + cost_of response;
  counted = refl;
  enough = omega arith;
}

module _ (complete : List LlmRequest → LlmRequest → Outcome LlmResponse) (p : Prepared) where
  checked_attempt-Attempted :
      (params : SpendControlParams) (before : Traffic) (reply : Option String)
      → IsFor p params
      → (enforce_spend_controls params).blocked_reply ≡ reply
      → Attempted p before (checked_attempt complete params before reply)
  unfolding checked_attempt
  checked_attempt-Attempted params before (some reply) ok e = record {
    permits = λ h. h;
    at_most = omega arith;
    responses = refl;
  }
  checked_attempt-Attempted params before none ok e =
      let request = permitted_request params in
      let answer = complete before.requests request in
      let requests = with_answer-requests answer (sent request before) in
      record {
        permits = λ h. subst (All (IsPermitted p)) (sym requests) (
            All-append (IsPermitted p) before.requests (request ∷ []) h
              (record { params = params; for_event = ok; passed = e; permitted = refl }, tt));
        at_most = omega (arith, ap length requests, length-append before.requests (request ∷ []));
        responses =
            Responses-sent (call_outcome answer) before (with_answer answer (sent request before))
              request (with_answer-Responses answer (sent request before));
      }

  pub attempt-Attempted :
      (params : SpendControlParams) (before : Traffic)
      → IsFor p params
      → Attempted p before (attempt complete params before)
  unfolding attempt
  attempt-Attempted params before ok =
      checked_attempt-Attempted params before (enforce_spend_controls params).blocked_reply ok refl

  -- After the first call and its escalation: at most two requests, all permitted, and the response
  -- that ended them, if one did.
  pub record IsPrimary (a : Attempt) : Type 0 where
    pub permits : All (IsPermitted p) a.traffic.requests
    pub at_most : length a.traffic.requests ≤ 2
    pub responses : Responses a.outcome (record { requests = []; responses = [] }) a.traffic

  -- The response of the last call is the only one.
  Responses-after :
      (o : AttemptOutcome) (before after : Traffic)
      → before.responses ≡ []
      → Responses o before after
      → Responses o (record { requests = []; responses = [] }) after
  Responses-after (responded r) before after e h = h ∙ ap (λ rs. rs ++ (r ∷ [])) e
  Responses-after (blocked reply cost) before after e h = h ∙ e
  Responses-after (failed message) before after e h = h ∙ e

  escalate_to-IsPrimary :
      (first : Attempt) (escalated : Option RoutingDecision)
      → All (IsPermitted p) first.traffic.requests
      → length first.traffic.requests ≤ 1
      → first.traffic.responses ≡ []
      → Responses first.outcome (record { requests = []; responses = [] }) first.traffic
      → IsPrimary (escalate_to complete p first escalated)
  unfolding escalate_to
  escalate_to-IsPrimary first none h le empty r = record {
    permits = h;
    at_most = omega arith;
    responses = r;
  }
  escalate_to-IsPrimary first (some escalated) h le empty r =
      let a =
        attempt-Attempted (initial_params p escalated) first.traffic
          (initial_params-IsFor p escalated) in
      record {
        permits = a.permits h;
        at_most = omega (arith, a.at_most);
        responses = Responses-after _ first.traffic _ empty a.responses;
      }

  retry-IsPrimary :
      (first : Attempt) (o : AttemptOutcome)
      → first.outcome ≡ o
      → Attempted p (record { requests = []; responses = [] }) first
      → IsPrimary (retry complete p o first)
  unfolding escalate
  retry-IsPrimary first (responded r) e a = record {
    permits = a.permits tt;
    at_most = omega (arith, a.at_most);
    responses = a.responses;
  }
  retry-IsPrimary first (blocked reply cost) e a = record {
    permits = a.permits tt;
    at_most = omega (arith, a.at_most);
    responses = a.responses;
  }
  retry-IsPrimary first (failed message) e a =
      escalate_to-IsPrimary first _ (a.permits tt) (omega (arith, a.at_most))
        (subst (λ o. Responses o (record { requests = []; responses = [] }) first.traffic) e
          a.responses)
        a.responses

  pub primary-IsPrimary : IsPrimary (primary complete p)
  unfolding primary
  primary-IsPrimary =
      retry-IsPrimary _ _ refl
        (attempt-Attempted _ (record { requests = []; responses = [] }) (initial_params-IsFor p _))
