-- ===== src/Orchestration/Execution/Laws.antt =====
-- What holds of the execution of any event, whatever the provider, the tools and the writes do.
use psychic_octo_invention.Prelude.{
  ℕ, ◌+◌, ◌≤◌, ◌≡◌, refl, sym, ap, ◌∙◌, subst, ◌⊎◌, inl, inr, String, Option, none, some, List, [],
  ◌∷◌, ◌++◌, All, Text, codes, length, arith, Bool-cases,
}
use psychic_octo_invention.Routing.Types.{InboundEvent, RoutingDecision}
use psychic_octo_invention.Orchestration.Types.{
  ExecutionResult, LlmRequest, LlmResponse, ToolResult,
}
use psychic_octo_invention.Orchestration.PostProcessing.{
  title_request, wants_title, maybe_generate_title, post_process,
}
use psychic_octo_invention.Orchestration.Tools.Executor.{Outcome, returned, thrown}
use psychic_octo_invention.Orchestration.Attempts.{
  Prepared, AttemptOutcome, blocked, failed, responded, Traffic, Attempt, attempt, primary,
  follow_up_params,
}
use psychic_octo_invention.Orchestration.Attempts.Laws.{
  IsPermitted, Responses, Attempted, attempt-Attempted, follow_up_params-IsFor, IsPrimary,
  primary-IsPrimary,
}
use psychic_octo_invention.Orchestration.Stages.{
  Collaborators, Synthesis, plain_result, run_tools, conclude_follow_up, synthesize, wrap_up,
}
use psychic_octo_invention.Orchestration.Execution.{
  Execution, no_traffic, draft_reply, deliver_stored, deliver, conclude, execute_prepared,
  start_prepared, prepare, execute_event,
}

-- The tokens of all responses together.
pub total_tokens : List LlmResponse → ℕ
total_tokens [] = 0
total_tokens (r ∷ rs) = r.usage.total_tokens + total_tokens rs

total_tokens-append :
    (rs : List LlmResponse) (r : LlmResponse)
    → total_tokens (rs ++ (r ∷ [])) ≡ total_tokens rs + r.usage.total_tokens
unfolding total_tokens
total_tokens-append [] r = omega arith
total_tokens-append (x ∷ xs) r = omega (arith, total_tokens-append xs r)

total_tokens-one : (r : LlmResponse) → total_tokens (r ∷ []) ≡ r.usage.total_tokens
unfolding total_tokens
total_tokens-one r = omega arith

-- One more request at most, and the tokens of the response that is accounted for are those of all.
record IsSynthesized (p : Prepared) (response : LlmResponse) (before : Traffic) (s : Synthesis)
    : Type 0 where
  permits : All (IsPermitted p) before.requests → All (IsPermitted p) s.traffic.requests
  at_most : length s.traffic.requests ≤ length before.requests + 1
  tokens :
      total_tokens before.responses ≡ response.usage.total_tokens
      → total_tokens s.traffic.responses ≡ s.response.usage.total_tokens

module _ {S Fact : Type 0} (c : Collaborators S Fact) (p : Prepared) where
  conclude_follow_up-IsSynthesized :
      (response : LlmResponse) (before : Traffic) (a : Attempt) (o : AttemptOutcome)
      (results : List ToolResult) (warnings : List String)
      → a.outcome ≡ o
      → Attempted p before a
      → IsSynthesized p response before (conclude_follow_up c o results response warnings a.traffic)
  unfolding conclude_follow_up
  conclude_follow_up-IsSynthesized response before a (responded next) results warnings e h =
      let rs = subst (λ o. Responses o before a.traffic) e h.responses in
      record {
        permits = h.permits;
        at_most = h.at_most;
        tokens = λ t.
            ap total_tokens rs
            ∙ total_tokens-append before.responses next
            ∙ ap (λ n. n + next.usage.total_tokens) t;
      }
  conclude_follow_up-IsSynthesized response before a (blocked reply cost) results warnings e h =
      let rs = subst (λ o. Responses o before a.traffic) e h.responses in
      record { permits = h.permits; at_most = h.at_most; tokens = λ t. ap total_tokens rs ∙ t }
  conclude_follow_up-IsSynthesized response before a (failed message) results warnings e h =
      let rs = subst (λ o. Responses o before a.traffic) e h.responses in
      record { permits = h.permits; at_most = h.at_most; tokens = λ t. ap total_tokens rs ∙ t }

  synthesize-IsSynthesized :
      (routing : RoutingDecision) (response : LlmResponse) (results : List ToolResult)
      (warnings : List String) (before : Traffic)
      → IsSynthesized p response before (synthesize c p routing response results warnings before)
  unfolding synthesize
  synthesize-IsSynthesized routing response [] warnings before = record {
    permits = λ h. h;
    at_most = omega arith;
    tokens = λ t. t;
  }
  synthesize-IsSynthesized routing response (r ∷ rs) warnings before =
      let params = follow_up_params p routing response (r ∷ rs) in
      let follow = attempt c.complete params before in
      conclude_follow_up-IsSynthesized response before follow follow.outcome (r ∷ rs)
        (warnings ++ follow.warnings) refl
        (attempt-Attempted c.complete p params before
          (follow_up_params-IsFor p routing response (r ∷ rs)))

  draft_reply-IsSynthesized :
      (a : Attempt) (response : LlmResponse) (state : S)
      → a.outcome ≡ responded response
      → IsPrimary c.complete p a
      → IsSynthesized p response a.traffic (draft_reply c p a response state).synthesis
        × (total_tokens a.traffic.responses ≡ response.usage.total_tokens)
  unfolding draft_reply
  draft_reply-IsSynthesized a response state e h =
      let round = (run_tools c response a.warnings state).0 in
      let rs = subst (λ o. Responses o no_traffic a.traffic) e h.responses in
      (
        synthesize-IsSynthesized a.routing response round.answers.tool_results round.warnings
            a.traffic,
        ap total_tokens rs ∙ total_tokens-one response,
      )

  -- The reply that the run drafts of an answer of the provider cannot be stored.
  abbrev pub IsUnstored : Attempt → S → Type 0
  IsUnstored a state =
      (response : LlmResponse) × (a.outcome ≡ responded response)
      × ((c.store_reply (draft_reply c p a response state).synthesis.reply
            (draft_reply c p a response state).state).0
          ≡ none)

  -- The requests for a title: none, or the one for the message of the user and the reply.
  abbrev pub AreTitles : Execution S Fact → Type 0
  AreTitles e =
      (e.title_requests ≡ [])
      ⊎ ((r : ExecutionResult Fact) × (e.result ≡ returned r)
          × (e.title_requests ≡ title_request (codes p.event.text) r.reply ∷ []))

  -- The end of an execution, whose first calls are given.
  record IsExecuted (a : Attempt) (state : S) (e : Execution S Fact) : Type 0 where
    permits : All (IsPermitted p) e.traffic.requests
    at_most : length e.traffic.requests ≤ 3
    titles : AreTitles e
    tokens :
        (r : ExecutionResult Fact)
        → e.result ≡ returned r
        → r.usage.total_tokens ≡ total_tokens e.traffic.responses
    ends : ((r : ExecutionResult Fact) × (e.result ≡ returned r)) ⊎ IsUnstored a state

  returned_inj : (a b : ExecutionResult Fact) → returned a ≡ returned b → a ≡ b
  returned_inj a b e = cc

  titles-one :
      (earlier : List LlmRequest) (reply : Text) (at : S)
      → let sent =
          (post_process c.complete c.post earlier p.conversation_id
            (codes p.event.text)
            reply
            at).0 in
        (sent ≡ []) ⊎ (sent ≡ title_request (codes p.event.text) reply ∷ [])
  unfolding post_process maybe_generate_title
  titles-one earlier reply at =
      elim (Bool-cases (wants_title (c.post.find_conversation p.conversation_id at).0)) [
        | inl e ↦ rw e (inr refl)
        | inr e ↦ rw e (inl refl)
      ]

  deliver_stored-IsExecuted :
      (a : Attempt) (response : LlmResponse) (id : Option ℕ) (state state0 : S)
      → let d = draft_reply c p a response state0 in
        a.outcome ≡ responded response
        → All (IsPermitted p) d.synthesis.traffic.requests
        → length d.synthesis.traffic.requests ≤ 3
        → total_tokens d.synthesis.traffic.responses ≡ d.synthesis.response.usage.total_tokens
        → (c.store_reply d.synthesis.reply d.state).0 ≡ id
        → IsExecuted a state0 (deliver_stored c p a.routing d id state)
  unfolding deliver_stored wrap_up
  deliver_stored-IsExecuted a response none state state0 o h le t e = record {
    permits = h;
    at_most = le;
    titles = inl refl;
    tokens = λ r q. cc;
    ends = inr (response, o, e);
  }
  deliver_stored-IsExecuted a response (some id) state state0 o h le t e = record {
    permits = h;
    at_most = le;
    titles = elim (titles-one _ (draft_reply c p a response state0).synthesis.reply _) [
      | inl q ↦ inl q
      | inr q ↦ inr (_, refl, q)
    ];
    tokens = λ r q. ap (λ x. x.usage.total_tokens) (sym (returned_inj _ r q)) ∙ sym t;
    ends = inl (_, refl);
  }

  deliver-IsExecuted :
      (a : Attempt) (response : LlmResponse) (state : S)
      → a.outcome ≡ responded response
      → IsPrimary c.complete p a
      → IsExecuted a state (deliver c p a response state)
  unfolding deliver
  deliver-IsExecuted a response state e h =
      let (made, t) = draft_reply-IsSynthesized a response state e h in
      deliver_stored-IsExecuted a response _ _ state e (made.permits h.permits)
        (omega (arith, made.at_most, h.at_most)) (made.tokens t) refl

  conclude-IsExecuted :
      (a : Attempt) (o : AttemptOutcome) (state : S)
      → a.outcome ≡ o
      → IsPrimary c.complete p a
      → IsExecuted a state (conclude c p a o state)
  unfolding conclude plain_result total_tokens
  conclude-IsExecuted a (responded response) state e h = deliver-IsExecuted a response state e h
  conclude-IsExecuted a (blocked reply cost) state e h =
      let rs = subst (λ o. Responses o no_traffic a.traffic) e h.responses in
      record {
        permits = h.permits;
        at_most = omega (arith, h.at_most);
        titles = inl refl;
        tokens = λ r q.
            ap (λ x. x.usage.total_tokens) (sym (returned_inj _ r q)) ∙ sym (ap total_tokens rs);
        ends = inl (_, refl);
      }
  conclude-IsExecuted a (failed message) state e h =
      let rs = subst (λ o. Responses o no_traffic a.traffic) e h.responses in
      record {
        permits = h.permits;
        at_most = omega (arith, h.at_most);
        titles = inl refl;
        tokens = λ r q.
            ap (λ x. x.usage.total_tokens) (sym (returned_inj _ r q)) ∙ sym (ap total_tokens rs);
        ends = inl (_, refl);
      }

  execute_prepared-IsExecuted :
      (state : S) → IsExecuted (primary c.complete p) state (execute_prepared c p state)
  unfolding execute_prepared
  execute_prepared-IsExecuted state =
      conclude-IsExecuted (primary c.complete p) (primary c.complete p).outcome state refl
        (primary-IsPrimary c.complete p)

module _ {S Fact : Type 0} (c : Collaborators S Fact) where
  -- The requests of an execution whose look-ups are given.
  abbrev pub ArePermitted : Outcome Prepared → Execution S Fact → Type 0
  ArePermitted (thrown message) e = (e.traffic.requests ≡ []) × (e.title_requests ≡ [])
  ArePermitted (returned p) e =
      All (IsPermitted p) e.traffic.requests × (length e.traffic.requests ≤ 3) × AreTitles c p e

  start_prepared-ArePermitted :
      (prepared : Outcome Prepared) (state : S)
      → ArePermitted prepared (start_prepared c (prepared, state))
  unfolding start_prepared
  start_prepared-ArePermitted (thrown message) state = (refl, refl)
  start_prepared-ArePermitted (returned p) state =
      let e = execute_prepared-IsExecuted c p state in (e.permits, e.at_most, e.titles)

  -- If a look-up throws, an event sends no request to the provider. Else the orchestrator sends at most
  -- three for the reply; each of them was let through by the spend controls, under the settings and at
  -- least the cost of the month so far, and was sent with the model and the token limit that they
  -- returned. At most one more follows them: the request for a title, which the spend controls are not
  -- asked about. It is of the message of the user and the reply that is returned. What the services of
  -- the sub-agents ask a provider for is not counted.
  pub execute_event-permits :
      (event : InboundEvent) (state : S)
      → ArePermitted (prepare c event state).0 (execute_event c event state)
  unfolding execute_event
  execute_event-permits event state =
      start_prepared-ArePermitted (prepare c event state).0 (prepare c event state).1

  -- How an event ends.
  abbrev pub IsEnded : Outcome Prepared × S → Execution S Fact → Type 0
  IsEnded (thrown message, state) e = e.result ≡ thrown message
  IsEnded (returned p, state) e =
      ((r : ExecutionResult Fact) × (e.result ≡ returned r)
        × (r.usage.total_tokens ≡ total_tokens e.traffic.responses))
      ⊎ IsUnstored c p (primary c.complete p) state

  start_prepared-IsEnded :
      (prepared : Outcome Prepared × S) → IsEnded prepared (start_prepared c prepared)
  unfolding start_prepared
  start_prepared-IsEnded (thrown message, state) = refl
  start_prepared-IsEnded (returned p, state) =
      let e = execute_prepared-IsExecuted c p state in
      elim e.ends [ inl (r, q) ↦ inl (r, q, e.tokens r q) | inr failure ↦ inr failure ]

  -- If a look-up throws, which storing the message of the user is one of, its exception is how an event
  -- ends. Else the event ends with a result, whatever the provider, the tools, the extraction of
  -- memories and the other writes do, unless the provider answered and the reply that this run drafts of
  -- the answer cannot be stored. The tokens that the result reports are those of the responses to the
  -- requests for the reply, each counted once; the response to the request for a title, which is
  -- sent later, and those that the services of sub-agents get are not among them.
  pub execute_event-returns :
      (event : InboundEvent) (state : S)
      → IsEnded (prepare c event state) (execute_event c event state)
  unfolding execute_event
  execute_event-returns event state = start_prepared-IsEnded (prepare c event state)
