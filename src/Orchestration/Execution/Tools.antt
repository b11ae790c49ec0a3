-- ===== src/Orchestration/Execution/Tools.antt =====
-- The orchestrator with the executor of external tools: what an event can make run.
use psychic_octo_invention.Prelude.{
  ℕ, ◌≡◌, refl, sym, ap, ◌∙◌, subst, inl, inr, String, Bool, true, false, not, Option, none, some,
  List, [], ◌∷◌, ◌++◌, filter, any, All, In, Text, Bool-cases,
}
use psychic_octo_invention.Json.{Json}
use psychic_octo_invention.Routing.Types.{InboundEvent, RoutingDecision, RoutingSettings, ToolCall}
use psychic_octo_invention.Skills.Types.{Store}
use psychic_octo_invention.Orchestration.Types.{LlmRequest, LlmResponse}
use psychic_octo_invention.Orchestration.PostProcessing.{
  ConversationView, PostServices, close_intent_patterns, wants_title, title_of, title_request,
  store_title, save_title, maybe_generate_title, close_found, maybe_close_conversation,
  post_process,
}
use psychic_octo_invention.Orchestration.Tools.Settings.{is_sub_agent_tool_call}
use psychic_octo_invention.Orchestration.Tools.Catalog.{ExternalSkillToolRuntime, get_runtime}
use psychic_octo_invention.Orchestration.Tools.Executor.{
  ExternalToolExecutionContext, Script, ToolValue, Outcome, returned, thrown,
  execute_external_tool_calls,
}
use psychic_octo_invention.Orchestration.Tools.Executor.Vetting.{IsVettedSource}
use psychic_octo_invention.Orchestration.Tools.Executor.Runs.{execute_external_tool_calls-runs}
use psychic_octo_invention.Orchestration.Attempts.{
  Prepared, AttemptOutcome, blocked, failed, responded, Attempt,
}
use psychic_octo_invention.Orchestration.Stages.{
  Lookups, Collaborators, ToolAnswers, ToolRound, run_calls, run_tools, external_tool_calls,
  sub_agent_tool_calls, plain_result, wrap_up,
}
use psychic_octo_invention.Orchestration.Execution.{
  Drafted, and_then, month_cost_of, prepare, draft_reply, deliver_stored, deliver, conclude,
  execute_prepared, start_prepared, execute_event,
}

-- The skill tables, and the runtimes whose source was run.
pub record Site : Type 0 where
  pub store : Store
  pub runs : List ExternalSkillToolRuntime

-- Collaborators of their own state beside the site.
abbrev pub beside : {T A : Type 0} → (T → A × T) → Site × T → A × (Site × T)
beside f (site, t) = let (a, after) = f t in (a, (site, after))

abbrev lookups_beside : {T : Type 0} → Lookups T → Lookups (Site × T)
lookups_beside l = record {
  resolve_conversation = λ event. beside (l.resolve_conversation event);
  persist_inbound = λ event id participant. beside (l.persist_inbound event id participant);
  retrieve_memories = λ event id. beside (l.retrieve_memories event id);
  resolve_tool_catalog = beside l.resolve_tool_catalog;
  get_routing_settings = beside l.get_routing_settings;
  load_recent_messages = λ id limit excluded. beside (l.load_recent_messages id limit excluded);
  sum_cost_current_month = beside l.sum_cost_current_month;
  falls_short = l.falls_short;
}

abbrev post_beside : {T : Type 0} → PostServices T → PostServices (Site × T)
post_beside services = record {
  find_conversation = λ id. beside (services.find_conversation id);
  set_title = λ id title. beside (services.set_title id title);
  set_closed = λ id. beside (services.set_closed id);
  test = services.test;
}

weaken-All :
    {A : Type 0} (P Q : A → Type 0) (xs : List A) → ((x : A) → P x → Q x) → All P xs → All Q xs
weaken-All P Q [] f h = tt
weaken-All P Q (x ∷ xs) f h = (f x h.0, weaken-All P Q xs f h.1)

In-filter : {A : Type 0} (p : A → Bool) (x : A) (xs : List A) → In x (filter p xs) → p x ≡ true
In-filter p x [] m = absurd m
In-filter p x (y ∷ ys) m = elim (Bool-cases (p y)) [
  | inl e ↦ elim (rw e at m) [ inl same ↦ ap p same ∙ e | inr later ↦ In-filter p x ys later ]
  | inr e ↦ In-filter p x ys (rw e at m)
]

not-false : (b : Bool) → not b ≡ true → b ≡ false
not-false true h = cc
not-false false h = refl

module _ {F T Fact : Type 0} (compute_code_hash : String → String) (parse : String → Option Json)
    (evaluate : ExternalSkillToolRuntime → Outcome (Script F))
    (call_function : F → Json → ExternalToolExecutionContext → Outcome ToolValue)
    (context : ExternalToolExecutionContext) (runtimes : List (String × ExternalSkillToolRuntime))
    (others : Collaborators T Fact) where
  abbrev pub execute_on_site : List ToolCall → Site × T → Option ToolAnswers × (Site × T)
  execute_on_site calls (site, t) =
      let after =
        execute_external_tool_calls compute_code_hash parse evaluate call_function context calls
          runtimes site.store in
      (
        some (record {
          tool_dispatches = after.tool_dispatches;
          sub_agent_dispatches = [];
          tool_results = after.tool_results;
        }),
        (record { store = after.store; runs = site.runs ++ after.runs }, t),
      )

  -- The executor as the collaborator for external tools; the others do not touch the skills.
  abbrev pub on_site : Collaborators (Site × T) Fact
  on_site = record {
    complete = others.complete;
    execute_external = execute_on_site;
    process_sub_agents = λ calls. beside (others.process_sub_agents calls);
    store_reply = λ reply. beside (others.store_reply reply);
    extract_facts = λ response. beside (others.extract_facts response);
    log_usage = λ row. beside (others.log_usage row);
    merge_metadata = λ id. beside (others.merge_metadata id);
    lookups = lookups_beside others.lookups;
    post = post_beside others.post;
  }

  module _ (p : Prepared) (Q : Site → Type 0) where
    run_calls-beside :
        (f : List ToolCall → T → Option ToolAnswers × T) (warning : String) (calls : List ToolCall)
        (round : ToolRound) (s : Site × T)
        → Q s.0
        → Q (run_calls on_site (λ cs. beside (f cs)) warning calls (round, s)).1.0
    unfolding run_calls
    run_calls-beside f warning [] round s h = h
    run_calls-beside f warning (call ∷ calls) round s h = h

    run_external-site :
        (calls : List ToolCall) (round : ToolRound) (s : Site × T)
        → Q s.0
        → Q (execute_on_site calls s).1.0
        → Q
            (run_calls on_site execute_on_site "External skill execution failed" calls
              (round, s)).1.0
    unfolding run_calls
    run_external-site [] round s h k = h
    run_external-site (call ∷ calls) round s h k = k

    run_tools-site :
        (response : LlmResponse) (warnings : List String) (s : Site × T)
        → Q s.0
        → Q (execute_on_site (external_tool_calls response) s).1.0
        → Q (run_tools on_site response warnings s).1.0
    unfolding run_tools
    run_tools-site response warnings s h k =
        run_calls-beside others.process_sub_agents "Sub-agent dispatch failed"
          (sub_agent_tool_calls response) _ _
          (run_external-site (external_tool_calls response) _ s h k)

    plain_result-site :
        (routing : RoutingDecision) (reply : Text) (warnings : List String) (cost : Option ℕ)
        (s : Site × T)
        → Q s.0
        → Q (plain_result on_site p routing reply warnings cost s).1.0
    unfolding plain_result
    plain_result-site routing reply warnings cost s h = h

    save_title-site :
        (id : ℕ) (answer : Outcome LlmResponse) (s : Site × T)
        → Q s.0
        → Q (save_title others.complete (post_beside others.post) id answer s).0
    save_title-site id (thrown message) s h = h
    save_title-site id (returned response) s h = store_title-site id (title_of response.content) s h
      where
        store_title-site :
            (id : ℕ) (title : Text) (s : Site × T)
            → Q s.0
            → Q (store_title others.complete (post_beside others.post) id title s).0
        store_title-site id [] s h = h
        store_title-site id (x ∷ xs) s h = h

    close_found-site :
        (id : ℕ) (found : Option (Option ConversationView)) (s : Site × T)
        → Q s.0
        → Q (close_found others.complete (post_beside others.post) id found s).1.0
    close_found-site id none s h = h
    close_found-site id (some none) s h = h
    close_found-site id (some (some v)) s h = elim (Bool-cases v.is_closed) [
      | inl e ↦ rw e h
      | inr e ↦ rw e h
    ]

    post_process-site :
        (earlier : List LlmRequest) (id : ℕ) (question reply : Text) (s : Site × T)
        → Q s.0
        → Q (post_process on_site.complete on_site.post earlier id question reply s).1.0
    unfolding post_process maybe_generate_title maybe_close_conversation
    post_process-site earlier id question reply s h =
        let services = post_beside others.post in
        let titled =
          (maybe_generate_title others.complete services earlier id question reply s).1 in
        let first : Q titled.0 =
          elim (Bool-cases (wants_title (services.find_conversation id s).0)) [
            | inl e ↦ rw e (
                save_title-site id (others.complete earlier (title_request question reply))
                  (services.find_conversation id s).1 h)
            | inr e ↦ rw e h
          ] in
        elim (Bool-cases (any (λ p. services.test p reply) close_intent_patterns)) [
          | inl e ↦ rw e (
              close_found-site id (services.find_conversation id titled).0
                (services.find_conversation id titled).1 first)
          | inr e ↦ rw e first
        ]

    deliver_stored-site :
        (routing : RoutingDecision) (draft : Drafted (Site × T)) (id : Option ℕ) (s : Site × T)
        → Q s.0
        → Q (deliver_stored on_site p routing draft id s).state.0
    unfolding deliver_stored wrap_up
    deliver_stored-site routing draft none s h = h
    deliver_stored-site routing draft (some id) s h = post_process-site _ _ _ _ _ h

    conclude-site :
        (a : Attempt) (o : AttemptOutcome) (s : Site × T)
        → Q s.0
        → ((response : LlmResponse) → Q (execute_on_site (external_tool_calls response) s).1.0)
        → Q (conclude on_site p a o s).state.0
    unfolding conclude deliver draft_reply
    conclude-site a (blocked reply cost) s h k = plain_result-site a.routing _ _ _ s h
    conclude-site a (failed message) s h k = plain_result-site a.routing _ _ _ s h
    conclude-site a (responded response) s h k =
        deliver_stored-site a.routing _ _ _ (run_tools-site response a.warnings s h (k response))

    execute_prepared-site :
        (s : Site × T)
        → Q s.0
        → ((response : LlmResponse) → Q (execute_on_site (external_tool_calls response) s).1.0)
        → Q (execute_prepared on_site p s).state.0
    unfolding execute_prepared
    execute_prepared-site s h k = conclude-site _ _ s h k

  -- The look-ups leave the site alone.
  module _ (site : Site) where
    abbrev IsAt : {A : Type 0} → Outcome A × (Site × T) → Type 0
    IsAt x = x.1.0 ≡ site

    and_then-IsAt :
        {A B : Type 0} (x : Outcome A × (Site × T)) (rest : A → Site × T → Outcome B × (Site × T))
        → IsAt x
        → ((a : A) (s : Site × T) → s.0 ≡ site → IsAt (rest a s))
        → IsAt (and_then x rest)
    unfolding and_then
    and_then-IsAt (thrown message, s) rest h k = h
    and_then-IsAt (returned a, s) rest h k = k a s h

    month_cost_of-IsAt :
        (budget : Option ℕ) (s : Site × T)
        → s.0 ≡ site
        → IsAt (month_cost_of (lookups_beside others.lookups) budget s)
    month_cost_of-IsAt none s h = h
    month_cost_of-IsAt (some n) s h = h

    prepare-IsAt :
        (event : InboundEvent) (s : Site × T) → s.0 ≡ site → IsAt (prepare on_site event s)
    unfolding prepare
    prepare-IsAt event s h = and_then-IsAt _ _ h (λ ids s1 h1. and_then-IsAt _ _ h1 (λ id s2 h2.
        and_then-IsAt _ _ h2 (λ memories s3 h3. and_then-IsAt _ _ h3 (λ tools s4 h4.
          and_then-IsAt _ _ h4 (λ (settings : RoutingSettings) s5 h5.
            and_then-IsAt _ _ h5 (λ recent s6 h6.
              and_then-IsAt _ _ (month_cost_of-IsAt settings.max_monthly_budget s6 h6)
                (λ cost s7 h7. h7)))))))

  -- A run that an event may cause.
  abbrev MayRun : Store → ExternalSkillToolRuntime → Type 0
  MayRun store r =
      ((name : String) × (is_sub_agent_tool_call name ≡ false)
        × (get_runtime name runtimes ≡ some r))
      × IsVettedSource compute_code_hash store r.skill_slug r.source

  event_runs :
      (response : LlmResponse) (s : Site × T)
      → s.0.runs ≡ []
      → All (MayRun s.0.store) (execute_on_site (external_tool_calls response) s).1.0.runs
  event_runs response (site, t) e =
      let new =
        (execute_external_tool_calls compute_code_hash parse evaluate call_function context
          (external_tool_calls response) runtimes site.store).runs in
      subst (λ rs. All (MayRun site.store) (rs ++ new)) (sym e)
        (weaken-All _ (MayRun site.store) _
          (λ r h.
            let ((call, m, found), vetted) = h in
            (
              (
                call.name,
                not-false _ (
                    In-filter (λ c. not (is_sub_agent_tool_call c.name)) call response.tool_calls
                      m),
                found,
              ),
              vetted,
            ))
          (execute_external_tool_calls-runs compute_code_hash parse evaluate call_function context
            runtimes (external_tool_calls response) site.store))

  start_prepared-runs :
      (prepared : Outcome Prepared) (s : Site × T) (store : Store)
      → s.0 ≡ record { store = store; runs = [] }
      → All (MayRun store) (start_prepared on_site (prepared, s)).state.0.runs
  unfolding start_prepared
  start_prepared-runs (thrown message) s store e = rw e tt
  start_prepared-runs (returned p) s store e =
      execute_prepared-site p (λ site. All (MayRun store) site.runs) s (rw e tt)
        (λ response.
          subst (λ st. All (MayRun st) (execute_on_site (external_tool_calls response) s).1.0.runs)
            (ap (λ site. site.store) e) (event_runs response s (ap (λ site. site.runs) e)))

  -- Whatever the model answers, executing an event runs no source but that of the current version of an
  -- enabled skill which passed its vetting, under a name that is not that of a first-party tool. This
  -- holds for any event, any catalog and any other collaborators.
  pub execute_event-runs_vetted :
      (event : InboundEvent) (store : Store) (t : T)
      → All
          (λ r.
            ((name : String) × (is_sub_agent_tool_call name ≡ false)
              × (get_runtime name runtimes ≡ some r))
            × IsVettedSource compute_code_hash store r.skill_slug r.source)
          (execute_event on_site event (record { store = store; runs = [] }, t)).state.0.runs
  unfolding execute_event
  execute_event-runs_vetted event store t =
      let start : Site × T = (record { store = store; runs = [] }, t) in
      start_prepared-runs (prepare on_site event start).0 (prepare on_site event start).1 store
        (prepare-IsAt (record { store = store; runs = [] }) event start refl)
