-- ===== src/Corpus/Late.antt =====
-- corpus/src/corpus/seeds.py: the recorded incidents, the second half.
use soundgate_paper.Prelude.{none, some}
use soundgate_paper.Corpus.Incident.{Incident}

unfoldable pub incident_11 : Incident
incident_11 = record {
  id = some 6533;
  repo = "langchain-ai/langgraph";
  kind = "issue";
  url = "https://github.com/langchain-ai/langgraph/issues/6533";
  title = some "Interrupt resume values misrouted between tools when using a ToolNode";
  created = some "2025-12-03";
  state = none;
  author_type = none;
  axis = "A1";
  evidence_strength = "direct";
  provenance = "search:Q1";
  symptom =
      "Parallel tools each expecting their own interrupt value receive each other's resume values (misrouting under parallel pending interrupts).";
  verified_via = "web_search:2026-07-02";
}

unfoldable pub incident_12 : Incident
incident_12 = record {
  id = some 6158;
  repo = "langchain-ai/langgraph";
  kind = "pr";
  url = "https://github.com/langchain-ai/langgraph/pull/6158";
  title = none;
  created = none;
  state = some "closed";
  author_type = some "maintainer";
  axis = "A2";
  evidence_strength = "adjacent";
  provenance = "seed";
  symptom =
      "The merged PARTIAL fix: stalls node re-execution until its (single) interrupt is resumed. The multi-interrupt case is explicitly left open by the maintainer-filed #6208 (still open, labeled enhancement).";
  verified_via =
      "corpus-enrich:2026-07-03 (is_pull_request=true, closed_at=2025-10-06, author_association=COLLABORATOR)";
}

unfoldable pub incident_13 : Incident
incident_13 = record {
  id = some 7686;
  repo = "langchain-ai/langgraph";
  kind = "issue";
  url = "https://github.com/langchain-ai/langgraph/issues/7686";
  title =
      some
        "docs(langgraph): broken docs URL in RuntimeError raised on resume with multiple pending interrupts";
  created = some "2026-05-02";
  state = none;
  author_type = none;
  axis = "A1";
  evidence_strength = "adjacent";
  provenance = "search:Q2";
  symptom =
      "Confirms the runtime raises 'must specify the interrupt id when resuming' for multiple pending interrupts (repro uses two parallel interrupting nodes); the report itself is about the broken docs link in that error.";
  verified_via = "web_search:2026-07-02";
}

unfoldable pub incident_14 : Incident
incident_14 = record {
  id = some 5672;
  repo = "langchain-ai/langgraph";
  kind = "issue";
  url = "https://github.com/langchain-ai/langgraph/issues/5672";
  title = some "Run Cancellation Causes Loss of Streamed State Not Yet Persisted as a Checkpoint";
  created = some "2025-07-25";
  state = none;
  author_type = none;
  axis = "A3";
  evidence_strength = "adjacent";
  provenance = "search:Q4";
  symptom =
      "On cancel/abort, in-progress streamed state since the last checkpoint is not persisted; durability-on-cancel gap (adjacent to zombie-effect: cancellation semantics are underspecified).";
  verified_via = "web_search:2026-07-02";
}

unfoldable pub incident_15 : Incident
incident_15 = record {
  id = some 1601;
  repo = "langchain-ai/langgraph";
  kind = "discussion";
  url = "https://github.com/langchain-ai/langgraph/discussions/1601";
  title = some "Cancelled error with langgraph runs";
  created = none;
  state = none;
  author_type = none;
  axis = "A3";
  evidence_strength = "context";
  provenance = "search:Q4";
  symptom =
      "Multiple users hit CancelledError on background/long runs; cancellation propagation to in-flight async work is fragile. Discussion, not a bug report.";
  verified_via = "web_search:2026-07-02";
}

unfoldable pub incident_16 : Incident
incident_16 = record {
  id = some 590;
  repo = "forum.langchain.com";
  kind = "forum";
  url =
      "https://forum.langchain.com/t/how-to-cleanly-stop-the-workflow-of-the-react-agent-from-the-tool/590";
  title = some "How to cleanly stop the workflow of the react agent from the tool?";
  created = some "2025-07-22";
  state = none;
  author_type = some "user";
  axis = "A3";
  evidence_strength = "context";
  provenance = "search:Q4";
  symptom =
      "User returning 'cancel' from a tool to stop the flow found it sometimes stops, other times restarts the agent unexpectedly (cancellation is not a reliable stop).";
  verified_via = "web_search:2026-07-02";
}

unfoldable pub incident_17 : Incident
incident_17 = record {
  id = some 3265;
  repo = "forum.langchain.com";
  kind = "forum";
  url =
      "https://forum.langchain.com/t/how-to-propagate-cancellation-across-multi-level-langgraph-agents/3265";
  title = some "How to propagate cancellation across multi-level LangGraph agents";
  created = some "2026-03-28";
  state = none;
  author_type = some "user";
  axis = "A3";
  evidence_strength = "context";
  provenance = "search:Q4";
  symptom =
      "In a supervisor -> sub-agent -> sub-sub-agent setup over HTTP, a user cancel does not propagate down to stop execution at the deepest active agent.";
  verified_via = "web_search:2026-07-02";
}

unfoldable pub incident_18 : Incident
incident_18 = record {
  id = some 2538;
  repo = "forum.langchain.com";
  kind = "forum";
  url = "https://forum.langchain.com/t/stopping-endpoint-for-deep-agents/2538";
  title = some "Stopping endpoint for deep agents";
  created = some "2025-12-17";
  state = none;
  author_type = some "user";
  axis = "A3";
  evidence_strength = "context";
  provenance = "search:Q4";
  symptom =
      "User needs a stop button for a running deep-agent and finds no obvious mechanism to stop execution.";
  verified_via = "web_search:2026-07-02";
}

unfoldable pub incident_19 : Incident
incident_19 = record {
  id = none;
  repo = "abstractalgorithms.dev";
  kind = "article";
  url = "https://www.abstractalgorithms.dev/langgraph-human-in-the-loop";
  title =
      some "Human-in-the-Loop Workflows with LangGraph: Interrupts, Approvals, and Async Execution";
  created = some "2026-04-23";
  state = none;
  author_type = some "practitioner";
  axis = "A1";
  evidence_strength = "context";
  provenance = "search:Q4";
  symptom =
      "Independently states the paper's thesis: agents with real tools (billing, email, DB writes) take irreversible actions; advises interrupt-on-irreversible-only and TTL expiry for abandoned interrupted threads (unbounded latency / no barrier).";
  verified_via = "web_search:2026-07-02";
}

unfoldable pub incident_20 : Incident
incident_20 = record {
  id = some 1657;
  repo = "forum.langchain.com";
  kind = "forum";
  url = "https://forum.langchain.com/t/auto-resuming-challenges-in-langgraph/1657";
  title = some "Auto resuming challenges in langgraph";
  created = some "2025-09-26";
  state = none;
  author_type = some "user";
  axis = "A2";
  evidence_strength = "context";
  provenance = "search:Q1";
  symptom =
      "User struggles to auto-resume when multiple distinct interrupts exist in one graph (the multi-interrupt resume-routing problem, from the user side). This is the real thread; supersedes the unverified 'thread 2964' note.";
  verified_via = "web_search:2026-07-02";
}
