-- ===== src/Corpus/Early.antt =====
-- corpus/src/corpus/seeds.py: the recorded incidents, the first half.
use soundgate_paper.Prelude.{none, some}
use soundgate_paper.Corpus.Incident.{Incident}

unfoldable pub incident_1 : Incident
incident_1 = record {
  id = some 6208;
  repo = "langchain-ai/langgraph";
  kind = "issue";
  url = "https://github.com/langchain-ai/langgraph/issues/6208";
  title =
      some
        "Do not re-execute a node that interrupted unless all of its interrupts have been resumed";
  created = some "2025-09-26";
  state = none;
  author_type = some "maintainer";
  axis = "A2";
  evidence_strength = "direct";
  provenance = "seed";
  symptom =
      "A node with two interrupts re-runs after only one resume; fixing it needs per-interrupt id tracking not in stored metadata.";
  verified_via = "web_search:2026-07-02";
}

unfoldable pub incident_2 : Incident
incident_2 = record {
  id = some 6792;
  repo = "langchain-ai/langgraph";
  kind = "issue";
  url = "https://github.com/langchain-ai/langgraph/issues/6792";
  title =
      some
        "Resuming after interrupt doesn't reuse prior task outputs when interrupt is in subgraph";
  created = some "2026-02-12";
  state = none;
  author_type = none;
  axis = "A2";
  evidence_strength = "direct";
  provenance = "seed";
  symptom =
      "Resuming a subgraph interrupt re-runs an already-completed step and duplicates the returned interrupts.";
  verified_via = "web_search:2026-07-02";
}

unfoldable pub incident_3 : Incident
incident_3 = record {
  id = some 4796;
  repo = "langchain-ai/langgraph";
  kind = "issue";
  url = "https://github.com/langchain-ai/langgraph/issues/4796";
  title = some "Subgraph (using interrupt) restarts instead of resuming from internal breakpoint";
  created = some "2025-05-22";
  state = none;
  author_type = none;
  axis = "A2";
  evidence_strength = "direct";
  provenance = "seed";
  symptom =
      "On resume, the subgraph restarts from its entry node (re-executing the parent's calling node) despite a checkpoint pointing at the human node.";
  verified_via = "web_search:2026-07-02";
}

unfoldable pub incident_4 : Incident
incident_4 = record {
  id = some 7780;
  repo = "langchain-ai/langgraph";
  kind = "issue";
  url = "https://github.com/langchain-ai/langgraph/issues/7780";
  title = some "[BUG] Interrupt() in a loop will cause extra resumes";
  created = some "2026-05-13";
  state = none;
  author_type = none;
  axis = "A2";
  evidence_strength = "direct";
  provenance = "search:Q1";
  symptom =
      "An interrupt() inside a loop consumes extra resume values, re-running loop body iterations.";
  verified_via = "web_search:2026-07-02";
}

unfoldable pub incident_5 : Incident
incident_5 = record {
  id = some 6444;
  repo = "langchain-ai/langgraph";
  kind = "issue";
  url = "https://github.com/langchain-ai/langgraph/issues/6444";
  title = some "Resume to a specific subgraph node after interrupt";
  created = some "2025-03-27";
  state = none;
  author_type = none;
  axis = "A2";
  evidence_strength = "direct";
  provenance = "search:Q2";
  symptom =
      "On the 2nd interrupt, re-invoke resumes before the interrupt node rather than progressing, causing an infinite loop.";
  verified_via = "web_search:2026-07-02";
}

unfoldable pub incident_6 : Incident
incident_6 = record {
  id = some 1308;
  repo = "langchain-ai/langgraphjs";
  kind = "issue";
  url = "https://github.com/langchain-ai/langgraphjs/issues/1308";
  title = some "Human-in-the-loop Resume Not Working in LangGraph JS with Checkpoint";
  created = some "2025-04-30";
  state = none;
  author_type = none;
  axis = "A2";
  evidence_strength = "direct";
  provenance = "search:Q3";
  symptom =
      "In the JS runtime, resuming after an interrupt restarts the graph from the beginning instead of the interrupt point (cross-runtime replication of the replay failure).";
  verified_via = "web_search:2026-07-02";
}

unfoldable pub incident_7 : Incident
incident_7 = record {
  id = some 3875;
  repo = "langchain-ai/langgraph";
  kind = "issue";
  url = "https://github.com/langchain-ai/langgraph/issues/3875";
  title = some "Bug: Error when having multiple nodes, each with a single `interrupt`";
  created = some "2025-03-17";
  state = none;
  author_type = none;
  axis = "A1";
  evidence_strength = "direct";
  provenance = "seed";
  symptom =
      "Two parallel branches from START, each a node that interrupts then performs an effect (add_one); the multi-pending-interrupt case errors/misbehaves.";
  verified_via = "web_search:2026-07-02";
}

unfoldable pub incident_8 : Incident
incident_8 = record {
  id = some 5952;
  repo = "langchain-ai/langgraph";
  kind = "issue";
  url = "https://github.com/langchain-ai/langgraph/issues/5952";
  title = some "Resolved interrupts from nodes executed in parallel keep firing unnecessarily";
  created = some "2025-08-19";
  state = none;
  author_type = none;
  axis = "A1";
  evidence_strength = "direct";
  provenance = "seed";
  symptom =
      "With parallel nodes where one interrupts, already-resolved interrupts keep re-firing on subsequent steps.";
  verified_via = "web_search:2026-07-02";
}

unfoldable pub incident_9 : Incident
incident_9 = record {
  id = some 6626;
  repo = "langchain-ai/langgraph";
  kind = "issue";
  url = "https://github.com/langchain-ai/langgraph/issues/6626";
  title =
      some
        "`interrupt()` calls in parallel tools generate identical IDs, making multi-interrupt resume impossible";
  created = some "2025-12-25";
  state = none;
  author_type = none;
  axis = "A1";
  evidence_strength = "direct";
  provenance = "seed";
  symptom =
      "Parallel tool calls that each interrupt() are assigned identical interrupt ids, so resumes cannot be routed to the right pending call.";
  verified_via = "web_search:2026-07-02";
}

unfoldable pub incident_10 : Incident
incident_10 = record {
  id = some 6624;
  repo = "langchain-ai/langgraph";
  kind = "issue";
  url = "https://github.com/langchain-ai/langgraph/issues/6624";
  title = some "ToolNode doesn't collect all interrupts from parallel tool execution";
  created = some "2025-12-24";
  state = none;
  author_type = none;
  axis = "A1";
  evidence_strength = "direct";
  provenance = "search:Q1";
  symptom =
      "When multiple tools run in parallel under a ToolNode and each interrupts, not all interrupts are collected/surfaced.";
  verified_via = "web_search:2026-07-02";
}
