-- ===== src/Corpus/Seeds.antt =====
-- corpus/src/corpus/seeds.py: the list of the incidents, the queries and the leads left out.
use soundgate_paper.Prelude.{String, List, [], ◌∷◌}
use soundgate_paper.Corpus.Incident.{Incident}
use soundgate_paper.Corpus.Early.{
  incident_1, incident_2, incident_3, incident_4, incident_5, incident_6, incident_7, incident_8,
  incident_9, incident_10,
}
use soundgate_paper.Corpus.Late.{
  incident_11, incident_12, incident_13, incident_14, incident_15, incident_16, incident_17,
  incident_18, incident_19, incident_20,
}

unfoldable pub incidents : List Incident
unfolding incident_1 incident_2 incident_3 incident_4 incident_5 incident_6 incident_7 incident_8
    incident_9 incident_10 incident_11 incident_12 incident_13 incident_14 incident_15 incident_16
    incident_17 incident_18 incident_19 incident_20
incidents =
    incident_1 ∷ incident_2 ∷ incident_3 ∷ incident_4 ∷ incident_5 ∷ incident_6 ∷ incident_7
    ∷ incident_8 ∷ incident_9 ∷ incident_10 ∷ incident_11 ∷ incident_12 ∷ incident_13 ∷ incident_14
    ∷ incident_15 ∷ incident_16 ∷ incident_17 ∷ incident_18 ∷ incident_19 ∷ incident_20 ∷ []

-- Tag and query.
unfoldable pub queries : List (String × String)
queries =
    ("Q1-seed-6208", "langchain-ai/langgraph issues 6208 interrupt")
    ∷ (
      "Q2-seed-6158", "langchain-ai/langgraph issue 6158 stall node re-execution interrupt resumed",
    )
    ∷ ("Q3-seed-3875", "langchain-ai/langgraph issue 3875 interrupt human in the loop")
    ∷ (
      "Q4-cancel",
      "langgraph OR crewai agent cancellation abort tool still executes background task not stopped",
    )
    ∷ []

-- Reference and note.
unfoldable pub unverified_leads : List (String × String)
unverified_leads =
    (
      "forum thread 2964",
      "not located on 2026-07-02; the located multi-interrupt thread is 1657 (see INCIDENTS).",
    )
    ∷ (
      "blog.raed.dev/posts/langgraph-hitl/",
      "a Mar-2026 practitioner analysis of double-execution; not re-fetched, so unverified.",
    )
    ∷ []
