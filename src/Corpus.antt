-- ===== src/Corpus.antt =====
-- corpus/src/corpus: the corpus of incidents and the document that is rendered of it.
pub mod Incident
pub mod Early
pub mod Late
pub mod Seeds
pub mod Render
pub mod Sweep
pub mod Classify
pub mod Triage
pub mod Enrich
