-- ===== src/Corpus/Incident.antt =====
-- corpus/src/corpus/seeds.py: an incident's record.
use soundgate_paper.Prelude.{ℕ, String, Option}

pub record Incident : Type 0 where
  pub id : Option ℕ
  pub repo : String
  pub kind : String
  pub url : String
  pub title : Option String
  pub created : Option String
  pub state : Option String
  pub author_type : Option String
  pub axis : String
  pub evidence_strength : String
  pub provenance : String
  pub symptom : String
  pub verified_via : String
