-- ===== src/MockCluster/Store.antt =====
-- soundgate/scripts/mock_cluster.py, the shared state and `apply_op`. The lists hold an identity as
-- the pair of its run and its key; a field `mac` of a decision is not read.
use soundgate_paper.Prelude.{
  ℕ, ◌+◌, String, Bool, false, ◌||◌, List, [], ◌∷◌, ◌++◌, contains, ◌==◌, string_eq, pair_eq,
  if◌then◌else◌,
}
use soundgate_paper.Wire.{Request, Reply, submit, decide, cancel, close, ping}

abbrev pub Identity : Type 0
Identity = String × String

pub record Store : Type 0 where
  pub initialized : Bool
  pub members : List ℕ
  pub log_index : ℕ
  pub held : List Identity
  pub released : List Identity
  pub rejected : List Identity
  pub cancelled : List String

-- The state where there is no file yet.
abbrev pub no_state : Store
no_state = record {
  initialized = false;
  members = [];
  log_index = 0;
  held = [];
  released = [];
  rejected = [];
  cancelled = [];
}

-- `xs.remove(x)`: the first occurrence goes.
unfoldable pub remove_first : Identity → List Identity → List Identity
remove_first i [] = []
remove_first i (j ∷ js) = if j == i then js else j ∷ remove_first i js

unfoldable pub apply_op : Store → Request → Store × Reply
unfolding remove_first
apply_op st (submit run key needs) =
    if contains st.released (run, key) || contains st.rejected (run, key)
    then (st, Reply.refused_duplicate)
    else if contains st.cancelled run
    then (st, Reply.refused_cancelled)
    else if needs
    then (if contains st.held (run, key) then (st, Reply.held_for_approval) else (
      record st { held = st.held ++ (run, key) ∷ []; log_index = st.log_index + 1 },
      Reply.held_for_approval,
    ))
    else (
      record st { released = st.released ++ (run, key) ∷ []; log_index = st.log_index + 1 },
      Reply.release,
    )
apply_op st (decide run key approved mac) =
    let taken = remove_first (run, key) st.held in
    if contains st.released (run, key) || contains st.rejected (run, key)
    then (st, Reply.refused_duplicate)
    else if contains st.held (run, key)
    then (if approved
        then (
          record st {
            held = taken;
            released = st.released ++ (run, key) ∷ [];
            log_index = st.log_index + 1;
          },
          Reply.release,
        )
        else (
          record st {
            held = taken;
            rejected = st.rejected ++ (run, key) ∷ [];
            log_index = st.log_index + 1;
          },
          Reply.refused_rejected,
        ))
    else (st, Reply.error "decide for unknown hold")
apply_op st (cancel run) =
    (record st { cancelled = st.cancelled ++ run ∷ []; log_index = st.log_index + 1 }, Reply.ack)
apply_op st (close run) = (st, Reply.error "bad op")
apply_op st ping = (st, Reply.error "bad op")
