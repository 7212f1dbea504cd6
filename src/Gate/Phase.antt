-- ===== src/Gate/Phase.antt =====
-- What the gate promises of one effect identity: a machine of five phases.
use soundgate_paper.Prelude.{
  ◌≡◌, Bool, true, false, some, ◌==◌, contains, lookup, is_some, if◌then◌else◌, string_eq, pair_eq,
  ◌&&◌,
}
use soundgate_paper.Gate.Defs.{
  EffectId, Effect, id, Gate, is_fenced, Admission, release, held_for_approval, refused_cancelled,
  refused_duplicate, refused_rejected, Event,
}

pub data Phase : Type 0 where
  fresh held done denied fenced : Phase

abbrev pub phase_of : Bool → Bool → Bool → Bool → Phase
phase_of fence rel rej pend =
    if fence
    then fenced
    else if rel
    then done
    else if rej
    then denied
    else if pend
    then held
    else fresh

unfoldable pub phase : Gate → EffectId → Phase
phase g i =
    phase_of (is_fenced g i.0) (contains g.released i) (contains g.rejected i)
      (is_some (lookup g.pending i))

abbrev pub submit_verdict : Phase → Bool → Admission
submit_verdict fresh true = held_for_approval
submit_verdict fresh false = release
submit_verdict held _ = held_for_approval
submit_verdict done _ = refused_duplicate
submit_verdict denied _ = refused_rejected
submit_verdict fenced _ = refused_cancelled

abbrev pub submit_next : Phase → Bool → Phase
submit_next fresh true = held
submit_next fresh false = done
submit_next held _ = held
submit_next done _ = done
submit_next denied _ = denied
submit_next fenced _ = fenced

abbrev pub decide_verdict : Phase → Bool → Admission
decide_verdict fresh true = refused_duplicate
decide_verdict fresh false = refused_rejected
decide_verdict held true = release
decide_verdict held false = refused_rejected
decide_verdict done _ = refused_duplicate
decide_verdict denied true = refused_duplicate
decide_verdict denied false = refused_rejected
decide_verdict fenced _ = refused_cancelled

abbrev pub decide_next : Phase → Bool → Phase
decide_next fresh true = fresh
decide_next fresh false = denied
decide_next held true = done
decide_next held false = denied
decide_next done _ = done
decide_next denied _ = denied
decide_next fenced _ = fenced

-- The phase after replay of a record about this identity or its run.
abbrev pub replay_next : Phase → Event → EffectId → Phase
replay_next fenced ev j = fenced
replay_next p (Event.released i) j = if i == j then done else p
replay_next done (Event.rejected i) j = done
replay_next p (Event.rejected i) j = if i == j then denied else p
replay_next p (Event.cancelled run_id) j = if run_id == j.0 then fenced else p
replay_next p (Event.closed run_id) j = if run_id == j.0 then fenced else p

-- What survives a restart: a hold is not written to the log.
abbrev pub durable : Phase → Phase
durable held = fresh
durable fresh = fresh
durable done = done
durable denied = denied
durable fenced = fenced

-- Between two calls: what is held is neither released nor rejected nor of a fenced run, each hold
-- stands under its own identity, and nothing is both released and rejected.
pub record IsValid (g : Gate) : Type 0 where
  pub held_open :
      (i : EffectId) (e : Effect)
      → lookup g.pending i ≡ some e
      → (id e ≡ i)
        × (contains g.released i ≡ false)
        × (contains g.rejected i ≡ false)
        × (is_fenced g i.0 ≡ false)
  pub one_outcome : (i : EffectId) → (contains g.released i && contains g.rejected i) ≡ false
