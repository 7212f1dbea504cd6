-- ===== src/Exposure/Runner/Stops.antt =====
-- Why a run stopped, and what its record says of the turn in which the consequential tool is called.
use soundgate_paper.Prelude.{
  ℕ, zero, suc, ◌+◌, ◌≤◌, String, ◌≡◌, refl, inl, inr, ◌⊎◌, Bool, true, false, not, none, some,
  List, [], ◌∷◌, ◌++◌, length, length-append, contains, count_if, ◌==◌, ltb, arith, All, All-append,
  Bool-cases, string_eq,
}
use soundgate_paper.Exposure.Tasks.{Tool, Task, consequential_tool}
use soundgate_paper.Exposure.Runner.{
  Turned, raised, answered, Provider, TurnRecord, Stopped, max_turns, final_answer, consequential,
  error, RunRecord, names_of, results, ended, called, go_on, after_turn, turns_from, run_one,
}

-- A turn without the consequential call.
abbrev pub IsQuiet : String → TurnRecord → Type 0
IsQuiet cons t = contains t.calls cons ≡ false

-- The last turn of a run, when it calls the consequential tool, and what is recorded of it.
pub record CalledLast (cons : String) (r : RunRecord) : Type 0 where
  pub earlier : List TurnRecord
  pub last : TurnRecord
  pub split : r.turns ≡ earlier ++ last ∷ []
  pub quiet : All (IsQuiet cons) earlier
  pub calls_it : contains last.calls cons ≡ true
  pub at : r.consequential_turn_idx ≡ some (length earlier)
  pub beside : r.siblings ≡ some (count_if (λ n. not (n == cons)) last.calls)
  pub exposed : r.parallel_exposure ≡ ltb 0 (count_if (λ n. not (n == cons)) last.calls)

-- A run that never called the consequential tool.
pub record NeverCalled (cons : String) (r : RunRecord) : Type 0 where
  pub quiet : All (IsQuiet cons) r.turns
  pub nowhere : r.consequential_turn_idx ≡ none
  pub none_beside : r.siblings ≡ none
  pub unexposed : r.parallel_exposure ≡ false

abbrev ByReason : String → RunRecord → Stopped → Type 0
ByReason cons r consequential = CalledLast cons r
ByReason cons r max_turns = NeverCalled cons r
ByReason cons r final_answer = NeverCalled cons r
ByReason cons r (error e) = NeverCalled cons r

abbrev pub Explained : String → RunRecord → Type 0
Explained cons r = ByReason cons r r.stopped_reason

module _ (cons : String) where
  never :
      (turns : List TurnRecord) (why : Stopped)
      → All (IsQuiet cons) turns
      → NeverCalled cons (ended turns why)
  never turns why q = record { quiet = q; nowhere = refl; none_beside = refl; unexposed = refl }

  called_last :
      (turns : List TurnRecord) (names : List String) (had_text : Bool)
      → All (IsQuiet cons) turns
      → contains names cons ≡ true
      → CalledLast cons
          (called cons (turns ++ record { calls = names; had_text = had_text } ∷ []) names)
  called_last turns names had_text q h = record {
    earlier = turns;
    last = record { calls = names; had_text = had_text };
    split = refl;
    quiet = q;
    calls_it = h;
    at = ground (arith, length-append turns (record { calls = names; had_text = had_text } ∷ []));
    beside = refl;
    exposed = refl;
  }

  module _ (P : Provider) (tools : List Tool) (run_idx : ℕ) where
    abbrev Good : ℕ → RunRecord → Type 0
    Good bound r = Explained cons r × (length r.turns ≤ bound)

    abbrev Next : Type 0
    Next = P.Session → List TurnRecord → RunRecord

    -- What the turns after this one keep to.
    abbrev Steady : ℕ → Next → Type 0
    Steady n next =
        (s : P.Session) (turns : List TurnRecord)
        → All (IsQuiet cons) turns
        → Good (n + length turns) (next s turns)

    go_on-Good :
        (n : ℕ) (next : Next) (s : P.Session) (turns : List TurnRecord)
        (found : String ⊎ List (String × String × String))
        → Steady n next
        → All (IsQuiet cons) turns
        → Good (n + length turns) (go_on P tools cons run_idx next s turns found)
    unfolding go_on
    go_on-Good n next s turns (inl missing) steady q = (never turns _ q, omega arith)
    go_on-Good n next s turns (inr rs) steady q = steady (P.add_tool_results s rs) turns q

    after_turn-Good :
        (n : ℕ) (next : Next) (turns : List TurnRecord) (t : Turned P.Session)
        → Steady n next
        → All (IsQuiet cons) turns
        → Good (suc n + length turns) (after_turn P tools cons run_idx next turns t)
    unfolding after_turn contains
    after_turn-Good n next turns (raised e) steady q = (never turns (error e) q, omega arith)
    after_turn-Good n next turns (answered [] had_text s) steady q = (
      never _ final_answer (All-append (IsQuiet cons) turns _ q (refl, tt)),
      omega (arith, length-append turns (record { calls = []; had_text = had_text } ∷ [])),
    )
    after_turn-Good n next turns (answered (c ∷ cs) had_text s) steady q =
        let names = names_of (c ∷ cs) in
        let turn : TurnRecord = record { calls = names; had_text = had_text } in
        let longer = length-append turns (turn ∷ []) in
        elim (Bool-cases (contains names cons)) [
          | inl hit ↦ rw hit (called_last turns names had_text q hit, omega (arith, longer))
          | inr missed ↦
              let (why, short) =
                go_on-Good n next s (turns ++ turn ∷ []) (results tools (c ∷ cs)) steady
                  (All-append (IsQuiet cons) turns (turn ∷ []) q (missed, tt)) in
              rw missed (why, omega (arith, longer, short))
        ]

    turns_from-Steady : (n : ℕ) → Steady n (turns_from P tools cons run_idx n)
    unfolding turns_from
    turns_from-Steady zero s turns q = (never turns max_turns q, omega arith)
    turns_from-Steady (suc n) s turns q =
        after_turn-Good n (turns_from P tools cons run_idx n) turns (P.turn s run_idx)
          (turns_from-Steady n) q

-- A task with a consequential tool gets a record, of at most the turns allowed. If the run stopped at
-- that tool, its last turn calls it and no earlier one does, and the index, the count of the other
-- calls and the exposure flag are those of that turn; if it stopped for another reason, no turn calls
-- the tool, index and count are absent, and the flag is off.
pub run_one-Explained :
    (P : Provider) (init : Task → P.Session) (task : Task) (run_idx limit : ℕ) (cons : String)
    → consequential_tool task ≡ some cons
    → (r : RunRecord) × (run_one P init task run_idx limit ≡ some (cons, r))
      × Explained cons r
      × (length r.turns ≤ limit)
unfolding run_one
run_one-Explained P init task run_idx limit cons h =
    let (why, short) = turns_from-Steady cons P task.tools run_idx limit (init task) [] tt in
    (
      turns_from P task.tools cons run_idx limit (init task) [],
      rw h refl,
      why,
      omega (arith, short),
    )
