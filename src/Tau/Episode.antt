-- ===== src/Tau/Episode.antt =====
-- soundgate/e2e/taubench_exposure.py, `run_episode`: an agent model works on a task, and each of its
-- batches of tool calls is recorded; only the first call of a batch is carried out. The model, the
-- environment and the reading of arguments as JSON are parameters, and both of the first two may raise.
pub mod Turns
pub mod Budget
use soundgate_paper.Prelude.{
  ℕ, zero, suc, ◌+◌, String, ◌≡◌, Bool, true, false, ◌&&◌, Option, none, some, List, [], ◌∷◌, ◌++◌,
  map, contains, insert, keep, length, ltb, leb, ◌==◌, string_eq, pair_eq, if◌then◌else◌,
}
use soundgate_paper.Tau.Tools.{Domain, consequential, classify}
use soundgate_paper.Tau.Meter.{Usage, Meter, exceeded, charge}

pub record ToolCall : Type 0 where
  pub call_id : String
  pub name : String
  pub arguments : Option String

pub record Reply : Type 0 where
  pub content : Option String
  pub tool_calls : List ToolCall
  pub usage : Option Usage

-- A message: role and content of the system and the user, the model's reply with the calls that are
-- kept, and a tool's answer (call id, tool name, observation).
pub data Message : Type 0 where
  system user : String → Message
  assistant : Reply → Message
  tool : String → String → String → Message

pub record Turn (Args : Type 0) : Type 0 where
  pub n_tools : ℕ
  pub names : List String
  pub calls : List (String × Args)
  pub n_cons : ℕ
  pub n_benign : ℕ
  pub distinct_cons : ℕ
  pub is_cons_batch : Bool
  pub benign_sibling : Bool
  pub cons_sibling : Bool
  pub any_sibling : Bool

pub record Environment (Args : Type 0) : Type 1 where
  pub State : Type 0
  pub wiki : String
  -- The observation, and whether the episode is done.
  pub step : State → String → Args → Option (State × String × Bool)
  pub respond : State → String → Option (State × String × Bool)

-- What `json.loads` and `json.dumps(sort_keys=True)` do, with the two dictionaries that stand in for
-- arguments that are no JSON.
pub record Json : Type 1 where
  pub Args : Type 0
  pub loads : String → Option Args
  pub dumps : Args → String
  pub unparsed : Option String → Args
  pub no_args : Args

pub data Ended (Args : Type 0) : Type 0 where
  finished : List (Turn Args) → Ended Args
  budget_exceeded failed : Ended Args

-- `x or "{}"`
abbrev or_braces : Option String → String
or_braces none = "{}"
or_braces (some t) = if t == "" then "{}" else t

module _ (J : Json) where
  -- The arguments as they are recorded, and as they are passed to the environment.
  unfoldable pub recorded_args : ToolCall → J.Args
  recorded_args tc = parsed (J.loads (or_braces tc.arguments))
    where
      parsed : Option J.Args → J.Args
      parsed (some a) = a
      parsed none = J.unparsed tc.arguments

  unfoldable pub passed_args : ToolCall → J.Args
  passed_args tc = parsed (J.loads (or_braces tc.arguments))
    where
      parsed : Option J.Args → J.Args
      parsed (some a) = a
      parsed none = J.no_args

  -- The set of the consequential calls, by name and arguments.
  unfoldable pub distinct : Domain → List (String × J.Args) → List (String × String)
  distinct env [] = []
  distinct env ((n, a) ∷ calls) =
      let rest = distinct env calls in
      if contains (consequential env) n then insert (n, J.dumps a) rest else rest

  unfoldable pub record_turn : Domain → List ToolCall → Turn J.Args
  unfolding distinct
  record_turn env tcs =
      let names = map (λ (tc : ToolCall). tc.name) tcs in
      let calls = map (λ (tc : ToolCall). (tc.name, recorded_args tc)) tcs in
      let (cons, benign) = classify names env in
      let distinct_cons = length (distinct env calls) in
      record {
        n_tools = length tcs;
        names = names;
        calls = calls;
        n_cons = length cons;
        n_benign = length benign;
        distinct_cons = distinct_cons;
        is_cons_batch = ltb 0 (length cons);
        benign_sibling = ltb 0 (length cons) && ltb 0 (length benign);
        cons_sibling = leb 2 distinct_cons;
        any_sibling = ltb 0 (length cons) && ltb 1 (length tcs);
      }

  module _ (E : Environment J.Args) {M : Type 0} (complete : M → List Message → Option (M × Reply))
      (env : Domain) where
    -- What the loop carries from turn to turn.
    pub record Loop : Type 0 where
      pub model : M
      pub world : E.State
      pub messages : List Message
      pub turns : List (Turn J.Args)
      pub meter : Meter

    abbrev pub Outcome : Type 0
    Outcome = Meter × Ended J.Args

    unfoldable pub stepped :
        (Loop → Outcome)
        → Loop
        → (String → List Message)
        → Option (E.State × String × Bool)
        → Outcome
    stepped next l answer none = (l.meter, failed)
    stepped next l answer (some (world, observation, done)) =
        let l' = record l { world = world; messages = l.messages ++ answer observation } in
        if done then (l'.meter, finished l'.turns) else next l'

    abbrev content_or_empty : Option String → String
    content_or_empty none = ""
    content_or_empty (some t) = t

    -- The messages that a reply and its observation leave: of several calls the first is kept.
    unfoldable pub answers : Reply → List ToolCall → String → List Message
    answers reply [] o = assistant (record reply { usage = none }) ∷ user o ∷ []
    answers reply (first ∷ more) o =
        assistant (record reply { tool_calls = first ∷ []; usage = none })
        ∷ tool first.call_id first.name o
        ∷ []

    -- The first call is carried out, or the user is answered.
    unfoldable pub carry_out : E.State → Reply → List ToolCall → Option (E.State × String × Bool)
    carry_out world reply [] = E.respond world (content_or_empty reply.content)
    carry_out world reply (first ∷ more) = E.step world first.name (passed_args first)

    abbrev pub with_turn : Loop → List ToolCall → Loop
    with_turn l [] = l
    with_turn l (first ∷ more) = record l { turns = l.turns ++ record_turn env (first ∷ more) ∷ [] }

    unfoldable pub act : (Loop → Outcome) → Loop → Reply → Outcome
    unfolding stepped answers carry_out
    act next l reply =
        stepped next (with_turn l reply.tool_calls) (answers reply reply.tool_calls)
          (carry_out l.world reply reply.tool_calls)

    unfoldable pub ask : (Loop → Outcome) → Loop → Option (M × Reply) → Outcome
    unfolding act
    ask next l none = (l.meter, failed)
    ask next l (some (model, reply)) =
        act next (record l { model = model; meter = charge reply.usage l.meter }) reply

    unfoldable pub turns_of : ℕ → Loop → Outcome
    unfolding ask
    turns_of zero l = (l.meter, finished l.turns)
    turns_of (suc n) l =
        if exceeded l.meter
        then (l.meter, budget_exceeded)
        else ask (turns_of n) l (complete l.model l.messages)

    -- The episode of a task whose first observation is `obs`.
    unfoldable pub run_episode : ℕ → M → E.State → String → Meter → Outcome
    unfolding turns_of
    run_episode max_turns model world obs meter = turns_of max_turns (record {
      model = model;
      world = world;
      messages = system E.wiki ∷ user obs ∷ [];
      turns = [];
      meter = meter;
    })
