-- ===== src/Tau/Episode/Budget.antt =====
-- The cap on tokens: what an episode can spend over it.
use soundgate_paper.Prelude.{
  ℕ, zero, suc, ◌+◌, ◌≤◌, ◌<◌, String, ◌≡◌, refl, ◌∙◌, inl, inr, Bool, true, false, Option, none,
  some, List, [], ◌∷◌, arith, leb, Bool-cases,
}
use soundgate_paper.Tau.Tools.{Domain}
use soundgate_paper.Tau.Meter.{Meter, exceeded, charge, total, cost, total-charge, cap-charge}
use soundgate_paper.Tau.Episode.{
  ToolCall, Reply, Message, Environment, Json, Ended, budget_exceeded, stepped, answers, carry_out,
  with_turn, act, ask, turns_of, run_episode, Loop,
}

exceeded-total : (m : Meter) (c : ℕ) → m.cap ≡ some c → exceeded m ≡ leb c (total m)
unfolding exceeded
exceeded-total m c h = rw h

module _ (J : Json) (E : Environment J.Args) {M : Type 0}
    (complete : M → List Message → Option (M × Reply)) (env : Domain) (c u : ℕ) where
  -- No reply of the model costs more than `u` tokens.
  abbrev pub Costs : Type 0
  Costs =
      (m m' : M) (ms : List Message) (r : Reply) → complete m ms ≡ some (m', r) → cost r.usage ≤ u

  -- The meter has this cap and is at most one reply over it; an episode that ends over budget has
  -- reached the cap.
  abbrev Kept : Meter → Type 0
  Kept m = (m.cap ≡ some c) × (total m < c + u)

  abbrev Ends : Meter × Ended J.Args → Type 0
  Ends (m, e) = Kept m × (e ≡ budget_exceeded → c ≤ total m)

  abbrev Next : Type 0
  Next = Loop J E complete env → Meter × Ended J.Args

  abbrev Steady : Next → Type 0
  Steady next = (l : Loop J E complete env) → Kept l.meter → Ends (next l)

  stepped-Ends :
      (next : Next) (l : Loop J E complete env) (answer : String → List Message)
      (o : Option (E.State × String × Bool))
      → Steady next
      → Kept l.meter
      → Ends (stepped J E complete env next l answer o)
  unfolding stepped
  stepped-Ends next l answer none steady k = (k, λ e. cc)
  stepped-Ends next l answer (some (world, observation, true)) steady k = (k, λ e. cc)
  stepped-Ends next l answer (some (world, observation, false)) steady k = steady _ k

  with_turn-meter :
      (l : Loop J E complete env) (tcs : List ToolCall)
      → (with_turn J E complete env l tcs).meter ≡ l.meter
  with_turn-meter l [] = refl
  with_turn-meter l (first ∷ more) = refl

  act-Ends :
      (next : Next) (l : Loop J E complete env) (reply : Reply)
      → Steady next
      → Kept l.meter
      → Ends (act J E complete env next l reply)
  unfolding act
  act-Ends next l reply steady k =
      let tcs = reply.tool_calls in
      stepped-Ends next (with_turn J E complete env l tcs) (answers J E complete env reply tcs)
        (carry_out J E complete env l.world reply tcs) steady (rw (with_turn-meter l tcs) k)

  ask-Ends :
      (next : Next) (l : Loop J E complete env) (o : Option (M × Reply))
      → ((m : M) (r : Reply) → o ≡ some (m, r) → cost r.usage ≤ u)
      → Steady next
      → Kept l.meter
      → total l.meter < c
      → Ends (ask J E complete env next l o)
  unfolding ask
  ask-Ends next l none costs steady k under = (k, λ e. cc)
  ask-Ends next l (some (model, reply)) costs steady k under =
      act-Ends next (record l { model = model; meter = charge reply.usage l.meter }) reply steady
        (
          cap-charge reply.usage l.meter ∙ k.0,
          omega (arith, total-charge reply.usage l.meter, costs model reply refl, under),
        )

  turns_of-Steady : (n : ℕ) → Costs → Steady (turns_of J E complete env n)
  unfolding turns_of
  turns_of-Steady zero costs l k = (k, λ e. cc)
  turns_of-Steady (suc n) costs l k = elim (Bool-cases (exceeded l.meter)) [
    | inl over ↦ rw over (k, λ e. ground (arith, over, exceeded-total l.meter c k.0))
    | inr under ↦ rw under (
        ask-Ends (turns_of J E complete env n) l (complete l.model l.messages)
          (λ m r h. costs l.model m l.messages r h) (turns_of-Steady n costs) k
          (ground (arith, under, exceeded-total l.meter c k.0)))
  ]

  -- With a cap of `c` tokens, and a model no reply of which costs more than `u`, an episode that
  -- starts below `c + u` ends below `c + u`, with the same cap; and if it ends over budget, the cap
  -- has been reached.
  pub run_episode-total :
      (max_turns : ℕ) (model : M) (world : E.State) (obs : String) (meter : Meter)
      → Costs
      → meter.cap ≡ some c
      → total meter < c + u
      → let (m, e) = run_episode J E complete env max_turns model world obs meter in
        (m.cap ≡ some c) × (total m < c + u) × (e ≡ budget_exceeded → c ≤ total m)
  unfolding run_episode
  run_episode-total max_turns model world obs meter costs cap small =
      let ((cap', small'), over) =
        turns_of-Steady max_turns costs
          (record {
            model = model;
            world = world;
            messages = Message.system E.wiki ∷ Message.user obs ∷ [];
            turns = [];
            meter = meter;
          })
          (cap, small) in
      (cap', small', over)
