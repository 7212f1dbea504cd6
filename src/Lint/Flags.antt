-- ===== src/Lint/Flags.antt =====
-- What the lint makes of the many-tool fixture, whatever the list of effects.
use soundgate_paper.Prelude.{
  map, ap, ◌∙◌, ℕ, String, ◌≡◌, false, List, [], ◌∷◌, ◌++◌, contains, All, arith, string_eq,
  if◌then◌else◌,
}
use soundgate_paper.Lint.Visit.{Node, call_name, finding, parsed, lint_file}
use soundgate_paper.Lint.Sound.{sites, expected, lint_file-expected}
use soundgate_paper.Lint.Fixture.{
  tools_mail, tools_billing, tools_tickets, tools_deploy, tools_storage, tools_chat,
}

-- The names that the fixture calls and that are no tools.
abbrev pub helpers : List String
helpers = "gate_effect" ∷ "staticmethod" ∷ "_Client" ∷ "getattr" ∷ "fn" ∷ "f" ∷ "_thunk" ∷ "_f" ∷ []

unfoldable pub only : List String → List (ℕ × String) → List (ℕ × String)
only effects [] = []
only effects (c ∷ calls) = (if contains effects c.1 then c ∷ [] else []) ++ only effects calls

module _ (effects : List String) (path : String) where
  abbrev pub lint : Node → List String
  lint tree = lint_file effects "gate_effect" path (parsed tree)

  -- The findings on these calls, as far as their names are listed.
  abbrev pub lines : List (ℕ × String) → List String
  lines calls = map (λ c. finding path effects "gate_effect" c.0 c.1) (only effects calls)

  reported :
      (tree : Node) (calls : List (ℕ × String))
      → sites effects "gate_effect" false tree ≡ only effects calls
      → lint tree ≡ lines calls
  unfolding expected
  reported tree calls same =
      lint_file-expected effects "gate_effect" path (parsed tree)
      ∙ ap (map (λ c. finding path effects "gate_effect" c.0 c.1)) same

  -- With any list of effects that holds none of the helpers' names, the lint reports exactly the direct
  -- calls of listed effects, by a name or through a client's attribute: up to two in each of four
  -- files; it reports nothing in the two files that reach their tools through a dictionary, an alias or
  -- a closure, nor the access by `getattr` in the deployment tools.
  pub lint_fixture :
      All (λ n. contains effects n ≡ false) helpers
      → (lint tools_mail ≡ lines ((52, "send_mail") ∷ (58, "capture_mail") ∷ []))
        × (lint tools_billing ≡ lines ((51, "create_billing") ∷ (57, "delete_billing") ∷ []))
        × (lint tools_tickets ≡ lines ((52, "publish_tickets") ∷ (58, "notify_tickets") ∷ []))
        × (lint tools_deploy ≡ lines ((52, "update_deploy") ∷ (58, "provision_deploy") ∷ []))
        × (lint tools_storage ≡ [])
        × (lint tools_chat ≡ [])
  unfolding sites call_name only tools_mail tools_billing tools_tickets tools_deploy tools_storage
      tools_chat
  lint_fixture (gate, (static, (client, (get, (fn, (f, (thunk, (alias, _)))))))) = (
    reported tools_mail ((52, "send_mail") ∷ (58, "capture_mail") ∷ [])
        (rw (gate, static, client) (ground arith)),
    reported tools_billing ((51, "create_billing") ∷ (57, "delete_billing") ∷ [])
        (rw (gate, static, client) (ground arith)),
    reported tools_tickets ((52, "publish_tickets") ∷ (58, "notify_tickets") ∷ [])
        (rw (gate, static, client) (ground arith)),
    reported tools_deploy ((52, "update_deploy") ∷ (58, "provision_deploy") ∷ [])
        (rw (gate, static, client, get, fn) (ground arith)),
    reported tools_storage [] (rw (gate, alias) (ground arith)),
    reported tools_chat [] (rw (gate, thunk, f) (ground arith)),
  )
