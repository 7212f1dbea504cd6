-- ===== src/Lint/Fixture.antt =====
-- scripts/manytool_fixture/: the tools that the mediation lint is tried on, as the trees that it visits.
-- Of each file, the definitions of functions and the calls stand in the order of the visit; the nodes
-- of other kinds, which the lint only passes through, are left out, with what is under them in their place.
use soundgate_paper.Prelude.{String, List, [], ◌∷◌}
use soundgate_paper.Lint.Visit.{
  name, attribute, other_callee, Node, function_def, call, other, Nodes, end, child,
}

abbrev pub nodes : List Node → Nodes
nodes [] = end
nodes (n ∷ ns) = child n (nodes ns)

-- `EFFECTS`
unfoldable pub effects : List String
effects =
    "send_mail" ∷ "capture_mail" ∷ "create_mail" ∷ "update_mail" ∷ "delete_mail" ∷ "publish_mail"
    ∷ "notify_mail" ∷ "archive_mail" ∷ "escalate_mail" ∷ "provision_mail" ∷ "send_billing"
    ∷ "capture_billing" ∷ "create_billing" ∷ "update_billing" ∷ "delete_billing" ∷ "publish_billing"
    ∷ "notify_billing" ∷ "archive_billing" ∷ "escalate_billing" ∷ "provision_billing"
    ∷ "send_tickets" ∷ "capture_tickets" ∷ "create_tickets" ∷ "update_tickets" ∷ "delete_tickets"
    ∷ "publish_tickets" ∷ "notify_tickets" ∷ "archive_tickets" ∷ "escalate_tickets"
    ∷ "provision_tickets" ∷ "send_deploy" ∷ "capture_deploy" ∷ "create_deploy" ∷ "update_deploy"
    ∷ "delete_deploy" ∷ "publish_deploy" ∷ "notify_deploy" ∷ "archive_deploy" ∷ "escalate_deploy"
    ∷ "provision_deploy" ∷ "send_storage" ∷ "capture_storage" ∷ "create_storage" ∷ "update_storage"
    ∷ "delete_storage" ∷ "publish_storage" ∷ "notify_storage" ∷ "archive_storage"
    ∷ "escalate_storage" ∷ "provision_storage" ∷ "send_chat" ∷ "capture_chat" ∷ "create_chat"
    ∷ "update_chat" ∷ "delete_chat" ∷ "publish_chat" ∷ "notify_chat" ∷ "archive_chat"
    ∷ "escalate_chat" ∷ "provision_chat" ∷ []

unfoldable pub tools_mail : Node
tools_mail = other (
    nodes (
      function_def "send_mail" end
      ∷ function_def "capture_mail" end
      ∷ function_def "create_mail" end
      ∷ function_def "update_mail" end
      ∷ function_def "delete_mail" end
      ∷ function_def "publish_mail" end
      ∷ function_def "notify_mail" end
      ∷ function_def "archive_mail" end
      ∷ function_def "escalate_mail" end
      ∷ function_def "provision_mail" end
      ∷ function_def "gate_effect"
          (nodes (call (name "globals") 36 end ∷ call (name "fn") 37 end ∷ []))
      ∷ function_def "run_mail_pipeline" (
          nodes (
            call (name "gate_effect") 40 end
            ∷ call (name "gate_effect") 41 end
            ∷ call (name "gate_effect") 42 end
            ∷ call (name "gate_effect") 43 end
            ∷ call (name "gate_effect") 44 end
            ∷ call (name "gate_effect") 45 end
            ∷ call (name "gate_effect") 46 end
            ∷ call (name "gate_effect") 47 end
            ∷ call (name "gate_effect") 48 end
            ∷ call (name "gate_effect") 49 end
            ∷ []))
      ∷ function_def "legacy_send_mail" (nodes (call (name "send_mail") 52 end ∷ []))
      ∷ call (name "staticmethod") 55 end
      ∷ function_def "shim_capture_mail" (
          nodes
            (call (attribute "capture_mail") 58 (nodes (call (name "_Client") 58 end ∷ [])) ∷ []))
      ∷ []))

unfoldable pub tools_billing : Node
tools_billing = other (
    nodes (
      function_def "send_billing" end
      ∷ function_def "capture_billing" end
      ∷ function_def "create_billing" end
      ∷ function_def "update_billing" end
      ∷ function_def "delete_billing" end
      ∷ function_def "publish_billing" end
      ∷ function_def "notify_billing" end
      ∷ function_def "archive_billing" end
      ∷ function_def "escalate_billing" end
      ∷ function_def "provision_billing" end
      ∷ function_def "gate_effect"
          (nodes (call (name "globals") 35 end ∷ call (name "fn") 36 end ∷ []))
      ∷ function_def "run_billing_pipeline" (
          nodes (
            call (name "gate_effect") 39 end
            ∷ call (name "gate_effect") 40 end
            ∷ call (name "gate_effect") 41 end
            ∷ call (name "gate_effect") 42 end
            ∷ call (name "gate_effect") 43 end
            ∷ call (name "gate_effect") 44 end
            ∷ call (name "gate_effect") 45 end
            ∷ call (name "gate_effect") 46 end
            ∷ call (name "gate_effect") 47 end
            ∷ call (name "gate_effect") 48 end
            ∷ []))
      ∷ function_def "legacy_create_billing" (nodes (call (name "create_billing") 51 end ∷ []))
      ∷ call (name "staticmethod") 54 end
      ∷ function_def "shim_delete_billing" (
          nodes
            (call (attribute "delete_billing") 57 (nodes (call (name "_Client") 57 end ∷ [])) ∷ []))
      ∷ []))

unfoldable pub tools_tickets : Node
tools_tickets = other (
    nodes (
      function_def "send_tickets" end
      ∷ function_def "capture_tickets" end
      ∷ function_def "create_tickets" end
      ∷ function_def "update_tickets" end
      ∷ function_def "delete_tickets" end
      ∷ function_def "publish_tickets" end
      ∷ function_def "notify_tickets" end
      ∷ function_def "archive_tickets" end
      ∷ function_def "escalate_tickets" end
      ∷ function_def "provision_tickets" end
      ∷ function_def "gate_effect"
          (nodes (call (name "globals") 36 end ∷ call (name "fn") 37 end ∷ []))
      ∷ function_def "run_tickets_pipeline" (
          nodes (
            call (name "gate_effect") 40 end
            ∷ call (name "gate_effect") 41 end
            ∷ call (name "gate_effect") 42 end
            ∷ call (name "gate_effect") 43 end
            ∷ call (name "gate_effect") 44 end
            ∷ call (name "gate_effect") 45 end
            ∷ call (name "gate_effect") 46 end
            ∷ call (name "gate_effect") 47 end
            ∷ call (name "gate_effect") 48 end
            ∷ call (name "gate_effect") 49 end
            ∷ []))
      ∷ function_def "legacy_publish_tickets" (nodes (call (name "publish_tickets") 52 end ∷ []))
      ∷ call (name "staticmethod") 55 end
      ∷ function_def "shim_notify_tickets" (
          nodes
            (call (attribute "notify_tickets") 58 (nodes (call (name "_Client") 58 end ∷ [])) ∷ []))
      ∷ []))

unfoldable pub tools_deploy : Node
tools_deploy = other (
    nodes (
      function_def "send_deploy" end
      ∷ function_def "capture_deploy" end
      ∷ function_def "create_deploy" end
      ∷ function_def "update_deploy" end
      ∷ function_def "delete_deploy" end
      ∷ function_def "publish_deploy" end
      ∷ function_def "notify_deploy" end
      ∷ function_def "archive_deploy" end
      ∷ function_def "escalate_deploy" end
      ∷ function_def "provision_deploy" end
      ∷ function_def "gate_effect"
          (nodes (call (name "globals") 36 end ∷ call (name "fn") 37 end ∷ []))
      ∷ function_def "run_deploy_pipeline" (
          nodes (
            call (name "gate_effect") 40 end
            ∷ call (name "gate_effect") 41 end
            ∷ call (name "gate_effect") 42 end
            ∷ call (name "gate_effect") 43 end
            ∷ call (name "gate_effect") 44 end
            ∷ call (name "gate_effect") 45 end
            ∷ call (name "gate_effect") 46 end
            ∷ call (name "gate_effect") 47 end
            ∷ call (name "gate_effect") 48 end
            ∷ call (name "gate_effect") 49 end
            ∷ []))
      ∷ function_def "legacy_update_deploy" (nodes (call (name "update_deploy") 52 end ∷ []))
      ∷ call (name "staticmethod") 55 end
      ∷ function_def "shim_provision_deploy" (
          nodes (
            call (attribute "provision_deploy") 58 (nodes (call (name "_Client") 58 end ∷ []))
            ∷ []))
      ∷ function_def "dyn_getattr_deploy"
          (nodes (call (name "getattr") 62 end ∷ call (name "fn") 63 end ∷ []))
      ∷ []))

unfoldable pub tools_storage : Node
tools_storage = other (
    nodes (
      function_def "send_storage" end
      ∷ function_def "capture_storage" end
      ∷ function_def "create_storage" end
      ∷ function_def "update_storage" end
      ∷ function_def "delete_storage" end
      ∷ function_def "publish_storage" end
      ∷ function_def "notify_storage" end
      ∷ function_def "archive_storage" end
      ∷ function_def "escalate_storage" end
      ∷ function_def "provision_storage" end
      ∷ function_def "gate_effect"
          (nodes (call (name "globals") 36 end ∷ call (name "fn") 37 end ∷ []))
      ∷ function_def "run_storage_pipeline" (
          nodes (
            call (name "gate_effect") 40 end
            ∷ call (name "gate_effect") 41 end
            ∷ call (name "gate_effect") 42 end
            ∷ call (name "gate_effect") 43 end
            ∷ call (name "gate_effect") 44 end
            ∷ call (name "gate_effect") 45 end
            ∷ call (name "gate_effect") 46 end
            ∷ call (name "gate_effect") 47 end
            ∷ call (name "gate_effect") 48 end
            ∷ call (name "gate_effect") 49 end
            ∷ []))
      ∷ function_def "dyn_dict_storage" (nodes (call other_callee 53 end ∷ []))
      ∷ function_def "dyn_alias_storage" (nodes (call (name "_f") 57 end ∷ []))
      ∷ []))

unfoldable pub tools_chat : Node
tools_chat = other (
    nodes (
      function_def "send_chat" end
      ∷ function_def "capture_chat" end
      ∷ function_def "create_chat" end
      ∷ function_def "update_chat" end
      ∷ function_def "delete_chat" end
      ∷ function_def "publish_chat" end
      ∷ function_def "notify_chat" end
      ∷ function_def "archive_chat" end
      ∷ function_def "escalate_chat" end
      ∷ function_def "provision_chat" end
      ∷ function_def "gate_effect"
          (nodes (call (name "globals") 36 end ∷ call (name "fn") 37 end ∷ []))
      ∷ function_def "run_chat_pipeline" (
          nodes (
            call (name "gate_effect") 40 end
            ∷ call (name "gate_effect") 41 end
            ∷ call (name "gate_effect") 42 end
            ∷ call (name "gate_effect") 43 end
            ∷ call (name "gate_effect") 44 end
            ∷ call (name "gate_effect") 45 end
            ∷ call (name "gate_effect") 46 end
            ∷ call (name "gate_effect") 47 end
            ∷ call (name "gate_effect") 48 end
            ∷ call (name "gate_effect") 49 end
            ∷ []))
      ∷ call other_callee 51 (nodes (call (name "f") 51 end ∷ []))
      ∷ function_def "dyn_lambda_chat" (nodes (call (name "_thunk") 53 end ∷ []))
      ∷ []))
