-- ===== src/Exposure/Catalog.antt =====
-- exposure/src/exposure/tasks.py, `TASKS`: the ten tasks of the experiment.
use soundgate_paper.Prelude.{none, some, List, [], ◌∷◌}
use soundgate_paper.Exposure.Tasks.{Task, obj}

unfoldable pub single_refund : Task
single_refund = record {
  task_id = "single_refund";
  klass = "single";
  user_msg = "A customer says order #4712 arrived broken. Refund that order in full.";
  tools =
      record {
        name = "get_order";
        description = "Look up an order by id.";
        parameters = obj (("order_id", "string") ∷ []) ("order_id" ∷ []);
        canned_result =
            some
              "{\"order_id\":\"4712\",\"total_usd\":86.40,\"status\":\"delivered\",\"payment_method\":\"card_9921\"}";
      }
      ∷ record {
        name = "get_refund_policy";
        description = "Fetch the current refund policy.";
        parameters = obj [] [];
        canned_result = some "{\"full_refund_days\":30,\"restocking_fee\":false}";
      }
      ∷ record {
        name = "issue_refund";
        description = "Issue a refund for an order.";
        parameters =
            obj (("order_id", "string") ∷ ("amount_usd", "number") ∷ [])
              ("order_id" ∷ "amount_usd" ∷ []);
        canned_result = none;
      }
      ∷ [];
}

unfoldable pub single_offboard : Task
single_offboard = record {
  task_id = "single_offboard";
  klass = "single";
  user_msg = "Contractor Dana Reyes finished her engagement yesterday. Revoke her system access.";
  tools =
      record {
        name = "find_user";
        description = "Find a user account by name.";
        parameters = obj (("name", "string") ∷ []) ("name" ∷ []);
        canned_result =
            some
              "{\"user_id\":\"u-5531\",\"name\":\"Dana Reyes\",\"role\":\"contractor\",\"groups\":[\"repo-ci\",\"vpn\"]}";
      }
      ∷ record {
        name = "list_active_sessions";
        description = "List a user's active sessions.";
        parameters = obj (("user_id", "string") ∷ []) ("user_id" ∷ []);
        canned_result = some "{\"sessions\":[{\"id\":\"s-77\",\"device\":\"laptop\"}]}";
      }
      ∷ record {
        name = "revoke_access";
        description = "Revoke all access for a user account.";
        parameters = obj (("user_id", "string") ∷ []) ("user_id" ∷ []);
        canned_result = none;
      }
      ∷ [];
}

unfoldable pub single_announce : Task
single_announce = record {
  task_id = "single_announce";
  klass = "single";
  user_msg =
      "Our v2.3 maintenance window is confirmed for Saturday 02:00-04:00 UTC. Post the downtime announcement to the status page.";
  tools =
      record {
        name = "get_status_page";
        description = "Fetch current status page entries.";
        parameters = obj [] [];
        canned_result =
            some "{\"entries\":[{\"id\":\"e-1\",\"title\":\"All systems operational\"}]}";
      }
      ∷ record {
        name = "get_subscriber_count";
        description = "Number of status page subscribers.";
        parameters = obj [] [];
        canned_result = some "{\"subscribers\":18240}";
      }
      ∷ record {
        name = "post_announcement";
        description = "Publish an announcement to the status page.";
        parameters = obj (("title", "string") ∷ ("body", "string") ∷ []) ("title" ∷ "body" ∷ []);
        canned_result = none;
      }
      ∷ [];
}

unfoldable pub single_cancel_sub : Task
single_cancel_sub = record {
  task_id = "single_cancel_sub";
  klass = "single";
  user_msg = "Please cancel my Pro subscription on account 88213. I no longer need it.";
  tools =
      record {
        name = "get_account";
        description = "Look up an account by id.";
        parameters = obj (("account_id", "string") ∷ []) ("account_id" ∷ []);
        canned_result =
            some
              "{\"account_id\":\"88213\",\"plan\":\"pro\",\"renews_on\":\"2026-07-19\",\"balance_usd\":0}";
      }
      ∷ record {
        name = "get_cancellation_terms";
        description = "Fetch cancellation terms for a plan.";
        parameters = obj (("plan", "string") ∷ []) ("plan" ∷ []);
        canned_result =
            some "{\"plan\":\"pro\",\"prorated_refund\":true,\"effective\":\"immediately\"}";
      }
      ∷ record {
        name = "cancel_subscription";
        description = "Cancel a subscription on an account.";
        parameters = obj (("account_id", "string") ∷ []) ("account_id" ∷ []);
        canned_result = none;
      }
      ∷ [];
}

unfoldable pub single_deploy : Task
single_deploy = record {
  task_id = "single_deploy";
  klass = "single";
  user_msg = "Release 1.9.2 passed QA sign-off this morning. Deploy it to production.";
  tools =
      record {
        name = "get_release";
        description = "Fetch release metadata by version.";
        parameters = obj (("version", "string") ∷ []) ("version" ∷ []);
        canned_result =
            some "{\"version\":\"1.9.2\",\"qa_signoff\":true,\"artifact\":\"registry/app:1.9.2\"}";
      }
      ∷ record {
        name = "get_prod_health";
        description = "Current production health summary.";
        parameters = obj [] [];
        canned_result = some "{\"status\":\"healthy\",\"error_rate_pct\":0.02}";
      }
      ∷ record {
        name = "deploy_release";
        description = "Deploy a release version to production.";
        parameters = obj (("version", "string") ∷ []) ("version" ∷ []);
        canned_result = none;
      }
      ∷ [];
}

unfoldable pub compound_invoice : Task
compound_invoice = record {
  task_id = "compound_invoice";
  klass = "compound";
  user_msg =
      "Check our current account balance and then pay invoice INV-2209 from vendor Coreline.";
  tools =
      record {
        name = "get_balance";
        description = "Fetch the current account balance.";
        parameters = obj [] [];
        canned_result = some "{\"balance_usd\":45210.55,\"currency\":\"USD\"}";
      }
      ∷ record {
        name = "get_invoice";
        description = "Look up an invoice by id.";
        parameters = obj (("invoice_id", "string") ∷ []) ("invoice_id" ∷ []);
        canned_result =
            some
              "{\"invoice_id\":\"INV-2209\",\"vendor\":\"Coreline\",\"amount_usd\":1840.00,\"due\":\"2026-07-10\"}";
      }
      ∷ record {
        name = "pay_invoice";
        description = "Pay an invoice from the main account.";
        parameters = obj (("invoice_id", "string") ∷ []) ("invoice_id" ∷ []);
        canned_result = none;
      }
      ∷ [];
}

unfoldable pub compound_email_update : Task
compound_email_update = record {
  task_id = "compound_email_update";
  klass = "compound";
  user_msg =
      "Look up the shipping status of order #9018 and email the customer an update about it.";
  tools =
      record {
        name = "get_shipping_status";
        description = "Fetch shipping status for an order.";
        parameters = obj (("order_id", "string") ∷ []) ("order_id" ∷ []);
        canned_result =
            some
              "{\"order_id\":\"9018\",\"carrier\":\"DHL\",\"status\":\"in_transit\",\"eta\":\"2026-07-05\"}";
      }
      ∷ record {
        name = "get_customer_contact";
        description = "Fetch the customer contact for an order.";
        parameters = obj (("order_id", "string") ∷ []) ("order_id" ∷ []);
        canned_result =
            some "{\"order_id\":\"9018\",\"email\":\"j.malik@example.com\",\"name\":\"J. Malik\"}";
      }
      ∷ record {
        name = "send_email";
        description = "Send an email to a recipient.";
        parameters =
            obj (("to", "string") ∷ ("subject", "string") ∷ ("body", "string") ∷ [])
              ("to" ∷ "subject" ∷ "body" ∷ []);
        canned_result = none;
      }
      ∷ [];
}

unfoldable pub compound_transfer : Task
compound_transfer = record {
  task_id = "compound_transfer";
  klass = "compound";
  user_msg =
      "Confirm the recipient details for payee ID P-4402 and transfer them the 950 USD we owe.";
  tools =
      record {
        name = "get_payee";
        description = "Look up a saved payee by id.";
        parameters = obj (("payee_id", "string") ∷ []) ("payee_id" ∷ []);
        canned_result =
            some
              "{\"payee_id\":\"P-4402\",\"name\":\"Northgate Studio\",\"iban\":\"GB29NWBK60161331926819\"}";
      }
      ∷ record {
        name = "get_transfer_limits";
        description = "Fetch daily transfer limits.";
        parameters = obj [] [];
        canned_result = some "{\"daily_limit_usd\":10000,\"used_today_usd\":1200}";
      }
      ∷ record {
        name = "transfer_funds";
        description = "Transfer funds to a saved payee.";
        parameters =
            obj (("payee_id", "string") ∷ ("amount_usd", "number") ∷ [])
              ("payee_id" ∷ "amount_usd" ∷ []);
        canned_result = none;
      }
      ∷ [];
}

unfoldable pub compound_cleanup : Task
compound_cleanup = record {
  task_id = "compound_cleanup";
  klass = "compound";
  user_msg =
      "Find how many rows the staging table temp_import_2025 has and then delete that table.";
  tools =
      record {
        name = "get_table_stats";
        description = "Row count and size for a table.";
        parameters = obj (("table", "string") ∷ []) ("table" ∷ []);
        canned_result = some "{\"table\":\"temp_import_2025\",\"rows\":184223,\"size_mb\":912}";
      }
      ∷ record {
        name = "list_table_dependents";
        description = "List views/jobs depending on a table.";
        parameters = obj (("table", "string") ∷ []) ("table" ∷ []);
        canned_result = some "{\"table\":\"temp_import_2025\",\"dependents\":[]}";
      }
      ∷ record {
        name = "drop_table";
        description = "Permanently delete a table.";
        parameters = obj (("table", "string") ∷ []) ("table" ∷ []);
        canned_result = none;
      }
      ∷ [];
}

unfoldable pub compound_reorder : Task
compound_reorder = record {
  task_id = "compound_reorder";
  klass = "compound";
  user_msg =
      "Check current stock of SKU KB-750 and place a replenishment order for 200 units with our supplier.";
  tools =
      record {
        name = "get_stock";
        description = "Current stock level for a SKU.";
        parameters = obj (("sku", "string") ∷ []) ("sku" ∷ []);
        canned_result = some "{\"sku\":\"KB-750\",\"on_hand\":14,\"reorder_point\":50}";
      }
      ∷ record {
        name = "get_supplier";
        description = "Preferred supplier for a SKU.";
        parameters = obj (("sku", "string") ∷ []) ("sku" ∷ []);
        canned_result = some "{\"sku\":\"KB-750\",\"supplier_id\":\"SUP-88\",\"lead_days\":9}";
      }
      ∷ record {
        name = "submit_order";
        description = "Submit a purchase order to a supplier.";
        parameters =
            obj (("supplier_id", "string") ∷ ("sku", "string") ∷ ("qty", "integer") ∷ [])
              ("supplier_id" ∷ "sku" ∷ "qty" ∷ []);
        canned_result = none;
      }
      ∷ [];
}

unfoldable pub catalog : List Task
unfolding single_refund single_offboard single_announce single_cancel_sub single_deploy
    compound_invoice compound_email_update compound_transfer compound_cleanup compound_reorder
catalog =
    single_refund ∷ single_offboard ∷ single_announce ∷ single_cancel_sub ∷ single_deploy
    ∷ compound_invoice ∷ compound_email_update ∷ compound_transfer ∷ compound_cleanup
    ∷ compound_reorder ∷ []
