-- ===== src/ControlStore/Tests/Enrollment.antt =====
-- A node that joins with a token and is issued its certificate.
use jolt.Prelude.{String, ◌≡◌, refl, true, false, none, List, [], ◌∷◌, ok, is_ok, ℕ}
use jolt.ControlStore.Entities.{JoinToken, Enrollment, ManagedNode, Db}
use jolt.ControlStore.Enrollment.Nodes.{save_managed_node, list_managed_nodes}
use jolt.ControlStore.Sql.{Faults}
use jolt.ControlStore.Enrollment.{
  create_join_token, start_enrollment, decide_enrollment, get_enrollment,
}
use jolt.ControlStore.Enrollment.History.{
  EnrollmentCall, create, revoke, decide, expire, run_enrollment, start_enrollment-once,
}
use jolt.ControlStore.Enrollment.Decided.{run_enrollment-decided}
use jolt.ControlStore.Tests.{no_faults, now, no_rows}

abbrev token : JoinToken
token = record {
  id = "jt_1";
  secret_hash = "h1";
  node_name = "nas";
  approval = "manual";
  created_by = "ana";
  created_at = now;
  expires_at = 1767225900000000000;
  used_at = none;
  enrollment_id = "";
}

abbrev enrollment : Enrollment
enrollment = record {
  id = "en_1";
  token_id = "";
  state = "pending";
  node_name = "nas";
  node_id = "n1";
  node_fingerprint = "f1";
  api_endpoint = "https://nas";
  remote_addr = "10.0.0.1";
  csr_pem = "csr";
  csr_hash = "c1";
  operational_encrypted = "";
  poll_hash = "p1";
  decided_by = "";
  note = "";
  response = "";
  created_at = now;
  expires_at = 1767225900000000000;
  decided_at = none;
}

abbrev offered : Db
offered = record no_rows { join_tokens = token ∷ [] }

abbrev issued : Enrollment
issued = record enrollment { state = "issued" }

abbrev calls : List EnrollmentCall
calls =
    create (record token { id = "jt_2" }) no_faults
    ∷ revoke "jt_1" false
    ∷ decide "en_1" "rejected" "ana" "" "" now false
    ∷ expire 1767225900000000000 false
    ∷ []

start_enrollment-once_example :
    is_ok
      (start_enrollment "h1" enrollment now no_faults
        (run_enrollment calls (start_enrollment "h1" enrollment now no_faults offered).1)).0
    ≡ false
unfolding start_enrollment jolt.ControlStore.Sql.transaction jolt.ControlStore.Sql.statement
    jolt.ControlStore.Sql.select_where jolt.ControlStore.Enrollment.has_secret
    jolt.ControlStore.Enrollment.start_with jolt.ControlStore.Enrollment.check_pending
    jolt.ControlStore.Sql.count_where jolt.ControlStore.Enrollment.store_start
    jolt.ControlStore.Enrollment.raise_enrollment_version jolt.ControlStore.Sql.checked_statement
    jolt.ControlStore.Enrollment.insert_enrollment jolt.ControlStore.Sql.commit
start_enrollment-once_example =
    start_enrollment-once "h1" enrollment now no_faults offered calls enrollment now no_faults refl

run_enrollment-decided_example :
    (o : Enrollment) × (get_enrollment "en_1" now false
        (run_enrollment calls (record no_rows { enrollments = issued ∷ [] }))
      ≡ ok o)
    × (o.state ≡ "issued")
unfolding jolt.ControlStore.Sql.select_where jolt.ControlStore.Enrollment.enrollment_id_is
run_enrollment-decided_example =
    run_enrollment-decided "en_1" issued calls now (record no_rows { enrollments = issued ∷ [] })
      refl refl

-- Half a second after its end, which is a whole second, an enrollment reads as expired and is still
-- decided, since the text of the later time comes before that of the end.
decided_late :
    is_ok
      (decide_enrollment "en_1" "issued" "ana" "" "" 1767225900500000000 false
        (record no_rows { enrollments = enrollment ∷ [] })).0
    ≡ true
unfolding decide_enrollment jolt.ControlStore.Sql.run_statement jolt.ControlStore.Sql.count_where
    jolt.ControlStore.Enrollment.decidable jolt.ControlStore.Enrollment.still_pending
    jolt.ControlStore.Enrollment.later_text jolt.Rbac.Evaluate.Order.text_le jolt.Prelude.stamp
decided_late = refl

abbrev node : ManagedNode
node = record {
  node_id = "n1";
  enrolled_at = now;
  bundle_version = 1;
  cert_serial = "01";
  cert_not_before = now;
  cert_not_after = 1767225900000000000;
  cert_fingerprint = "";
  cert_issuer = "";
  auth_mode = "";
  last_error = "";
  last_error_at = none;
}

-- A node that is saved again keeps the time of its enrollment.
save_twice :
    list_managed_nodes false
      (save_managed_node
        (record node { bundle_version = 2; enrolled_at = 1767225900000000000 })
        false
        (save_managed_node node false no_rows).1).1
    ≡ ok (record node { bundle_version = 2 } ∷ [])
unfolding list_managed_nodes save_managed_node jolt.Prelude.contains
    jolt.ControlStore.Sql.update_where
save_twice = refl
