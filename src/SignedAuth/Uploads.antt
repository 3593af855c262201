-- ===== src/SignedAuth/Uploads.antt =====
-- signedauth.go: the tokens that admit, make and reauthorize uploads
use jolt.Prelude.{ℕ, String, ◌<>◌, Bool, ◌&&◌, ◌||◌, not, Option, ◌==◌, if◌then◌else◌, len, decimal}
use jolt.SignedAuth.Verify.{Wire, Keys, Time, Verified, separator, verify_where, is_destination}

abbrev names_file : String → Bool
names_file destination = not (destination == "") && not (destination == ".")

abbrev same_emptiness : String → String → Bool
same_emptiness a b = if a == "" then b == "" else not (b == "")

module _ (w : Wire) where
  -- `UploadAdmissionBodyID`
  unfoldable pub upload_admission_body_id : String → String
  upload_admission_body_id body = "sha256-" <> w.sha256_hex body

  -- `SimpleUploadPlanID`
  unfoldable pub simple_upload_plan_id : String → String → String
  simple_upload_plan_id raw_query key =
      "upload-"
      <> w.sha256_hex
          (decimal (len raw_query) <> (":" <> (raw_query <> (decimal (len key) <> (":" <> key)))))

  -- `VerifyUploadAdmission`
  unfoldable pub verify_upload_admission :
      String → Keys → (receiving_node mount_id destination body : String) → Time → Option Verified
  unfolding verify_where is_destination upload_admission_body_id
  verify_upload_admission token keys receiving_node mount_id destination body now =
      verify_where w
        (λ c.
          names_file destination
          && not (body == "")
          && c.binding.operation == "upload_create"
          && c.binding.plan_id == upload_admission_body_id body
          && is_destination receiving_node mount_id destination c.binding)
        token keys now

  -- `VerifySimpleUpload`
  unfoldable pub verify_simple_upload :
      String
      → Keys
      → (receiving_node mount_id destination raw_query key : String) → Time
      → Option Verified
  unfolding verify_where is_destination simple_upload_plan_id
  verify_simple_upload token keys receiving_node mount_id destination raw_query key now =
      verify_where w
        (λ c.
          names_file destination
          && c.binding.operation == "upload_simple"
          && c.binding.plan_id == simple_upload_plan_id raw_query key
          && is_destination receiving_node mount_id destination c.binding)
        token keys now

  -- `UploadReauthorizationRequestID`; `separator` is the character U+0000
  unfoldable pub upload_reauthorization_request_id : String → String → ℕ → String
  unfolding separator
  upload_reauthorization_request_id session credential revision =
      "previous-"
      <> w.sha256_hex (session <> (separator <> (credential <> (separator <> decimal revision))))

  -- `VerifyUploadReauthorization`
  unfoldable pub verify_upload_reauthorization :
      String
      → Keys
      → (previous_actor previous_credential receiving_node mount_id destination session : String)
      → ℕ
      → Time
      → Option Verified
  unfolding verify_where is_destination upload_reauthorization_request_id
  verify_upload_reauthorization token keys previous_actor previous_credential receiving_node
        mount_id destination session revision now =
      verify_where w
        (λ c.
          not (session == "")
          && same_emptiness previous_actor previous_credential
          && (previous_actor == "" || c.binding.actor_id == previous_actor)
          && c.binding.request_id
            == upload_reauthorization_request_id session previous_credential revision
          && c.binding.operation == "upload_reauthorize"
          && c.binding.plan_id == session
          && is_destination receiving_node mount_id destination c.binding)
        token keys now
