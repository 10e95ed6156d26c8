-- ===== src/Forms/Submission.antt =====
-- Submit of backend/internal/service/form_submission_service.go over the record service. The forms and
-- the submissions are Go interfaces there, and a record here.
use nexa_flow.Prelude.{String, Result, ok, err, ◌==◌, if◌then◌else◌, string_eq, nat_eq, length}
use nexa_flow.Prelude.Int.{pos}
use nexa_flow.Values.{Dict}
use nexa_flow.Entities.Model.{RecordView}
use nexa_flow.Entities.Records.{RecordError, Readers, RecordStore, create_record, delete_record}
use nexa_flow.Forms.Model.{FormDefinition}

pub record FormSubmission : Type 0 where
  pub id : String
  pub form_id : String
  pub entity_id : String
  pub record_id : String
  pub submitted_by : String
  pub values : Dict

-- ErrInvalidFormSubmission, and the errors of the others.
pub data SubmissionError : Type 0 where
  values_required : SubmissionError
  of_record : RecordError → SubmissionError
  other : String → SubmissionError

-- Get of FormService, and Create of FormSubmissionRepository.
pub record SubmissionStore (S : Type 0) : Type 0 where
  pub get_form : S → String → String → Result SubmissionError FormDefinition
  pub save :
      S
      → String
      → String
      → String
      → String
      → String
      → Dict
      → Result SubmissionError FormSubmission × S

abbrev pub or_nobody : String → String
or_nobody actor_id = if actor_id == "" then "00000000-0000-0000-0000-000000000000" else actor_id

module _ (rd : Readers) {S : Type 0} (db : RecordStore S) (forms : SubmissionStore S) where
  -- A record whose submission is not saved is deleted, whatever that answers.
  abbrev pub or_undo :
      String
      → String
      → RecordView
      → Result SubmissionError FormSubmission × S
      → Result SubmissionError FormSubmission × S
  or_undo tenant_id entity_id view (ok submission, s) = (ok submission, s)
  or_undo tenant_id entity_id view (err e, s) =
      (err e, (delete_record rd db s tenant_id entity_id view.id view.version).1)

  abbrev pub after_create :
      String
      → String
      → String
      → String
      → Result RecordError RecordView × S
      → Result SubmissionError FormSubmission × S
  after_create tenant_id form_id entity_id actor_id (err e, s) = (err (of_record e), s)
  after_create tenant_id form_id entity_id actor_id (ok view, s) =
      or_undo tenant_id entity_id view
        (forms.save s tenant_id form_id entity_id view.id actor_id view.values)

  abbrev pub submit_to :
      S
      → String
      → String
      → String
      → Dict
      → Result SubmissionError FormDefinition
      → Result SubmissionError FormSubmission × S
  submit_to s tenant_id form_id actor_id values (err e) = (err e, s)
  submit_to s tenant_id form_id actor_id values (ok form) =
      after_create tenant_id form_id form.entity_id (or_nobody actor_id) (
        create_record rd db s tenant_id form.entity_id (or_nobody actor_id)
          (record { values = values; expected_version = pos 0 }))

  -- Submit
  unfoldable pub submit :
      S → String → String → String → Dict → Result SubmissionError FormSubmission × S
  submit s tenant_id form_id actor_id values =
      if length values == 0
      then (err values_required, s)
      else submit_to s tenant_id form_id actor_id values (forms.get_form s tenant_id form_id)
