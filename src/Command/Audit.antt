-- ===== src/Command/Audit.antt =====
-- `recordCommandSuccess` of app/pats/command-support.ts: every successful command writes an audit
-- record and an outbox message beside its rows.
use bnpi_pats_api.Base.{String, [], ◌∷◌, Option, none, some}
use bnpi_pats_api.Base.Json.{Json, null, str, Fields, end, field}
use bnpi_pats_api.Command.Work.{Work, done}
use bnpi_pats_api.Command.Request.{Request, actor_id}

pub record AuditRecord : Type 0 where
  pub actor_subject_id : String
  pub action : String
  pub resource_type : String
  pub resource_id : String
  pub outcome : String
  pub correlation_id : Option String
  pub detail : Fields

pub record OutboxMessage : Type 0 where
  pub aggregate_type : String
  pub aggregate_id : String
  pub event_type : String
  pub payload : Fields

-- The writes of a command: the rows of its own tables, and the two logs.
pub data Logged {ℓ} (W : Type ℓ) : Type ℓ where
  row : W → Logged W
  audit_record : AuditRecord → Logged W
  outbox_message : OutboxMessage → Logged W

-- `{ ...detail, resourceType, resourceId, actorSubjectId }`
abbrev extend : Fields → Fields → Fields
extend end more = more
extend (field k v fs) more = field k v (extend fs more)

abbrev pub opt_str : Option String → Json
opt_str none = null
opt_str (some s) = str s

unfoldable pub record_command_success {ℓ} :
    {W : Type ℓ} → Request → String → String → String → Fields → Work (Logged W) (Unit {0})
unfolding actor_id
record_command_success req action resource_type resource_id detail =
    done
      (audit_record (record {
        actor_subject_id = actor_id req;
        action = action;
        resource_type = resource_type;
        resource_id = resource_id;
        outcome = "SUCCESS";
        correlation_id = req.correlation_id;
        detail = detail;
      })
        ∷ outbox_message (record {
          aggregate_type = resource_type;
          aggregate_id = resource_id;
          event_type = action;
          payload = extend detail (
              field "resourceType" (str resource_type) (
                field "resourceId" (str resource_id)
                  (field "actorSubjectId" (str (actor_id req)) end)));
        })
        ∷ [])
      tt
