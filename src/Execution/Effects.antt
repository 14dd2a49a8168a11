-- ===== src/Execution/Effects.antt =====
-- What the writes of a command make of one batch row and its position projection: an update sets
-- the columns that it names in the row of its id, and the version where the code increments it.
use bnpi_pats_api.Base.{some, List, [], ◌∷◌, ◌+◌, str_eq, if◌then◌else◌}
use bnpi_pats_api.Command.Audit.{Logged, row, audit_record, outbox_message}
use bnpi_pats_api.Execution.{Batch, Write, batch_move, batch_status, projection_update}

abbrev pub apply_write : Write → Batch → Batch
apply_write (batch_move id stage sub_stage) b =
    if str_eq id b.id
    then record b {
      current_stage_id = stage;
      current_sub_stage_id = sub_stage;
      row_version = b.row_version + 1;
    }
    else b
apply_write (batch_status id status) b =
    if str_eq id b.id then record b { status = status; row_version = b.row_version + 1 } else b
apply_write (projection_update id p) b =
    if str_eq id b.id
    then record b {
      position = some (record {
        stage_id = p.stage_id;
        sub_stage_id = p.sub_stage_id;
        route_step_id = some p.route_step_id;
      });
    }
    else b
apply_write _ b = b

abbrev pub apply_logged : Logged Write → Batch → Batch
apply_logged (row w) b = apply_write w b
apply_logged (audit_record _) b = b
apply_logged (outbox_message _) b = b

abbrev pub apply_all : List (Logged Write) → Batch → Batch
apply_all [] b = b
apply_all (w ∷ ws) b = apply_all ws (apply_logged w b)
