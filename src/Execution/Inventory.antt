-- ===== src/Execution/Inventory.antt =====
-- `POST /inventory-transactions` of app/pats/command-router.ts, with the capability that its route
-- asks for: receiving material is the operator's duty, issuing it is behind the stricter one.
use Prim.Native.String.{◌++◌ as join}
use bnpi_pats_api.Base.{ℕ, String, Option, none, some, not, [], ◌∷◌, ◌==◌, str_eq, if◌then◌else◌}
use bnpi_pats_api.Base.Json.{str, field, end, object}
use bnpi_pats_api.Command.Problem.{not_found}
use bnpi_pats_api.Command.Work.{Work, pure, ◌>>=◌, ◌>>◌, require, refuse_if, write}
use bnpi_pats_api.Command.Request.{Request, actor_id, actor_display}
use bnpi_pats_api.Command.Audit.{Logged, row, record_command_success}
use bnpi_pats_api.Command.Idempotency.{CommandResponse}
use bnpi_pats_api.Execution.{
  Reads, Write, TransactionType, TransactionStatus, recorded_transaction, accepted_transaction,
  corrected_transaction, Magnitude, pieces, decimal, inventory_create,
}

-- `requireInventoryTransactionCapability`, on the request's `transactionType`.
unfoldable pub transaction_capability : Option String → String
transaction_capability none = "inventory.issue"
transaction_capability (some type) =
    if str_eq type "RECEIVING" then "inventory.receive" else "inventory.issue"

pub record TransactionBody : Type 0 where
  pub transaction_type : TransactionType
  pub batch_id : String
  pub part_id : String
  pub from_stage_id : Option String
  pub from_sub_stage_id : Option String
  pub to_stage_id : String
  pub to_sub_stage_id : Option String
  pub expected_quantity : ℕ
  pub actual_quantity : ℕ
  pub quantity_magnitude : Option String
  pub quantity_uom : Option String
  pub usage_basis : Option String
  pub withdrawal_form_ref : Option String

abbrev pub transaction_status : ℕ → ℕ → TransactionStatus
transaction_status expected actual =
    if expected == actual then accepted_transaction else recorded_transaction

abbrev actual_magnitude : Option String → ℕ → Magnitude
actual_magnitude none n = pieces n
actual_magnitude (some m) n = decimal m

abbrev status_name : TransactionStatus → String
status_name recorded_transaction = "RECORDED"
status_name accepted_transaction = "ACCEPTED"
status_name corrected_transaction = "CORRECTED"

unfoldable pub record_transaction :
    Reads → Request → String → String → TransactionBody → Work (Logged Write) CommandResponse
unfolding record_command_success actor_display
record_transaction r req fresh_id now body = do
  batch ← require (r.batch body.batch_id) (not_found "The requested batch was not found.")
  refuse_if (not (r.part_of_project body.part_id batch.project_id))
      (not_found "The requested inventory part was not found in the batch's project.")
  let status = transaction_status body.expected_quantity body.actual_quantity
  write (
      row (
        inventory_create (record {
          id = fresh_id;
          transaction_type = body.transaction_type;
          batch_id = batch.id;
          part_id = body.part_id;
          lot_id = batch.lot_id;
          from_stage_id = body.from_stage_id;
          from_sub_stage_id = body.from_sub_stage_id;
          to_stage_id = body.to_stage_id;
          to_sub_stage_id = body.to_sub_stage_id;
          expected_quantity = body.expected_quantity;
          actual_quantity = body.actual_quantity;
          withdrawal_form_ref = body.withdrawal_form_ref;
          recorded_at = now;
          recorded_by = actor_display req;
          recorded_by_subject_id = actor_id req;
          status = status;
          expected_quantity_magnitude = pieces body.expected_quantity;
          actual_quantity_magnitude = actual_magnitude body.quantity_magnitude body.actual_quantity;
          quantity_uom = body.quantity_uom;
          usage_basis = body.usage_basis;
        })))
  record_command_success req "INVENTORY_TRANSACTION_RECORDED" "InventoryTransaction" fresh_id
      (field "batchId" (str batch.id) (field "status" (str (status_name status)) end))
  pure (record {
    status = 201;
    body = object (
        field "inventoryTransactionId" (str fresh_id)
          (field "status" (str (status_name status)) end));
    headers = ("Location", join "/api/v1/inventory-transactions/" fresh_id) ∷ [];
  })
