-- ===== src/Execution/Resolve.antt =====
-- The lookup of a scanned code: app/pats/batch-resolve.ts, and the quantity of a label that
-- app/pats/print-job.ts reads in the same way.
pub mod Agreement
mod Tests
use Prim.Native.Char.{code}
use bnpi_pats_api.Base.{
  ℕ, String, List, [], ◌∷◌, Option, none, some, Bool, true, false, not, ◌&&◌, ◌||◌, ◌==◌, ltb, leb,
  get_or, or_else, if◌then◌else◌,
}
use bnpi_pats_api.Base.Text
use bnpi_pats_api.Command.Problem.{problem_of, not_found, malformed}
use bnpi_pats_api.Command.Idempotency.{Outcome, returned, failed}
use bnpi_pats_api.Route.{RouteStep, next_step, route_complete}
use bnpi_pats_api.Execution.{Batch, Magnitude, pieces, decimal, stage_of, sub_stage_of, step_of}

-- The query parameter `code`: one text, several, or something else.
pub data RawCode : Type 0 where
  text : String → RawCode
  texts : List String → RawCode
  not_text : RawCode

abbrev first_text : RawCode → Option String
first_text (text s) = some s
first_text (texts []) = none
first_text (texts (s ∷ ss)) = some s
first_text not_text = none

-- `parseBatchResolveCode`
unfoldable pub parse_batch_resolve_code : RawCode → Outcome String
parse_batch_resolve_code raw = elim (first_text raw) [
  | none ↦ failed (problem_of (malformed "Query parameter code is required."))
  | some s ↦
      if Text.is_empty (Text.trim s)
      then failed (problem_of (malformed "Query parameter code is required."))
      else returned (Text.trim s)
]

-- A digit other than 0 before any exponent.
unfoldable pub has_digit : String → Bool
has_digit String.[] = false
has_digit (String.◌∷◌ c s) =
    if code c == b'e' then false else (leb b'1' (code c) && leb (code c) b'9') || has_digit s

-- `Number(text) > 0` on the text of a decimal column.
abbrev pub is_positive : Magnitude → Bool
is_positive (pieces n) = ltb 0 n
is_positive (decimal String.[]) = false
is_positive (decimal (String.◌∷◌ c s)) = not (code c == b'-') && has_digit (String.◌∷◌ c s)

-- `carriedQuantity`, `quantityOf`
unfoldable pub carried_quantity : Option Magnitude → ℕ → Magnitude
carried_quantity none planned = pieces planned
carried_quantity (some m) planned = if is_positive m then m else pieces planned

-- The label's quantity of `recordPrintJob`: a reprint takes the batch's, like a first print without
-- an actual quantity.
unfoldable pub label_quantity : Option String → Option ℕ → Magnitude → Magnitude
label_quantity reprint_of actual quantity = elim reprint_of [
  | none ↦ elim actual [ none ↦ quantity | some n ↦ pieces n ]
  | some original ↦
      if Text.is_empty original
      then elim actual [ none ↦ quantity | some n ↦ pieces n ]
      else quantity
]

-- The batch with what the lookup includes.
pub record ResolvedBatch : Type 0 where
  pub batch : Batch
  pub barcode_value : String
  pub lot_code : String
  pub part_code : String
  pub part_name : String
  pub product_name : Option String
  pub model_name : Option String
  pub model_number : Option String
  pub label_pack_size : ℕ
  pub magnitude : Option Magnitude

pub record ResolveBody : Type 0 where
  pub batch_id : String
  pub batch_code : String
  pub barcode_value : String
  pub lot_id : String
  pub lot_code : String
  pub part_id : String
  pub part_code : String
  pub part_name : String
  pub product_name : Option String
  pub model_name : Option String
  pub planned_quantity : ℕ
  pub carried : Magnitude
  pub label_pack_size : ℕ
  pub current_stage_id : String
  pub current_sub_stage_id : Option String
  pub next_expected_step : Option RouteStep
  pub is_route_complete : Bool

-- `resolveBatchByCode`: the batch with that barcode or code, and the steps of its part in the parts
-- list of its lot, in their order.
unfoldable pub resolve_batch_by_code :
    (String → Option ResolvedBatch)
    → (String → String → List RouteStep)
    → String
    → Outcome ResolveBody
unfolding carried_quantity
resolve_batch_by_code find_batch routing_steps scanned = elim (find_batch scanned) [
  | none ↦ failed (problem_of (not_found "No batch matches the scanned code."))
  | some found ↦
      let b = found.batch in
      let steps = routing_steps b.parts_list_id b.part_id in
      returned (record {
        batch_id = b.id;
        batch_code = b.batch_code;
        barcode_value = found.barcode_value;
        lot_id = b.lot_id;
        lot_code = found.lot_code;
        part_id = b.part_id;
        part_code = found.part_code;
        part_name = found.part_name;
        product_name = found.product_name;
        model_name = or_else found.model_name found.model_number;
        planned_quantity = b.planned_quantity;
        carried = carried_quantity found.magnitude b.planned_quantity;
        label_pack_size = found.label_pack_size;
        current_stage_id = stage_of b;
        current_sub_stage_id = sub_stage_of b;
        next_expected_step = next_step steps (step_of b);
        is_route_complete = route_complete steps (step_of b);
      })
]
