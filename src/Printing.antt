-- ===== src/Printing.antt =====
-- The printing of labels: app/pats/print-job.ts with the port that app/pats/print-ports.ts selects.
-- The rendering of a label and its delivery to the printer are arguments.
pub mod Binding
pub mod Label
pub mod Jobs
mod Tests
use bnpi_pats_api.Base.{ℕ, String, Option}

-- A station with its printer.
pub record Station : Type 0 where
  pub id : String
  pub name : String
  pub stage_id : String
  pub printer_connection : Option String
  pub printer_address : Option String
  pub printer_language : Option String
  pub printer_dpi : Option ℕ
  pub label_width_mm : Option ℕ
  pub label_height_mm : Option ℕ

-- The environment of the server; the two sizes are `Number` of their variables where that is finite,
-- as whole numbers.
pub record Environment : Type 0 where
  pub windows_name : Option String
  pub address : Option String
  pub width_mm : Option ℕ
  pub height_mm : Option ℕ
