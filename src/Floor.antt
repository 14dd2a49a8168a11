-- ===== src/Floor.antt =====
-- The floor of app/pats/command-router.ts: production lines with their machines, sections, the tree
-- of work processes, station-screen lines and their operators. Here a transaction runs on the tables
-- themselves (prisma/pats/schema.prisma), since its commands read what they and others wrote.
mod Tests
mod Tables
mod Named
pub mod Lines
pub mod Processes
pub mod Sections
pub mod Machines
pub mod Integrity
pub use Tables.*
pub use Named.*
use bnpi_pats_api.Base.{
  ℕ, String, List, [], ◌∷◌, ◌++◌, Option, none, some, Bool, true, false, ◌≡◌, refl, ◌⊎◌, inl, inr,
  str_eq, find, is_some, if◌then◌else◌, opt_eq,
}
use bnpi_pats_api.Base.Json.{Json, Fields}
use bnpi_pats_api.Command.Problem.{Problem, Failure, problem_of, other_error}
use bnpi_pats_api.Command.Work.{Work, done, thrown}
use bnpi_pats_api.Command.Request.{Request, require_if_match}
use bnpi_pats_api.Command.Audit.{Logged, record_command_success}
use bnpi_pats_api.Command.Idempotency.{CommandResponse}
use bnpi_pats_api.Execution.{Batch}

pub record ProductionLine : Type 0 where
  pub id : String
  pub line_code : String
  pub name : String
  pub display_order : ℕ

pub record Machine : Type 0 where
  pub id : String
  pub production_line_id : String
  pub machine_code : String
  pub name : String
  pub display_order : ℕ
  pub is_enabled : Bool
  pub row_version : ℕ

pub record Section : Type 0 where
  pub id : String
  pub name : String
  pub section_code : Option String
  pub production_line_id : Option String
  pub stage_id : String
  pub screen_type : String
  pub scanner_attached : Bool
  pub printer_attached : Bool
  pub display_order : ℕ

pub record StationStep : Type 0 where
  pub id : String
  pub section_id : String
  pub stage_id : String
  pub sub_stage_id : Option String

pub record WorkProcess : Type 0 where
  pub id : String
  pub sub_stage_id : Option String
  pub section_id : Option String
  pub parent_process_id : Option String
  pub name : String
  pub display_order : ℕ
  pub is_enabled : Bool

pub record Line : Type 0 where
  pub id : String
  pub section_id : String
  pub process_id : String
  pub line_code : String
  pub label : Option String
  pub assigned_leader_id : String
  pub active_leader_id : Option String
  pub display_order : ℕ
  pub is_enabled : Bool
  pub row_version : ℕ

pub data AssignmentStatus : Type 0 where
  active ended : AssignmentStatus

pub record OperatorAssignment : Type 0 where
  pub id : String
  pub line_id : String
  pub subject_id : String
  pub reason : Option String
  pub status : AssignmentStatus
  pub actor_subject_id : String
  pub started_at : String
  pub ended_at : Option String

pub record Booth : Type 0 where
  pub id : String
  pub section_id : Option String
  pub work_process_id : Option String

-- A daily sheet or a station board, with the reference that a deletion clears.
pub record Sheet : Type 0 where
  pub id : String
  pub work_process_id : Option String

pub record FloorSubject : Type 0 where
  pub id : String
  pub status : String

-- `print_jobs` has the sections of the print jobs, `batches` the batches, `eligible` the sub-stages of each stage,
-- `stages` the ids in display order.
pub record Floor : Type 0 where
  pub production_lines : List ProductionLine
  pub machines : List Machine
  pub sections : List Section
  pub station_steps : List StationStep
  pub processes : List WorkProcess
  pub lines : List Line
  pub assignments : List OperatorAssignment
  pub booths : List Booth
  pub daily_sheets : List Sheet
  pub station_boards : List Sheet
  pub print_jobs : List String
  pub batches : List Batch
  pub stages : List String
  pub sub_stages : List String
  pub eligible : List (String × String)
  pub subjects : List FloorSubject
  pub log : List (Logged (Unit {0}))

abbrev pub batch_of : List Batch → String → Option Batch
batch_of bs id = find (λ b. str_eq b.id id) bs

abbrev pub section_of : List Section → String → Option Section
section_of ss id = find (λ s. str_eq s.id id) ss

abbrev pub process_of : List WorkProcess → String → Option WorkProcess
process_of ps id = find (λ p. str_eq p.id id) ps

abbrev pub line_of : List Line → String → Option Line
line_of ls id = find (λ l. str_eq l.id id) ls

abbrev pub machine_of : List Machine → String → Option Machine
machine_of ms id = find (λ m. str_eq m.id id) ms

abbrev pub production_line_of : List ProductionLine → String → Option ProductionLine
production_line_of ls id = find (λ l. str_eq l.id id) ls

abbrev pub assignment_of : List OperatorAssignment → String → Option OperatorAssignment
assignment_of rows id = find (λ a. str_eq a.id id) rows

abbrev pub subject_of : List FloorSubject → String → Option FloorSubject
subject_of ss id = find (λ s. str_eq s.id id) ss

abbrev pub is_active : AssignmentStatus → Bool
is_active active = true
is_active ended = false

-- The database that a transaction runs on, and what it leaves or throws.
pub data Database : Type 0 where
  database : Floor → Database

abbrev pub floor_of : Database → Floor
floor_of (database s) = s

pub database-floor_of : (d : Database) → d ≡ database (floor_of d)
database-floor_of (database s) = refl

pub data Result {ℓ} (A : Type ℓ) : Type ℓ where
  ok : A → Database → Result A
  fail : Failure → Result A

pub Result-cases {ℓ} :
    {A : Type ℓ} (r : Result A)
    → ((a : A) × (d : Database) × (r ≡ ok a d)) ⊎ ((e : Failure) × (r ≡ fail e))
Result-cases (ok a d) = inl (a, d, refl)
Result-cases (fail e) = inr (e, refl)

abbrev pub Tx {ℓ} : Type ℓ → Type ℓ
Tx A = Database → Result A

infixl 5 ◌>>=◌ ◌>>◌
abbrev pub ◌>>=◌ {ℓ κ} : {A : Type ℓ} {B : Type κ} → Tx A → (A → Tx B) → Tx B
◌>>=◌ m f d = elim (m d) [ ok a d' ↦ f a d' | fail e ↦ fail e ]

abbrev pub ◌>>◌ {ℓ} : {B : Type ℓ} → Tx (Unit {0}) → Tx B → Tx B
m >> k = m >>= λ _. k

module _ {ℓ} {A : Type ℓ} where
  abbrev pub pure : A → Tx A
  pure a d = ok a d

  -- A query.
  abbrev pub gets : (Floor → A) → Tx A
  gets f d = ok (f (floor_of d)) d

  abbrev or_throw : Option A → Failure → Tx A
  or_throw none e d = fail e
  or_throw (some a) e d = ok a d

  -- A query by id, with `if (!row) notFound(detail)`.
  abbrev pub found : (Floor → Option A) → Problem → Tx A
  found f p d = or_throw (f (floor_of d)) (problem_of p) d

  -- A step of a command that writes nothing.
  abbrev pub lift : Work (Logged (Unit {0})) A → Tx A
  lift (done ws a) d = ok a d
  lift (thrown e) d = fail e

abbrev pub throw_if : Bool → Failure → Tx (Unit {0})
throw_if true e d = fail e
throw_if false e d = ok tt d

-- `if (test) conflict(detail)` on what was read.
abbrev pub refuse_if : Bool → Problem → Tx (Unit {0})
refuse_if b p = throw_if b (problem_of p)

-- A test on the tables as they are now.
abbrev pub refuse_when : (Floor → Bool) → Problem → Tx (Unit {0})
refuse_when b p d = throw_if (b (floor_of d)) (problem_of p) d

abbrev pub modify : (Floor → Floor) → Tx (Unit {0})
modify f d = ok tt (database (f (floor_of d)))

-- What the database throws where a row would refer to none, or is still referred to.
abbrev pub foreign_key : Failure
foreign_key = other_error "Foreign key constraint violated"

abbrev pub restrict : (Floor → Bool) → Tx (Unit {0})
restrict b d = throw_if (b (floor_of d)) foreign_key d

abbrev pub written : Work (Logged (Unit {0})) (Unit {0}) → List (Logged (Unit {0}))
written (done ws a) = ws
written (thrown e) = []

abbrev pub add_log : List (Logged (Unit {0})) → Floor → Floor
add_log ws s = record s { log = s.log ++ ws }

-- `recordCommandSuccess`, which throws nothing of its own.
abbrev pub success : Request → String → String → String → Fields → Tx (Unit {0})
success req action type id detail =
    modify (add_log (written (record_command_success req action type id detail)))

abbrev pub if_match : Request → String → Tx ℕ
if_match req name = lift (require_if_match req name)

-- A command's work for `executeCommand`: what it commits is the new state of the floor.
abbrev pub transact : Tx CommandResponse → Floor → Work Floor CommandResponse
transact m s = elim (m (database s)) [ ok r d ↦ done (floor_of d ∷ []) r | fail e ↦ thrown e ]

-- A check leaves the tables as they are.
abbrev pub Keeps {ℓ} : {A : Type ℓ} → Tx A → Type ℓ
Keeps {A} m = (d : Database) (a : A) (d' : Database) → m d ≡ ok a d' → d' ≡ d
