-- ===== src/Command/Problem.antt =====
-- The problems that a command answers with: `CommandProblem` of app/pats/command-support.ts and
-- the throwing helpers of app/pats/command-router.ts.
use bnpi_pats_api.Base.{ℕ, String, List, Option, none}

pub record FieldError : Type 0 where
  pub field : String
  pub message : String

pub record Problem : Type 0 where
  pub status : ℕ
  pub type : String
  pub title : String
  pub detail : String
  pub errors : Option (List FieldError)

abbrev problem : ℕ → String → String → String → Problem
problem status type title detail = record {
  status = status;
  type = type;
  title = title;
  detail = detail;
  errors = none;
}

abbrev pub not_found : String → Problem
not_found detail = problem 404 "urn:bandai:pats:problem:not-found" "Not Found" detail

abbrev pub conflict : String → Problem
conflict detail = problem 409 "urn:bandai:pats:problem:conflict" "Conflict" detail

abbrev pub stale_version : Problem
stale_version =
    problem 412 "urn:bandai:pats:problem:precondition-failed" "Precondition Failed"
      "The resource changed since it was read. Reload it before retrying."

abbrev pub malformed : String → Problem
malformed detail = problem 400 "urn:bandai:pats:problem:malformed-request" "Bad Request" detail

abbrev pub forbidden : String → Problem
forbidden detail = problem 403 "urn:bandai:pats:problem:authorization-denied" "Forbidden" detail

abbrev pub not_allowed_stage : Problem
not_allowed_stage =
    problem 403 "urn:bandai:pats:problem:not-allowed-stage" "Forbidden"
      "The gate stage is not in this subject's allowedStages."

-- What a handler may throw: a problem, the database's unique-constraint error, or another error.
pub data Failure : Type 0 where
  problem_of : Problem → Failure
  unique_constraint : Failure
  other_error : String → Failure

-- What the client is sent: a problem body, or what the next error handler makes of the error.
pub data Reply : Type 0 where
  send_problem : Problem → Reply
  next_handler : String → Reply

unfoldable pub command_error : Failure → Reply
command_error (problem_of p) = send_problem p
command_error unique_constraint =
    send_problem (conflict "The requested PATS business identifier is already in use.")
command_error (other_error message) = next_handler message
