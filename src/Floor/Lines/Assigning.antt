-- ===== src/Floor/Lines/Assigning.antt =====
-- Who gets an operator on a line, and what the command leaves when it does.
use bnpi_pats_api.Base.{String, List, some, true, ◌≡◌, ◌⊎◌, All}
use bnpi_pats_api.Command.Request.{Request}
use bnpi_pats_api.Identity.Policy.{Assignment, has_capability}
use bnpi_pats_api.Floor.{Floor, Line, OperatorAssignment, ended, FloorSubject}

-- What an assignment asks: the line is enabled; the caller may manage operations, or is the line's
-- leader on shift or its assigned leader; the operator's account is active; and every assignment of
-- the operator, on whichever line, has ended.
pub record IsAssignable (granted : List Assignment) (actor : String) (l : Line)
    (operator : FloorSubject) (rows : List OperatorAssignment) (subject_id : String) : Type 0 where
  pub on : l.is_enabled ≡ true
  pub led :
      (has_capability granted "operations.manage" ≡ true)
      ⊎ (l.active_leader_id ≡ some actor)
      ⊎ (l.assigned_leader_id ≡ actor)
  pub able : operator.status ≡ "ACTIVE"
  pub free : All (λ a. a.subject_id ≡ subject_id → a.status ≡ ended) rows
