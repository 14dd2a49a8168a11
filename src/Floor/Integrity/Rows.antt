-- ===== src/Floor/Integrity/Rows.antt =====
-- The references between lines, assignments and sections, and how the changes of a table keep them.
use bnpi_pats_api.Base.{
  String, List, [], ◌∷◌, ◌++◌, none, Bool, true, false, ◌≡◌, ◌≤◌, ap, ◌∙◌, arith, str_eq, eq_iff,
  find, is_some, All,
}
use bnpi_pats_api.Floor.{
  Line, OperatorAssignment, Section, line_of, section_of, process_of, WorkProcess, update_many,
  delete_many, count, count-append, count-update_many, find-count, All-update_many, All-delete_many,
  All-map, found-update_many, found-append, find-delete_many,
}
use bnpi_pats_api.Floor.Lines.{has_line_id, end_at, is_active_of, is_on}

-- Every assignment is of a line that exists.
abbrev pub IsStaffed : List Line → List OperatorAssignment → Type 0
IsStaffed ls rows = All (λ a. is_some (line_of ls a.line_id) ≡ true) rows

-- Every line stands in a section that exists.
abbrev pub IsHoused : List Section → List Line → Type 0
IsHoused ss ls = All (λ l. is_some (section_of ss l.section_id) ≡ true) ls

-- Every line runs a process that exists.
abbrev pub IsRun : List WorkProcess → List Line → Type 0
IsRun ps ls = All (λ l. is_some (process_of ps l.process_id) ≡ true) ls

-- No subject has two active assignments.
abbrev pub IsSingle : List OperatorAssignment → Type 0
IsSingle rows = (subject : String) → count (is_active_of subject) rows ≤ 1

-- A change of the lines that keeps their ids, sections and processes.
pub record KeepsPlace (f : Line → Line) : Type 0 where
  pub id : (l : Line) → (f l).id ≡ l.id
  pub section : (l : Line) → (f l).section_id ≡ l.section_id
  pub process : (l : Line) → (f l).process_id ≡ l.process_id

pub update_lines-IsStaffed :
    (p : Line → Bool) (f : Line → Line) (ls : List Line) (rows : List OperatorAssignment)
    → KeepsPlace f
    → IsStaffed ls rows
    → IsStaffed (update_many p f ls) rows
update_lines-IsStaffed p f ls rows keeps h =
    All-map (λ a. is_some (line_of ls a.line_id) ≡ true)
      (λ a. is_some (line_of (update_many p f ls) a.line_id) ≡ true)
      (λ a there.
        found-update_many (λ l. str_eq l.id a.line_id) p f
          (λ l. ap (λ (k : String). str_eq k a.line_id) (keeps.id l)) ls
        ∙ there)
      rows h

pub update_lines-IsHoused :
    (p : Line → Bool) (f : Line → Line) (ss : List Section) (ls : List Line)
    → KeepsPlace f
    → IsHoused ss ls
    → IsHoused ss (update_many p f ls)
update_lines-IsHoused p f ss ls keeps h =
    All-update_many (λ l. is_some (section_of ss l.section_id) ≡ true)
      (λ l. is_some (section_of ss l.section_id) ≡ true) p f
      (λ l there _. ap (λ (k : String). is_some (section_of ss k)) (keeps.section l) ∙ there)
      (λ l there _. there) ls h

pub update_lines-IsRun :
    (p : Line → Bool) (f : Line → Line) (ps : List WorkProcess) (ls : List Line)
    → KeepsPlace f
    → IsRun ps ls
    → IsRun ps (update_many p f ls)
update_lines-IsRun p f ps ls keeps h =
    All-update_many (λ l. is_some (process_of ps l.process_id) ≡ true)
      (λ l. is_some (process_of ps l.process_id) ≡ true) p f
      (λ l there _. ap (λ (k : String). is_some (process_of ps k)) (keeps.process l) ∙ there)
      (λ l there _. there) ls h

pub append_line-IsStaffed :
    (l : Line) (ls : List Line) (rows : List OperatorAssignment)
    → IsStaffed ls rows
    → IsStaffed (ls ++ l ∷ []) rows
append_line-IsStaffed l ls rows h =
    All-map (λ a. is_some (line_of ls a.line_id) ≡ true)
      (λ a. is_some (line_of (ls ++ l ∷ []) a.line_id) ≡ true)
      (λ a there. found-append (λ x. str_eq x.id a.line_id) ls (l ∷ []) there) rows h

-- A line goes with all its assignments.
pub delete_line-IsStaffed :
    (id : String) (ls : List Line) (rows : List OperatorAssignment)
    → IsStaffed ls rows
    → IsStaffed (delete_many (has_line_id id) ls) (delete_many (is_on id) rows)
delete_line-IsStaffed id ls rows h =
    All-delete_many (λ a. is_some (line_of ls a.line_id) ≡ true)
      (λ a. is_some (line_of (delete_many (has_line_id id) ls) a.line_id) ≡ true) (is_on id)
      (λ a there elsewhere.
        ap is_some (
          find-delete_many (λ l. str_eq l.id a.line_id) (has_line_id id)
            (λ l same. ground (arith, eq_iff l.id a.line_id, eq_iff l.id id, eq_iff a.line_id id))
            ls)
        ∙ there)
      rows h

pub append_assignment-IsSingle :
    (row : OperatorAssignment) (rows : List OperatorAssignment)
    → find (is_active_of row.subject_id) rows ≡ none
    → IsSingle rows
    → IsSingle (rows ++ row ∷ [])
append_assignment-IsSingle row rows free h subject =
    rw (count-append (is_active_of subject) rows (row ∷ [])) (
      ground (
        arith,
        h subject,
        find-count (is_active_of row.subject_id) rows free,
        eq_iff row.subject_id subject,
      ))

pub end_assignments-IsSingle :
    (p : OperatorAssignment → Bool) (now : String) (rows : List OperatorAssignment)
    → IsSingle rows
    → IsSingle (update_many p (end_at now) rows)
end_assignments-IsSingle p now rows h subject = omega (
  arith,
  h subject,
  count-update_many (is_active_of subject) p (end_at now) (λ a still. ground arith) rows,
)

pub end_assignments-IsStaffed :
    (p : OperatorAssignment → Bool) (now : String) (ls : List Line) (rows : List OperatorAssignment)
    → IsStaffed ls rows
    → IsStaffed ls (update_many p (end_at now) rows)
end_assignments-IsStaffed p now ls rows h =
    All-update_many (λ a. is_some (line_of ls a.line_id) ≡ true)
      (λ a. is_some (line_of ls a.line_id) ≡ true) p (end_at now) (λ a there _. there)
      (λ a there _. there) rows h

pub append_section-IsHoused :
    (x : Section) (ss : List Section) (ls : List Line) → IsHoused ss ls → IsHoused (ss ++ x ∷ []) ls
append_section-IsHoused x ss ls h =
    All-map (λ l. is_some (section_of ss l.section_id) ≡ true)
      (λ l. is_some (section_of (ss ++ x ∷ []) l.section_id) ≡ true)
      (λ l there. found-append (λ s. str_eq s.id l.section_id) ss (x ∷ []) there) ls h

pub update_sections-IsHoused :
    (p : Section → Bool) (f : Section → Section) (ss : List Section) (ls : List Line)
    → ((s : Section) → (f s).id ≡ s.id)
    → IsHoused ss ls
    → IsHoused (update_many p f ss) ls
update_sections-IsHoused p f ss ls keeps h =
    All-map (λ l. is_some (section_of ss l.section_id) ≡ true)
      (λ l. is_some (section_of (update_many p f ss) l.section_id) ≡ true)
      (λ l there.
        found-update_many (λ s. str_eq s.id l.section_id) p f
          (λ s. ap (λ (k : String). str_eq k l.section_id) (keeps s)) ss
        ∙ there)
      ls h

pub All-both {ℓ κ} :
    {A : Type 0} (P : A → Type ℓ) (Q : A → Type κ) (xs : List A)
    → All P xs
    → All Q xs
    → All (λ x. P x × Q x) xs
All-both P Q [] h k = tt
All-both P Q (x ∷ xs) (p, h) (q, k) = ((p, q), All-both P Q xs h k)

-- A row that no line refers to can go.
pub delete_section-IsHoused :
    (id : String) (ss : List Section) (ls : List Line)
    → All (λ l. str_eq l.section_id id ≡ false) ls
    → IsHoused ss ls
    → IsHoused (delete_many (λ s. str_eq s.id id) ss) ls
delete_section-IsHoused id ss ls elsewhere h =
    All-map (λ l. (str_eq l.section_id id ≡ false) × (is_some (section_of ss l.section_id) ≡ true))
      (λ l. is_some (section_of (delete_many (λ s. str_eq s.id id) ss) l.section_id) ≡ true)
      (λ l (apart, there).
        ap is_some (
          find-delete_many (λ s. str_eq s.id l.section_id) (λ s. str_eq s.id id)
            (λ s same.
              ground (arith, eq_iff s.id l.section_id, eq_iff s.id id, eq_iff l.section_id id))
            ss)
        ∙ there)
      ls
      (All-both (λ l. str_eq l.section_id id ≡ false)
        (λ l. is_some (section_of ss l.section_id) ≡ true) ls elsewhere h)
