-- ===== src/Planning/Draft/Edits/Laws.antt =====
-- The planned window of a project after a patch.
use bnpi_pats_api.Base.{ℕ, String, List, Option, none, some, false, ◌≡◌, refl, arith}
use bnpi_pats_api.Command.Work.{done, ◌>>=◌, >>=-eq-done}
use bnpi_pats_api.Command.Request.{Request}
use bnpi_pats_api.Command.Audit.{Logged}
use bnpi_pats_api.Command.Idempotency.{CommandResponse}
use bnpi_pats_api.Planning.{Project}
use bnpi_pats_api.Planning.Draft.{DraftReads, DraftWrite, editable_project, ensure_project_editable}
use bnpi_pats_api.Planning.Draft.Edits.{
  Calendar, inverted_window, stored_date, PatchBody, patched, date_edit, edited_project,
  check_patch, write_patch, patch_project,
}

-- The text of a date stands for the same date.
pub record IsCalendar (c : Calendar) : Type 0 where
  pub earlier_iso : (a b : String) → c.earlier (c.iso a) b ≡ c.earlier a b
  pub earlier_of_iso : (a b : String) → c.earlier a (c.iso b) ≡ c.earlier a b

module _ (c : Calendar) (law : IsCalendar c) where
  stored_start :
      (a b : Option String)
      → inverted_window c a b ≡ false
      → inverted_window c (stored_date c a) b ≡ false
  unfolding inverted_window
  stored_start none b h = refl
  stored_start (some a) none h = ground arith
  stored_start (some a) (some b) h = ground (arith, law.earlier_of_iso b a)

  stored_end :
      (a b : Option String)
      → inverted_window c a b ≡ false
      → inverted_window c a (stored_date c b) ≡ false
  unfolding inverted_window
  stored_end none b h = refl
  stored_end (some a) none h = refl
  stored_end (some a) (some b) h = ground (arith, law.earlier_iso b a)

  edited-ordered :
      (start finish : Option (Option String)) (old_start old_end : Option String)
      → inverted_window c (patched start old_start) (patched finish old_end) ≡ false
      → inverted_window c
          (patched (date_edit c start) old_start)
          (patched (date_edit c finish) old_end)
        ≡ false
  edited-ordered none none old_start old_end h = h
  edited-ordered none (some b) old_start old_end h = stored_end old_start b h
  edited-ordered (some a) none old_start old_end h = stored_start a old_end h
  edited-ordered (some a) (some b) old_start old_end h =
      stored_end (stored_date c a) b (stored_start a b h)

check_patch-ordered :
    (r : DraftReads) (c : Calendar) (body : PatchBody) (p : Project) (vs : List (Logged DraftWrite))
    (u : Unit {0})
    → check_patch r c body p ≡ done vs u
    → inverted_window c
        (patched body.planned_start p.planned_start)
        (patched body.planned_end p.planned_end)
      ≡ false
unfolding check_patch
check_patch-ordered r c body p vs u ok = ground arith

same_project :
    (r : DraftReads) (id : String) (version : ℕ) {p own : Project} {vs : List (Logged DraftWrite)}
    → r.project id ≡ some p
    → editable_project r id version ≡ done vs own
    → own ≡ p
unfolding editable_project ensure_project_editable
same_project r id version found loaded = ground arith

-- A patch that succeeds leaves a project whose planned window does not end before it starts,
-- whichever half of it the patch sets, clears or leaves as it was stored.
pub patch_project-ordered :
    (r : DraftReads) (req : Request) (c : Calendar) (target_id : String) (version : ℕ)
    (body : PatchBody) (ws : List (Logged DraftWrite)) (resp : CommandResponse) {p : Project}
    → IsCalendar c
    → r.project target_id ≡ some p
    → patch_project r req c target_id version body ≡ done ws resp
    → let p' = edited_project c body p in inverted_window c p'.planned_start p'.planned_end ≡ false
unfolding patch_project
patch_project-ordered r req c target_id version body ws resp {p} law found ok =
    let (vs, own, us, loaded, later, joined) =
      >>=-eq-done (editable_project r target_id version)
        (λ x. check_patch r c body x >>= λ _. write_patch req c body x) ok in
    let (vs1, u, us1, checked, written, joined1) =
      >>=-eq-done (check_patch r c body own) (λ _. write_patch req c body own) later in
    let same : own ≡ p = same_project r target_id version found loaded in
    rw (← same) (
      edited-ordered c law body.planned_start body.planned_end own.planned_start own.planned_end
        (check_patch-ordered r c body own vs1 u checked))
