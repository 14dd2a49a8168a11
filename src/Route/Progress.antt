-- ===== src/Route/Progress.antt =====
-- The expected step is the nearest step ahead, and every advance leaves fewer steps ahead.
use bnpi_pats_api.Base.{
  All-Any, ℕ, suc, ◌≤◌, ◌<◌, String, List, [], ◌∷◌, Option, none, some, true, false, ◌≡◌, ◌↔◌, ap,
  arith, find, any, keep, length, zero, eq_iff, eq_refl, ◌≢◌, inl, inr, Bool-cases, Option-cases,
  All, Any, find-Any, find-passes,
}
use bnpi_pats_api.Base.Text
use bnpi_pats_api.Route.{RouteStep, past, current_step, next_step, route_remains, has_id}

-- `orderBy: [{ stepOrder: "asc" }, …]`
abbrev pub IsOrdered : List RouteStep → Type 0
IsOrdered [] = Unit
IsOrdered (s ∷ ss) = All (λ t. s.step_order ≤ t.step_order) ss × IsOrdered ss

-- A step comes strictly after the current one; every step does before the route begins.
abbrev pub IsAhead : Option RouteStep → RouteStep → Type 0
IsAhead none s = Unit
IsAhead (some c) s = c.step_order < s.step_order

past-eq-true : (c : Option RouteStep) (s : RouteStep) → past c s ≡ true → IsAhead c s
past-eq-true none s h = tt
past-eq-true (some c) s h = ground arith

IsAhead-past : (c : Option RouteStep) (s : RouteStep) → IsAhead c s → past c s ≡ true
IsAhead-past none s h = ground arith
IsAhead-past (some c) s h = ground arith

-- The expected step is a step of the route, after the current one, and no step after the current one
-- comes before it.
pub record IsNext (steps : List RouteStep) (c : Option RouteStep) (e : RouteStep) : Type 0 where
  pub member : Any (λ s. s ≡ e) steps
  pub ahead : IsAhead c e
  pub nearest : All (λ s. IsAhead c s → e.step_order ≤ s.step_order) steps

All-weaken_order :
    (c : Option RouteStep) (e s : RouteStep) (ss : List RouteStep)
    → e.step_order ≤ s.step_order
    → All (λ t. s.step_order ≤ t.step_order) ss
    → All (λ t. IsAhead c t → e.step_order ≤ t.step_order) ss
All-weaken_order c e s [] h k = tt
All-weaken_order c e s (t ∷ ss) h k = ((λ _. omega arith), All-weaken_order c e s ss h k.1)

find-nearest :
    (c : Option RouteStep) (e : RouteStep) (steps : List RouteStep)
    → IsOrdered steps
    → find (past c) steps ≡ some e
    → All (λ s. IsAhead c s → e.step_order ≤ s.step_order) steps
find-nearest c e [] o h = tt
find-nearest c e (s ∷ ss) o h = elim (Bool-cases (past c s)) [
  | inl yes_past ↦
      let same : s ≡ e = ground arith in
      let below : e.step_order ≤ s.step_order =
        omega (arith, ap (λ (t : RouteStep). t.step_order) same) in
      ((λ _. below), All-weaken_order c e s ss below o.0)
  | inr not_past ↦
      ((λ p. absurd (ground (arith, IsAhead-past c s p))), find-nearest c e ss o.1 (ground arith))
]

-- On an ordered route the expected step is a step of the route, its order is strictly above that of
-- the current one (any order, where there is none), and no step whose order is above the current
-- one's has a lower order than it.
pub next_step-IsNext :
    (steps : List RouteStep) (current : Option String) (e : RouteStep)
    → IsOrdered steps
    → next_step steps current ≡ some e
    → IsNext steps (current_step steps current) e
unfolding next_step
next_step-IsNext steps current e o h = record {
  member = find-Any (past (current_step steps current)) steps e h;
  ahead =
      past-eq-true (current_step steps current) e
        (find-passes (past (current_step steps current)) steps e h);
  nearest = find-nearest (current_step steps current) e steps o h;
}

any-find-none :
    (c : Option RouteStep) (steps : List RouteStep)
    → any (past c) steps ≡ false
    → find (past c) steps ≡ none
any-find-none c [] h = ground arith
any-find-none c (s ∷ ss) h = ground (arith, any-find-none c ss)

find-none-any :
    (c : Option RouteStep) (steps : List RouteStep)
    → find (past c) steps ≡ none
    → any (past c) steps ≡ false
find-none-any c [] h = ground arith
find-none-any c (s ∷ ss) h = ground (arith, find-none-any c ss)

-- The test of the closing command and the search of the scanning command agree: there is no
-- expected step exactly when no step remains.
pub next_step-none_iff :
    (steps : List RouteStep) (current : Option String)
    → (next_step steps current ≡ none) ↔ (route_remains steps current ≡ false)
unfolding next_step route_remains
next_step-none_iff steps current = (
  find-none-any (current_step steps current) steps,
  any-find-none (current_step steps current) steps,
)

-- The number of steps past the current one.
unfoldable pub remaining : List RouteStep → Option String → ℕ
remaining steps current = length (keep (past (current_step steps current)) steps)

keep-le :
    (c : Option RouteStep) (e : RouteStep) (steps : List RouteStep)
    → past c e ≡ true
    → length (keep (past (some e)) steps) ≤ length (keep (past c) steps)
keep-le c e [] h = omega arith
keep-le none e (s ∷ ss) h = ground (arith, keep-le none e ss h)
keep-le (some c) e (s ∷ ss) h = ground (arith, keep-le (some c) e ss h)

keep-lt :
    (c : Option RouteStep) (e : RouteStep) (steps : List RouteStep)
    → past c e ≡ true
    → Any (λ s. s ≡ e) steps
    → length (keep (past (some e)) steps) < length (keep (past c) steps)
keep-lt c e [] h m = absurd m
keep-lt none e (s ∷ ss) h (inl same) = rw same (ground (arith, keep-le none e ss h))
keep-lt (some c) e (s ∷ ss) h (inl same) = rw same (ground (arith, keep-le (some c) e ss h))
keep-lt none e (s ∷ ss) h (inr m) = ground (arith, keep-lt none e ss h m)
keep-lt (some c) e (s ∷ ss) h (inr m) = ground (arith, keep-lt (some c) e ss h m)

-- The ids of the steps differ and none is empty, as the primary key has it.
abbrev pub HasKeys : List RouteStep → Type 0
HasKeys [] = Unit
HasKeys (s ∷ ss) = (Text.is_empty s.id ≡ false) × All (λ t. t.id ≢ s.id) ss × HasKeys ss

find_own :
    (e : RouteStep) (steps : List RouteStep)
    → HasKeys steps
    → Any (λ s. s ≡ e) steps
    → (find (has_id (some e.id)) steps ≡ some e) × (Text.is_empty e.id ≡ false)
find_own e [] k m = absurd m
find_own e (s ∷ ss) k (inl same) = rw (← same) (ground (arith, eq_refl s.id), k.0)
find_own e (s ∷ ss) k (inr m) =
    let other : e.id ≢ s.id = All-Any (λ t. t.id ≢ s.id) e ss k.1 m in
    let rest = find_own e ss k.2 m in (ground (arith, eq_iff s.id e.id), rest.1)

-- An advance to the expected step leaves strictly fewer steps.
pub remaining-advance :
    (steps : List RouteStep) (current : Option String) (e : RouteStep)
    → HasKeys steps
    → next_step steps current ≡ some e
    → remaining steps (some e.id) < remaining steps current
unfolding next_step remaining
remaining-advance steps current e k h =
    let m = find-Any (past (current_step steps current)) steps e h in
    let (own, full) = find_own e steps k m in
    let at : current_step steps (some e.id) ≡ some e = unfold current_step in rw full own in
    rw at (
      keep-lt (current_step steps current) e steps
        (find-passes (past (current_step steps current)) steps e h) m)

-- Scans at the expected step, one after another.
pub advance : ℕ → List RouteStep → Option String → Option String
advance zero steps current = current
advance (suc n) steps current = elim (next_step steps current) [
  | none ↦ current
  | some e ↦ advance n steps (some e.id)
]

-- As many scans at the expected step as steps remain complete the route: none is expected then.
pub advance-completes :
    (n : ℕ) (steps : List RouteStep) (current : Option String)
    → HasKeys steps
    → remaining steps current ≤ n
    → next_step steps (advance n steps current) ≡ none
unfolding advance
advance-completes zero steps current k h = elim (Option-cases (next_step steps current)) [
  | inl complete ↦ complete
  | inr (e, found) ↦ absurd (omega (arith, remaining-advance steps current e k found))
]
advance-completes (suc n) steps current k h = elim (Option-cases (next_step steps current)) [
  | inl complete ↦ rw (complete, advance) complete
  | inr (e, found) ↦
      rw (found, advance)
        (advance-completes n steps (some e.id) k
          (omega (arith, remaining-advance steps current e k found)))
]
