-- ===== src/Crew/Plan/Visits.antt =====
-- The search for a cycle of `validate_specs`, once each dependency is in an earlier stage.
use mathlib.Core.Path.{subst}
use ai_jsunpack.Prelude.{
  ℕ, zero, suc, ◌≡◌, ◌≤◌, ◌<◌, refl, sym, ◌∙◌, ap, String, true, false, not, some, List, [], ◌∷◌,
  map, str_eq, str_eq_refl, contains, filter, length, All, Bool-cases, Option-cases, inl, inr,
  arith, eq_iff,
}
use ai_jsunpack.Crew.Specs.{CrewAgentSpec}
use ai_jsunpack.Crew.Plan.Checked.{
  IsAt, IsBelow, IsStaged, bind_planned-eq, check_each-planned, some_inj, by_name-All,
}
use ai_jsunpack.Crew.Plan.{
  Planned, planned, refused, bind_planned, stage_index, by_name, name_of, stage_order, Marks, enter,
  leave, visit_each, visit, no_marks, visit_all, check_specs, validate_specs, are_distinct,
}

-- Agents that stand in the stage of this index, or in a later one.
abbrev AreLater : List CrewAgentSpec → List String → ℕ → List String → Type 0
AreLater specs order own vs =
    (v : String) → contains v vs ≡ true → (j : ℕ) × IsAt specs order v j × (own ≤ j)

-- A visit ends, and is in the same calls as before.
abbrev IsDone : Planned Marks → Marks → Type 0
IsDone result m = (done : Marks) × (result ≡ planned done) × (done.visiting ≡ m.visiting)

filter-absent :
    (name : String) (vs : List String)
    → contains name vs ≡ false
    → filter (λ v. not (str_eq name v)) vs ≡ vs
filter-absent name [] h = refl
filter-absent name (v ∷ rest) h =
    let other : str_eq name v ≡ false = ground (arith, h) in
    rw other (ap (λ more. v ∷ more) (filter-absent name rest (ground (arith, h))))

module _ (specs : List CrewAgentSpec) (order : List String) where
  IsAt-unique :
      (name : String) (i j : ℕ) → IsAt specs order name i → IsAt specs order name j → i ≡ j
  IsAt-unique name i j a b =
      let same = some_inj a.spec b.spec (sym a.found ∙ b.found) in
      some_inj i j
        (sym a.index ∙ ap (λ (s : CrewAgentSpec). stage_index s.stage order) same ∙ b.index)

  AreLater-enter :
      (name : String) (i : ℕ) (vs : List String)
      → IsAt specs order name i
      → AreLater specs order (suc i) vs
      → AreLater specs order i (name ∷ vs)
  AreLater-enter name i vs here later v h = elim (Bool-cases (str_eq v name)) [
    | inl e ↦ (i, subst (λ x. IsAt specs order x i) (sym ((eq_iff v name).0 e)) here, omega arith)
    | inr e ↦ let (j, a, b) = later v (rw e at h) in (j, a, omega (arith, b))
  ]

  module _ (fuel : ℕ)
      (visit_ends : (name : String) (i : ℕ) (m : Marks)
        → IsAt specs order name i
        → i < fuel
        → AreLater specs order (suc i) m.visiting
        → IsDone (visit fuel specs name m) m) where
    visit_each-IsDone :
        (own : ℕ) (ds : List String) (m : Marks)
        → own ≤ fuel
        → All (IsBelow specs order own) ds
        → AreLater specs order own m.visiting
        → IsDone (visit_each (visit fuel specs) ds m) m
    unfolding visit_each bind_planned
    visit_each-IsDone own [] m enough below later = (m, refl, refl)
    visit_each-IsDone own (d ∷ rest) m enough ((i, here, less), below) later =
        let (done, e, same) =
          visit_ends d i m here (omega (arith, less, enough))
            λ v h. let (j, a, b) = later v h in (j, a, omega (arith, b, less)) in
        let (last, e2, same2) =
          visit_each-IsDone own rest done enough below
            (subst (AreLater specs order own) (sym same) later) in
        (last, rw e e2, same2 ∙ same)

  module _ (staged : All (IsStaged specs order) specs) where
    visit-IsDone :
        (fuel : ℕ) (name : String) (i : ℕ) (m : Marks)
        → IsAt specs order name i
        → i < fuel
        → AreLater specs order (suc i) m.visiting
        → IsDone (visit fuel specs name m) m
    unfolding visit
    visit-IsDone zero name i m here less later = absurd (omega (arith, less))
    visit-IsDone (suc fuel) name i m here less later =
        elim (Bool-cases (contains name m.visiting)) [
          | inl e ↦
              let (j, there, later_j) = later name e in
              absurd (omega (arith, later_j, IsAt-unique name i j here there))
          | inr new ↦ elim (Bool-cases (contains name m.visited)) [
            | inl e ↦ (m, rw (new, e) refl, refl)
            | inr e ↦
                let known =
                  by_name-All (IsStaged specs order) name specs here.spec here.found staged in
                let same : known.own ≡ i = some_inj known.own i (sym known.index ∙ here.index) in
                let (done, ended, back) =
                  visit_each-IsDone fuel (visit-IsDone fuel) i here.spec.dependencies (enter name m)
                    (omega (arith, less))
                    (subst (λ n. All (IsBelow specs order n) here.spec.dependencies) same
                      known.below)
                    (AreLater-enter name i m.visiting here later) in
                (
                  leave name done,
                  rw (new, e, here.found) (bind_planned-eq _ (λ d. planned (leave name d)) ended),
                  ap (filter (λ v. not (str_eq name v))) back
                      ∙ rw (str_eq_refl name) (filter-absent name m.visiting new),
                )
          ]
        ]

All-contains :
    (xs ys : List String)
    → ((v : String) → contains v xs ≡ true → contains v ys ≡ true)
    → All (λ v. contains v ys ≡ true) xs
All-contains [] ys h = tt
All-contains (x ∷ rest) ys h =
    (h x (rw (str_eq_refl x) refl), All-contains rest ys λ v k. h v (ground (arith, k)))

pub by_name-contains :
    (name : String) (ss : List CrewAgentSpec)
    → contains name (map name_of ss) ≡ true
    → (s : CrewAgentSpec) × (by_name name ss ≡ some s)
unfolding by_name
by_name-contains name [] h = cc
by_name-contains name (s ∷ rest) h = elim (Bool-cases (str_eq name s.name)) [
  | inl e ↦ (s, rw e refl)
  | inr e ↦ let (t, found) = by_name-contains name rest (rw e at h) in (t, rw e found)
]

stage_index-bound :
    (stage : String) (order : List String) (i : ℕ)
    → stage_index stage order ≡ some i
    → i < length order
unfolding stage_index
stage_index-bound stage [] i h = cc
stage_index-bound stage (s ∷ rest) i h = elim (Option-cases (stage_index stage rest)) [
  | inr (j, found) ↦ omega (
    arith,
    some_inj (suc j) i (rw (found, stage_index) at h),
    stage_index-bound stage rest j found,
  )
  | inl none_left ↦ elim (Bool-cases (str_eq stage s)) [
    | inl e ↦ omega (arith, some_inj zero i (rw e at (rw (none_left, stage_index) at h)))
    | inr e ↦ cc (rw e at (rw (none_left, stage_index) at h))
  ]
]

pub All-map :
    {P Q : String → Type 0} (xs : List String) → ((v : String) → P v → Q v) → All P xs → All Q xs
All-map [] f h = tt
All-map (x ∷ rest) f h = (f x h.0, All-map rest f h.1)

module _ (specs : List CrewAgentSpec) (order : List String)
    (staged : All (IsStaged specs order) specs) where
  names-IsBelow : All (IsBelow specs order (length order)) (map name_of specs)
  names-IsBelow =
      All-map (map name_of specs)
        (λ name h.
          let (s, found) = by_name-contains name specs h in
          let known = by_name-All (IsStaged specs order) name specs s found staged in
          (
            known.own,
            record { spec = s; found = found; index = known.index },
            stage_index-bound s.stage order known.own known.index,
          ))
        (All-contains (map name_of specs) (map name_of specs) λ v h. h)

  visit_all-planned : visit_all specs order ≡ planned tt
  unfolding visit_all
  visit_all-planned =
      let (done, ended, _) =
        visit_each-IsDone specs order (length order)
          (visit-IsDone specs order staged (length order)) (length order) (map name_of specs)
          no_marks (omega arith) names-IsBelow λ v h. cc h in
      bind_planned-eq _ (λ _. planned tt) ended

pub check_specs-IsStaged :
    (specs : List CrewAgentSpec) (order : List String)
    → check_specs specs order ≡ planned tt
    → All (IsStaged specs order) specs
unfolding check_specs
check_specs-IsStaged specs order h = elim (Bool-cases (are_distinct (map name_of specs))) [
  | inl e ↦ check_each-planned specs order specs (rw e at h)
  | inr e ↦ cc (rw e at h)
]

-- The search for a cycle never refuses what the checks before it accept, and ends: the answer of
-- `validate_specs` is that of the checks on names, stages and dependencies, for every order of the
-- stages, where no order stands for that of the five stages.
pub validate_specs-check_specs :
    (specs : List CrewAgentSpec) (order : List String)
    → validate_specs specs order ≡ check_specs specs (stage_order order)
unfolding validate_specs
validate_specs-check_specs specs order = go (check_specs specs (stage_order order)) refl
  where
    go :
        (r : Planned (Unit {0}))
        → check_specs specs (stage_order order) ≡ r
        → bind_planned
            (check_specs specs (stage_order order))
            (λ _. visit_all specs (stage_order order))
          ≡ check_specs specs (stage_order order)
    go (planned _) h =
        bind_planned-eq _ _ h
        ∙ visit_all-planned specs (stage_order order)
            (check_specs-IsStaged specs (stage_order order) h)
        ∙ sym h
    go (refused e) h = rw (h, bind_planned) refl
