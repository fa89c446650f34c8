-- ===== src/Crew/Plan/Indexes.antt =====
-- The indexes of the stages in the order of a plan.
use ai_jsunpack.Prelude.{
  ℕ, zero, suc, ◌≡◌, ◌≤◌, ◌<◌, refl, String, true, false, none, some, List, [], ◌∷◌, ◌++◌, str_eq,
  str_eq_refl, contains, length, Bool-cases, Option-cases, inl, inr, arith,
}
use ai_jsunpack.Crew.Plan.{stage_index, are_distinct}
use ai_jsunpack.Crew.Plan.Checked.{some_inj}

pub stage_index-before :
    (stage : String) (pre rest : List String) (i : ℕ)
    → stage_index stage (pre ++ rest) ≡ some i
    → i < length pre
    → contains stage pre ≡ true
unfolding stage_index
stage_index-before stage [] rest i h less = absurd (omega (arith, less))
stage_index-before stage (x ∷ pre) rest i h less =
    elim (Option-cases (stage_index stage (pre ++ rest))) [
      | inr (j, found) ↦
          let more : contains stage pre ≡ true =
            stage_index-before stage pre rest j found
              (omega (arith, less, some_inj (suc j) i (rw (found, stage_index) at h))) in
          ground (arith, more)
      | inl none_left ↦ elim (Bool-cases (str_eq stage x)) [
        | inl e ↦ rw e refl
        | inr e ↦ cc (rw e at (rw (none_left, stage_index) at h))
      ]
    ]

stage_index-absent :
    (stage : String) (order : List String)
    → contains stage order ≡ false
    → stage_index stage order ≡ none
unfolding stage_index
stage_index-absent stage [] h = refl
stage_index-absent stage (x ∷ rest) h =
    let other : str_eq stage x ≡ false = ground (arith, h) in
    rw (stage_index-absent stage rest (ground (arith, h)), stage_index) (rw other refl)

pub are_distinct-after :
    (x : String) (pre rest : List String)
    → are_distinct (pre ++ x ∷ rest) ≡ true
    → contains x rest ≡ false
unfolding are_distinct
are_distinct-after x [] rest h = ground (arith, h)
are_distinct-after x (y ∷ pre) rest h = are_distinct-after x pre rest (ground (arith, h))

pub stage_index-at :
    (stage : String) (pre rest : List String) (i : ℕ)
    → contains stage rest ≡ false
    → stage_index stage (pre ++ stage ∷ rest) ≡ some i
    → i ≤ length pre
unfolding stage_index
stage_index-at stage [] rest i once h =
    let first = rw (stage_index-absent stage rest once, stage_index) at h in
    omega (arith, some_inj zero i (rw (str_eq_refl stage) at first))
stage_index-at stage (x ∷ pre) rest i once h =
    elim (Option-cases (stage_index stage (pre ++ stage ∷ rest))) [
      | inr (j, found) ↦ omega (
        arith,
        stage_index-at stage pre rest j once found,
        some_inj (suc j) i (rw (found, stage_index) at h),
      )
      | inl none_left ↦ elim (Bool-cases (str_eq stage x)) [
        | inl e ↦ omega (arith, some_inj zero i (rw e at (rw (none_left, stage_index) at h)))
        | inr e ↦ cc (rw e at (rw (none_left, stage_index) at h))
      ]
    ]

pub stage_index-contains :
    (stage : String) (order : List String) (i : ℕ)
    → stage_index stage order ≡ some i
    → contains stage order ≡ true
unfolding stage_index
stage_index-contains stage [] i h = cc h
stage_index-contains stage (x ∷ rest) i h = elim (Option-cases (stage_index stage rest)) [
  | inr (j, found) ↦ ground (arith, stage_index-contains stage rest j found)
  | inl none_left ↦ elim (Bool-cases (str_eq stage x)) [
    | inl e ↦ rw e refl
    | inr e ↦ cc (rw e at (rw (none_left, stage_index) at h))
  ]
]
