-- ===== src/Crew/Conflicts/Clashes.antt =====
-- Two agents that give one target different values.
use ai_jsunpack.Prelude.{
  ◌≡◌, ◌≤◌, refl, sym, ◌∙◌, String, text_append, Bool, true, false, ◌&&◌, ◌||◌, Option, none, some,
  List, [], ◌∷◌, ◌++◌, map, ltb, str_eq, str_eq_refl, contains, filter, length, Bool-cases, inl,
  inr, arith,
}
use ai_jsunpack.Prelude.Sets.{sorted_set, contains-sorted_set, length-contains}
use ai_jsunpack.Crew.Conflicts.{
  Severity, warning, info, CrewConflictRecord, InferenceNote, Groups, group_by, targeted_key,
  agents_in, agent_of, values_of, targeted_conflict, concat_map, conflicts_of,
}
use ai_jsunpack.Crew.Conflicts.Grouping.{
  pair_eq, pair_eq-true, pair_eq_refl, group_at, group_at-nil, group_at-cons, has_key, has_key-some,
  filter-cons, group_at-group_by,
}

abbrev pub any : (CrewConflictRecord → Bool) → List CrewConflictRecord → Bool
any p [] = false
any p (r ∷ rest) = p r || any p rest

any-append :
    (p : CrewConflictRecord → Bool) (xs ys : List CrewConflictRecord)
    → any p (xs ++ ys) ≡ (any p xs || any p ys)
any-append p [] ys = refl
any-append p (x ∷ xs) ys = ground (arith, any-append p xs ys)

concat_map-cons :
    (f : (String × String) × List InferenceNote → List CrewConflictRecord)
    (g : (String × String) × List InferenceNote) (rest : Groups)
    → concat_map f (g ∷ rest) ≡ f g ++ concat_map f rest
unfolding concat_map
concat_map-cons f g rest = refl

any-concat_map :
    (p : CrewConflictRecord → Bool)
    (f : (String × String) × List InferenceNote → List CrewConflictRecord) (k : String × String)
    (groups : Groups)
    → any p (f (k, [])) ≡ false
    → any p (f (k, group_at k groups)) ≡ true
    → any p (concat_map f groups) ≡ true
any-concat_map p f k [] none_at h = cc (none_at, h, group_at-nil k)
any-concat_map p f k ((j, notes) ∷ rest) none_at h =
    rw (concat_map-cons f (j, notes) rest, any-append p (f (j, notes)) (concat_map f rest))
      (elim (Bool-cases (pair_eq k j)) [
        | inl same ↦
            let one : k ≡ j = pair_eq-true k j same in
            let step : group_at k ((j, notes) ∷ rest) ≡ notes =
              rw (group_at-cons k j notes rest, same) refl in
            let found : any p (f (j, notes)) ≡ true = cc (h, step, one) in rw found refl
        | inr other ↦
            let step : group_at k ((j, notes) ∷ rest) ≡ group_at k rest =
              rw (group_at-cons k j notes rest, other) refl in
            let found : any p (f (k, group_at k rest)) ≡ true = cc (h, step) in
            ground (arith, any-concat_map p f k rest none_at found)
      ])

-- The note stands in the list.
pub data IsAmong (u : InferenceNote) : List InferenceNote → Type 0 where
  here : {rest : List InferenceNote} → IsAmong u (u ∷ rest)
  there : {v : InferenceNote} {rest : List InferenceNote} → IsAmong u rest → IsAmong u (v ∷ rest)

contains-agents :
    (p : InferenceNote → Bool) (u : InferenceNote) (notes : List InferenceNote)
    → IsAmong u notes
    → p u ≡ true
    → contains u.agent (map agent_of (filter p notes)) ≡ true
contains-agents p u [] m h = elim m [ ]
contains-agents p u (v ∷ rest) here h = rw (h, str_eq_refl u.agent) refl
contains-agents p u (v ∷ rest) (there m) h = elim (Bool-cases (p v)) [
  | inl e ↦ rw e (ground (arith, contains-agents p u rest m h))
  | inr e ↦ rw e (contains-agents p u rest m h)
]

values_of-cons :
    (v : InferenceNote) (rest : List InferenceNote)
    → values_of (v ∷ rest) ≡ elim v.value [ none ↦ values_of rest | some x ↦ x ∷ values_of rest ]
unfolding values_of
values_of-cons v rest = refl

contains-more :
    (x : String) (o : Option String) (xs : List String)
    → contains x xs ≡ true
    → contains x (elim o [ none ↦ xs | some v ↦ v ∷ xs ]) ≡ true
contains-more x none xs h = h
contains-more x (some v) xs h = ground (arith, h)

contains-values_of :
    (p : InferenceNote → Bool) (u : InferenceNote) (x : String) (notes : List InferenceNote)
    → IsAmong u notes
    → p u ≡ true
    → u.value ≡ some x
    → contains x (values_of (filter p notes)) ≡ true
contains-values_of p u x [] m h hx = elim m [ ]
contains-values_of p u x (v ∷ rest) here h hx =
    rw (filter-cons p u rest, h, values_of-cons u (filter p rest), hx, str_eq_refl x) refl
contains-values_of p u x (v ∷ rest) (there m) h hx = elim (Bool-cases (p v)) [
  | inl e ↦
      rw (filter-cons p v rest, e, values_of-cons v (filter p rest))
        (contains-more x v.value (values_of (filter p rest)) (contains-values_of p u x rest m h hx))
  | inr e ↦ rw (filter-cons p v rest, e) (contains-values_of p u x rest m h hx)
]

abbrev is_warning : Severity → Bool
is_warning warning = true
is_warning info = false

-- A warning under a key that names two agents
abbrev pub is_clash : String → String → String → CrewConflictRecord → Bool
is_clash key a b r =
    str_eq r.key key && (is_warning r.severity && (contains a r.agents && contains b r.agents))

abbrev pub clash_key : String → String → String
clash_key type target = text_append "conflict:" (text_append type (String.◌∷◌ ":" target))

targeted_conflict-clash :
    (type target a b x y : String) (notes : List InferenceNote)
    → contains a (map agent_of notes) ≡ true
    → contains b (map agent_of notes) ≡ true
    → str_eq a b ≡ false
    → contains x (values_of notes) ≡ true
    → contains y (values_of notes) ≡ true
    → str_eq x y ≡ false
    → any (is_clash (clash_key type target) a b) (targeted_conflict ((type, target), notes)) ≡ true
unfolding targeted_conflict agents_in
targeted_conflict-clash type target a b x y notes ha hb hab hx hy hxy =
    let a_in : contains a (sorted_set (map agent_of notes)) ≡ true = contains-sorted_set a _ ha in
    let b_in : contains b (sorted_set (map agent_of notes)) ≡ true = contains-sorted_set b _ hb in
    let agents : 2 ≤ length (sorted_set (map agent_of notes)) =
      length-contains a b _ a_in b_in hab in
    let values : 2 ≤ length (sorted_set (values_of notes)) =
      length-contains x y _ (contains-sorted_set x _ hx) (contains-sorted_set y _ hy) hxy in
    let few : ltb (length (sorted_set (map agent_of notes))) 2 ≡ false = ground arith in
    let differ : ltb 1 (length (sorted_set (values_of notes))) ≡ true = ground arith in
    rw (few, differ, str_eq_refl (clash_key type target), a_in, b_in) refl

has_key-targeted :
    (u : InferenceNote) (target : String)
    → u.target ≡ some target
    → (type : String) → type ≡ u.type
    → has_key targeted_key (type, target) u ≡ true
has_key-targeted u target h type same =
    has_key-some targeted_key (type, target) (type, target) u (rw (h, same) refl)
    ∙ pair_eq_refl (type, target)

targeted_conflict-nil :
    (k : String × String) (p : CrewConflictRecord → Bool)
    → any p (targeted_conflict (k, [])) ≡ false
unfolding targeted_conflict agents_in sorted_set
targeted_conflict-nil (type, target) p = refl

group_at-targeted :
    (k : String × String) (notes : List InferenceNote)
    → filter (has_key targeted_key k) notes ≡ group_at k (group_by targeted_key notes [])
group_at-targeted k notes = rw (group_at-group_by targeted_key k notes [], group_at-nil k) refl

-- Two notes of different agents that give one target different values under one type are reported:
-- among the conflicts is a warning, under the key of that type and target, that names both agents.
pub conflicts_of-IsReported :
    (u v : InferenceNote) (notes : List InferenceNote) (target x y : String)
    → IsAmong u notes
    → IsAmong v notes
    → u.type ≡ v.type
    → u.target ≡ some target
    → v.target ≡ some target
    → u.value ≡ some x
    → v.value ≡ some y
    → str_eq x y ≡ false
    → str_eq u.agent v.agent ≡ false
    → any (is_clash (clash_key u.type target) u.agent v.agent) (conflicts_of notes) ≡ true
unfolding conflicts_of
conflicts_of-IsReported u v notes target x y mu mv same tu tv xu yv differ apart =
    let p = is_clash (clash_key u.type target) u.agent v.agent in
    let k : String × String = (u.type, target) in
    let test = has_key targeted_key k in
    let u_in : test u ≡ true = has_key-targeted u target tu u.type refl in
    let v_in : test v ≡ true = has_key-targeted v target tv u.type same in
    let clash : any p (targeted_conflict (k, filter test notes)) ≡ true =
      targeted_conflict-clash u.type target u.agent v.agent x y (filter test notes)
        (contains-agents test u notes mu u_in) (contains-agents test v notes mv v_in) apart
        (contains-values_of test u x notes mu u_in xu)
        (contains-values_of test v y notes mv v_in yv) differ in
    let found : any p (targeted_conflict (k, group_at k (group_by targeted_key notes []))) ≡ true =
      rw (sym (group_at-targeted k notes)) clash in
    let first : any p (concat_map targeted_conflict (group_by targeted_key notes [])) ≡ true =
      any-concat_map p targeted_conflict k (group_by targeted_key notes [])
        (targeted_conflict-nil k p) found in
    rw (any-append p (concat_map targeted_conflict (group_by targeted_key notes [])), first) refl
