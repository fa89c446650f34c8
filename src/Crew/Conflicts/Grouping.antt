-- ===== src/Crew/Conflicts/Grouping.antt =====
-- The groups that the conflict detector makes of the notes: each holds the notes of its key, in order.
use ai_jsunpack.Prelude.{
  ◌≡◌, refl, sym, String, Bool, true, false, ◌&&◌, Option, none, some, List, [], ◌∷◌, ◌++◌,
  if◌then◌else◌, str_eq, str_eq_refl, filter, Bool-cases, Option-cases, inl, inr, arith, eq_iff,
}
use mathlib.Core.List.{append_assoc, append-nil}
use ai_jsunpack.Crew.Conflicts.{InferenceNote, Groups, add_note, group_by}

-- Two keys are the same.
unfoldable pub pair_eq : String × String → String × String → Bool
pair_eq (a, b) (x, y) = str_eq a x && str_eq b y

-- The notes of the group of a key
unfoldable pub group_at : String × String → Groups → List InferenceNote
group_at k [] = []
group_at k ((j, notes) ∷ rest) = if pair_eq k j then notes else group_at k rest

pub pair_eq-true : (k j : String × String) → pair_eq k j ≡ true → k ≡ j
unfolding pair_eq
pair_eq-true (a, b) (x, y) h =
    let one : a ≡ x = (eq_iff a x).0 (ground (arith, h)) in
    let two : b ≡ y = (eq_iff b y).0 (ground (arith, h)) in cc (one, two)

pub pair_eq_refl : (k : String × String) → pair_eq k k ≡ true
unfolding pair_eq
pair_eq_refl (a, b) = rw (str_eq_refl a, str_eq_refl b) refl

pub group_at-nil : (k : String × String) → group_at k [] ≡ []
unfolding group_at
group_at-nil k = refl

pub group_at-cons :
    (k j : String × String) (notes : List InferenceNote) (rest : Groups)
    → group_at k ((j, notes) ∷ rest) ≡ (if pair_eq k j then notes else group_at k rest)
unfolding group_at
group_at-cons k j notes rest = refl

add_note-nil :
    (j : String × String) (note : InferenceNote) → add_note j note [] ≡ (j, note ∷ []) ∷ []
unfolding add_note
add_note-nil (x, y) note = refl

add_note-here :
    (j i : String × String) (note : InferenceNote) (notes : List InferenceNote) (rest : Groups)
    → pair_eq j i ≡ true
    → add_note j note ((i, notes) ∷ rest) ≡ (i, notes ++ note ∷ []) ∷ rest
unfolding add_note pair_eq
add_note-here (x, y) (u, v) note notes rest h = rw h refl

add_note-next :
    (j i : String × String) (note : InferenceNote) (notes : List InferenceNote) (rest : Groups)
    → pair_eq j i ≡ false
    → add_note j note ((i, notes) ∷ rest) ≡ (i, notes) ∷ add_note j note rest
unfolding add_note pair_eq
add_note-next (x, y) (u, v) note notes rest h = rw h refl

-- One key is not equal to two that differ.
key_clash : (k j i : String × String) → pair_eq j i ≡ false → (pair_eq k j && pair_eq k i) ≡ false
key_clash k j i other = elim (Bool-cases (pair_eq k j)) [
  | inl h ↦ rw (h, pair_eq-true k j h, other) refl
  | inr h ↦ rw h refl
]

group_at-add_note :
    (k j : String × String) (note : InferenceNote) (groups : Groups)
    → group_at k (add_note j note groups)
      ≡ (if pair_eq k j then group_at k groups ++ note ∷ [] else group_at k groups)
group_at-add_note k j note [] =
    rw (add_note-nil j note, group_at-cons k j (note ∷ []) [], group_at-nil k) refl
group_at-add_note k j note ((i, notes) ∷ rest) = elim (Bool-cases (pair_eq j i)) [
  | inl same ↦
      let one : j ≡ i = pair_eq-true j i same in
      rw (add_note-here j i note notes rest same, group_at-cons, group_at-cons, one) (ground arith)
  | inr other ↦
      rw (add_note-next j i note notes rest other, group_at-cons, group_at-cons)
        (ground (arith, group_at-add_note k j note rest, key_clash k j i other))
]

abbrev pub has_key :
    (InferenceNote → Option (String × String)) → String × String → InferenceNote → Bool
has_key key k note = elim (key note) [ none ↦ false | some j ↦ pair_eq k j ]

group_by-none :
    (key : InferenceNote → Option (String × String)) (note : InferenceNote)
    (rest : List InferenceNote) (groups : Groups)
    → key note ≡ none
    → group_by key (note ∷ rest) groups ≡ group_by key rest groups
unfolding group_by
group_by-none key note rest groups h = rw (group_by, h) refl

group_by-some :
    (key : InferenceNote → Option (String × String)) (note : InferenceNote)
    (rest : List InferenceNote) (groups : Groups) (j : String × String)
    → key note ≡ some j
    → group_by key (note ∷ rest) groups ≡ group_by key rest (add_note j note groups)
unfolding group_by
group_by-some key note rest groups j h = rw (group_by, h) refl

group_by-nil :
    (key : InferenceNote → Option (String × String)) (groups : Groups)
    → group_by key [] groups ≡ groups
unfolding group_by
group_by-nil key groups = refl

pub filter-cons :
    (p : InferenceNote → Bool) (note : InferenceNote) (rest : List InferenceNote)
    → filter p (note ∷ rest) ≡ (if p note then note ∷ filter p rest else filter p rest)
filter-cons p note rest = refl

has_key-none :
    (key : InferenceNote → Option (String × String)) (k : String × String) (note : InferenceNote)
    → key note ≡ none
    → has_key key k note ≡ false
has_key-none key k note h = rw (has_key, h) refl

pub has_key-some :
    (key : InferenceNote → Option (String × String)) (k j : String × String) (note : InferenceNote)
    → key note ≡ some j
    → has_key key k note ≡ pair_eq k j
has_key-some key k j note h = rw (has_key, h) refl

append_split :
    (b : Bool) (x : InferenceNote) (xs ys : List InferenceNote)
    → (if b then xs ++ x ∷ [] else xs) ++ ys ≡ xs ++ (if b then x ∷ ys else ys)
append_split true x xs ys = append_assoc xs (x ∷ []) ys
append_split false x xs ys = refl

pub group_at-group_by :
    (key : InferenceNote → Option (String × String)) (k : String × String)
    (notes : List InferenceNote) (groups : Groups)
    → group_at k (group_by key notes groups) ≡ group_at k groups ++ filter (has_key key k) notes
group_at-group_by key k [] groups =
    rw (group_by-nil key groups) (sym (append-nil (group_at k groups)))
group_at-group_by key k (note ∷ rest) groups = elim (Option-cases (key note)) [
  | inl h ↦
      rw
        (
          group_by-none key note rest groups h,
          group_at-group_by key k rest groups,
          filter-cons (has_key key k) note rest,
          has_key-none key k note h,
        )
        refl
  | inr (j, h) ↦
      rw
        (
          group_by-some key note rest groups j h,
          group_at-group_by key k rest (add_note j note groups),
          group_at-add_note k j note groups,
          filter-cons (has_key key k) note rest,
          has_key-some key k j note h,
        )
        (append_split (pair_eq k j) note (group_at k groups) (filter (has_key key k) rest))
]
