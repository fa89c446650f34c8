-- ===== src/Store/Settings/Writes.antt =====
-- What a write of settings guarantees, alone and against a second writer.
use ai_jsunpack.Prelude.{
  ◌+◌, ◌<◌, String, ◌≡◌, inl, inr, refl, ◌∙◌, ap, Bool, true, false, ◌==◌, Option, none, some, List,
  [], ◌∷◌, ◌++◌, str_eq_refl, filter, arith, Bool-cases, Option-cases,
}
use ai_jsunpack.Store.Jobs.{Result, ok, err, value_error}
use ai_jsunpack.Store.Settings.{
  SettingScope, scope_eq, SettingsRow, SettingsRevision, normalize_settings_scope_id,
  settings_revision_from_row, in_scope, highest, latest, snapshot, get_settings, current_revision,
  clashes, insert_revision, insert_if, write_at, SettingsWrite, row_of, write_settings_revision,
}

scope_eq_refl : (s : SettingScope) → scope_eq s s ≡ true
scope_eq_refl s = ground arith

filter-append :
    (p : SettingsRow → Bool) (xs : List SettingsRow) (row : SettingsRow)
    → p row ≡ true
    → filter p (xs ++ row ∷ []) ≡ filter p xs ++ row ∷ []
filter-append p [] row h = rw h refl
filter-append p (x ∷ xs) row h = ground (arith, filter-append p xs row h)

-- A row of a higher revision than all before it becomes the highest.
highest-append :
    (xs : List SettingsRow) (row : SettingsRow)
    → current_revision (highest xs) < row.revision
    → highest (xs ++ row ∷ []) ≡ some row
unfolding highest current_revision
highest-append [] row h = refl
highest-append (x ∷ xs) row h = elim (Option-cases (highest xs)) [
  | inl e ↦ rw (highest-append xs row (rw e (omega (arith, rw e at h)))) (ground (arith, rw e at h))
  | inr (best, e) ↦
      let h' = rw e at h in
      let low : best.revision < row.revision = ground (arith, h') in
      rw (highest-append xs row (rw e low)) (ground (arith, h'))
]

latest-append :
    (scope : SettingScope) (id : String) (rows : List SettingsRow) (row : SettingsRow)
    → in_scope scope id row ≡ true
    → current_revision (latest scope id rows) < row.revision
    → latest scope id (rows ++ row ∷ []) ≡ some row
unfolding latest
latest-append scope id rows row here more =
    rw (filter-append (in_scope scope id) rows row here)
      (highest-append (filter (in_scope scope id) rows) row more)

-- A row that was inserted refuses another of its scope and revision.
clashes-append :
    (new row : SettingsRow) (rows : List SettingsRow)
    → in_scope new.scope new.scope_id row ≡ true
    → row.revision ≡ new.revision
    → clashes new (rows ++ row ∷ []) ≡ true
unfolding clashes
clashes-append new row [] here same = ground (arith, here, same)
clashes-append new row (x ∷ xs) here same = ground (arith, clashes-append new row xs here same)

-- What a write may answer: the revision after the expected one, which is what `get_settings` then
-- reads, or an error, and then no row has changed.
abbrev pub WriteOutcome :
    SettingsWrite → List SettingsRow → Result SettingsRevision × List SettingsRow → Type 0
WriteOutcome w rows (ok revision, rows') =
    (revision.revision ≡ w.expected_revision + 1)
    × (get_settings w.scope w.scope_id rows'
        ≡ ok (record {
          scope = w.scope;
          scope_id = w.scope_id;
          revision = w.expected_revision + 1;
          settings = w.settings;
          updated_at = some w.now;
        }))
WriteOutcome w rows (err e, rows') = (e ≡ value_error) × (rows' ≡ rows)

insert_revision-WriteOutcome :
    (w : SettingsWrite) (id : String) (rows : List SettingsRow)
    → normalize_settings_scope_id w.scope w.scope_id ≡ some id
    → current_revision (latest w.scope id rows) ≡ w.expected_revision
    → WriteOutcome w rows (insert_revision (row_of w id (w.expected_revision + 1)) rows)
unfolding insert_revision settings_revision_from_row get_settings
insert_revision-WriteOutcome w id rows normal current =
    let row = row_of w id (w.expected_revision + 1) in
    elim (Bool-cases (clashes row rows)) [
      | inl e ↦ rw e (refl, refl)
      | inr e ↦ rw e (
        refl,
        rw (normal, get_settings)
            (rw
              (latest-append w.scope id rows row
                (ground (arith, scope_eq_refl w.scope, str_eq_refl id)) (omega (arith, current)))
              (unfold snapshot in refl)),
      )
    ]

write_at-WriteOutcome :
    (w : SettingsWrite) (o : Option String) (rows : List SettingsRow)
    → normalize_settings_scope_id w.scope w.scope_id ≡ o
    → WriteOutcome w rows (write_at w o rows rows)
unfolding write_at insert_if
write_at-WriteOutcome w none rows normal = (refl, refl)
write_at-WriteOutcome w (some id) rows normal =
    elim (Bool-cases (current_revision (latest w.scope id rows) == w.expected_revision)) [
      | inl same ↦
          let current : current_revision (latest w.scope id rows) ≡ w.expected_revision =
            ground (arith, same) in
          rw same (rw current (insert_revision-WriteOutcome w id rows normal current))
      | inr other ↦ rw other (refl, refl)
    ]

-- A write that no other write comes between either gives the revision after the expected one,
-- which `get_settings` then reads with the new settings, or raises a ValueError and changes nothing.
pub write_settings_revision_lem :
    (w : SettingsWrite) (rows : List SettingsRow)
    → WriteOutcome w rows (write_settings_revision w rows rows)
unfolding write_settings_revision
write_settings_revision_lem w rows =
    write_at-WriteOutcome w (normalize_settings_scope_id w.scope w.scope_id) rows refl

-- An inserted row stands at the end.
insert_if-ok :
    (b : Bool) (row : SettingsRow) (rows : List SettingsRow) (first : SettingsRevision)
    → (insert_if b row rows).0 ≡ ok first
    → (insert_if b row rows).1 ≡ rows ++ row ∷ []
unfolding insert_if insert_revision
insert_if-ok true row rows first h = elim (Bool-cases (clashes row rows)) [
  | inl e ↦ cc (rw e at h)
  | inr e ↦ rw e refl
]
insert_if-ok false row rows first h = cc h

insert_if-second :
    (b : Bool) (new row : SettingsRow) (rows : List SettingsRow)
    → in_scope new.scope new.scope_id row ≡ true
    → row.revision ≡ new.revision
    → insert_if b new (rows ++ row ∷ []) ≡ (err value_error, rows ++ row ∷ [])
unfolding insert_if insert_revision
insert_if-second true new row rows here same = rw (clashes-append new row rows here same) refl
insert_if-second false new row rows here same = refl

write_at-second :
    (w v : SettingsWrite) (o : Option String) (seen rows : List SettingsRow)
    (first : SettingsRevision)
    → v.scope ≡ w.scope
    → (write_at w o seen rows).0 ≡ ok first
    → write_at v o seen (write_at w o seen rows).1 ≡ (err value_error, (write_at w o seen rows).1)
unfolding write_at
write_at-second w v none seen rows first same h = refl
write_at-second w v (some id) seen rows first same h = rw (insert_if-ok _ _ rows first h) (
    insert_if-second _ _ _ rows (rw same (ground (arith, scope_eq_refl w.scope, str_eq_refl id)))
      (rw same refl))

normalize_cong :
    (s t : SettingScope) (a b : Option String)
    → s ≡ t
    → a ≡ b
    → normalize_settings_scope_id s a ≡ normalize_settings_scope_id t b
normalize_cong s t a b e f = rw e (rw f refl)

-- Of two writers that read the same revision, the one that commits second is refused: it raises a
-- ValueError and changes nothing, so that the first one's settings are not lost.
pub write_settings_revision-second :
    (w v : SettingsWrite) (seen rows : List SettingsRow) (first : SettingsRevision)
    → v.scope ≡ w.scope
    → v.scope_id ≡ w.scope_id
    → (write_settings_revision w seen rows).0 ≡ ok first
    → write_settings_revision v seen (write_settings_revision w seen rows).1
      ≡ (err value_error, (write_settings_revision w seen rows).1)
unfolding write_settings_revision
write_settings_revision-second w v seen rows first same_scope same_id written =
    ap (λ o. write_at v o seen (write_settings_revision w seen rows).1)
      (normalize_cong v.scope w.scope v.scope_id w.scope_id same_scope same_id)
    ∙ write_at-second w v (normalize_settings_scope_id w.scope w.scope_id) seen rows first
        same_scope written
