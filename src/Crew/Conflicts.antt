-- ===== src/Crew/Conflicts.antt =====
-- `CrewConflictDetector.detect` of apps/worker/worker/agent_runtime.py, over the records that it
-- makes of the inferences. The normalised text of a JSON value is a parameter, and so is the text of a
-- type; the summaries, which are texts, are left out, and `inferences` that is no list counts as empty.
pub mod Grouping
pub mod Clashes
use ai_jsunpack.Prelude.{
  String, text_append, Bool, true, false, not, ◌&&◌, Option, none, some, List, [], ◌∷◌, ◌++◌, map,
  if◌then◌else◌, ltb, str_eq, contains, filter, length, is_some,
}
use ai_jsunpack.Prelude.Sets.{sorted_set}
use ai_jsunpack.Json.{Json, Fields, end, get, Items, nil, cons, obj}
use ai_jsunpack.Crew.Executions.{
  ExecutionStatus, fail, AgentInferenceDraft, CrewAgentExecution, CrewStageExecution, has_status,
  status_of,
}
use ai_jsunpack.Crew.Budget.{list_of}

pub data Severity : Type 0 where
  warning info : Severity

pub record CrewConflictRecord : Type 0 where
  pub key : String
  pub severity : Severity
  pub agents : List String
  pub evidence_refs : List String

-- One entry of `records`
pub record InferenceNote : Type 0 where
  pub type : String
  pub target : Option String
  pub value : Option String
  pub agent : String
  pub evidence_refs : List String

-- `_normalized_optional`, and `str(raw.get("type") or inference.type)`
record Texts : Type 0 where
  pub normalized_optional : Option Json → Option String
  pub type_text : Option Json → String → String

-- The entry of an index, if it is a dict, and the empty dict otherwise
unfoldable raw_at : Option Items → Fields × Option Items
raw_at none = (end, none)
raw_at (some nil) = (end, none)
raw_at (some (cons (obj fields) rest)) = (fields, some rest)
raw_at (some (cons _ rest)) = (end, some rest)

unfoldable notes_of :
    Texts → CrewAgentExecution → List AgentInferenceDraft → Option Items → List InferenceNote
unfolding raw_at get
notes_of t e [] raws = []
notes_of t e (inference ∷ rest) raws =
    let (raw, more) = raw_at raws in
    record {
      type = t.type_text (get "type" raw) inference.type;
      target = t.normalized_optional (get "target" raw);
      value = t.normalized_optional (get "value" raw);
      agent = e.spec.name;
      evidence_refs = e.evidence_refs;
    }
    ∷ notes_of t e rest more

unfoldable all_notes : Texts → List CrewAgentExecution → List InferenceNote
unfolding notes_of get
all_notes t [] = []
all_notes t (e ∷ rest) =
    notes_of t e e.inferences (list_of (get "inferences" e.raw_output)) ++ all_notes t rest

-- `groups.setdefault(key, []).append(note)`; the keys stay in the order in which they came.
unfoldable pub add_note :
    String × String
    → InferenceNote
    → List ((String × String) × List InferenceNote)
    → List ((String × String) × List InferenceNote)
add_note (a, b) note [] = ((a, b), note ∷ []) ∷ []
add_note (a, b) note (((x, y), notes) ∷ rest) =
    let more = add_note (a, b) note rest in
    if str_eq a x && str_eq b y then ((x, y), notes ++ note ∷ []) ∷ rest else ((x, y), notes) ∷ more

abbrev pub Groups : Type 0
Groups = List ((String × String) × List InferenceNote)

-- The groups of the notes under the keys that they have
unfoldable pub group_by :
    (InferenceNote → Option (String × String)) → List InferenceNote → Groups → Groups
unfolding add_note
group_by key [] groups = groups
group_by key (note ∷ rest) groups = elim (key note) [
  | none ↦ group_by key rest groups
  | some k ↦ group_by key rest (add_note k note groups)
]

-- Keys of `targeted`, `unscoped` and `records_by_target`; a normalised target is not empty.
abbrev pub targeted_key : InferenceNote → Option (String × String)
targeted_key note = elim note.target [ none ↦ none | some t ↦ some (note.type, t) ]

abbrev unscoped_key : InferenceNote → Option (String × String)
unscoped_key note = if is_some note.target then none else some (note.type, "")

abbrev target_key : InferenceNote → Option (String × String)
target_key note = elim note.target [ none ↦ none | some t ↦ some (t, "") ]

abbrev pub agent_of : InferenceNote → String
agent_of note = note.agent

unfoldable pub agents_in : List InferenceNote → List String
unfolding sorted_set
agents_in notes = sorted_set (map agent_of notes)

unfoldable refs_of : List InferenceNote → List String
refs_of [] = []
refs_of (note ∷ rest) = note.evidence_refs ++ refs_of rest

-- `{record["value"] for record in grouped if record["value"] is not None}`
unfoldable pub values_of : List InferenceNote → List String
values_of [] = []
values_of (note ∷ rest) = elim note.value [ none ↦ values_of rest | some v ↦ v ∷ values_of rest ]

unfoldable pub targeted_conflict : (String × String) × List InferenceNote → List CrewConflictRecord
unfolding agents_in sorted_set values_of refs_of
targeted_conflict ((type, target), notes) =
    let name = text_append type (String.◌∷◌ ":" target) in
    let differ = ltb 1 (length (sorted_set (values_of notes))) in
    if ltb (length (agents_in notes)) 2
    then []
    else record {
      key = text_append (if differ then "conflict:" else "overlap:") name;
      severity = if differ then warning else info;
      agents = agents_in notes;
      evidence_refs = sorted_set (refs_of notes);
    }
      ∷ []

unfoldable unscoped_conflict : (String × String) × List InferenceNote → List CrewConflictRecord
unfolding agents_in sorted_set refs_of
unscoped_conflict ((type, _), notes) =
    if ltb 1 (length (agents_in notes))
    then record {
      key = text_append "overlap:" type;
      severity = info;
      agents = agents_in notes;
      evidence_refs = sorted_set (refs_of notes);
    }
      ∷ []
    else []

abbrev dead_values : List String
dead_values = "dead" ∷ "remove" ∷ "removed" ∷ "unused" ∷ "delete" ∷ "drop" ∷ []

abbrev is_dead_value : Option String → Bool
is_dead_value none = false
is_dead_value (some v) = contains v dead_values

unfoldable is_dead : InferenceNote → Bool
is_dead note = str_eq note.type "dead_code" && is_dead_value note.value

unfoldable is_retained : InferenceNote → Bool
is_retained note = not (str_eq note.type "dead_code")

abbrev is_filled : List InferenceNote → Bool
is_filled [] = false
is_filled (_ ∷ _) = true

unfoldable retention_conflict : (String × String) × List InferenceNote → List CrewConflictRecord
unfolding is_dead is_retained agents_in sorted_set refs_of
retention_conflict ((target, _), notes) =
    let dead = filter is_dead notes in
    let retained = filter is_retained notes in
    if is_filled dead && is_filled retained
    then record {
      key = text_append "conflict:retention:" target;
      severity = warning;
      agents = agents_in (dead ++ retained);
      evidence_refs = sorted_set (refs_of (dead ++ retained));
    }
      ∷ []
    else []

abbrev spec_name : CrewAgentExecution → String
spec_name e = e.spec.name

-- `"fail" in statuses and len(statuses) > 1`
unfoldable all_failed : List ExecutionStatus → Bool
all_failed [] = true
all_failed (fail ∷ rest) = all_failed rest
all_failed (_ ∷ rest) = false

unfoldable status_conflict : List CrewAgentExecution → List CrewConflictRecord
unfolding has_status all_failed
status_conflict executions =
    let statuses = map status_of executions in
    if has_status fail statuses && not (all_failed statuses)
    then record {
      key = "stage:status-divergence";
      severity = warning;
      agents = map spec_name executions;
      evidence_refs = [];
    }
      ∷ []
    else []

unfoldable pub concat_map :
    ((String × String) × List InferenceNote → List CrewConflictRecord)
    → Groups
    → List CrewConflictRecord
concat_map f [] = []
concat_map f (g ∷ rest) = f g ++ concat_map f rest

unfoldable pub conflicts_of : List InferenceNote → List CrewConflictRecord
unfolding group_by concat_map targeted_conflict unscoped_conflict retention_conflict
conflicts_of notes =
    concat_map targeted_conflict (group_by targeted_key notes [])
    ++ (concat_map unscoped_conflict (group_by unscoped_key notes [])
        ++ concat_map retention_conflict (group_by target_key notes []))

unfoldable detect : Texts → CrewStageExecution → List CrewConflictRecord
unfolding all_notes conflicts_of status_conflict
detect t stage =
    if str_eq stage.stage "specialists"
    then conflicts_of (all_notes t stage.agent_executions) ++ status_conflict stage.agent_executions
    else []
