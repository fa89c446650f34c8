-- ===== src/Crew/Tests/Conflicts.antt =====
-- Conflicts between the notes of the specialists.
use ai_jsunpack.Prelude.{String, ◌≡◌, refl, true, Option, none, some, [], ◌∷◌}
use ai_jsunpack.Crew.Conflicts.{warning, InferenceNote, conflicts_of}
use ai_jsunpack.Crew.Conflicts.Clashes.{
  here, there, any, is_clash, clash_key, conflicts_of-IsReported,
}

abbrev note : String → String → Option String → Option String → String → InferenceNote
note agent type target value ref = record {
  type = type;
  target = target;
  value = value;
  agent = agent;
  evidence_refs = ref ∷ [];
}

-- Two agents with different names for one target
naming_notes_conflict :
    conflicts_of (
      note "TypeAgent" "name" (some "f") (some "load") "a2"
      ∷ note "NamingAgent" "name" (some "f") (some "save") "a1"
      ∷ [])
    ≡ record {
      key = "conflict:name:f";
      severity = warning;
      agents = "NamingAgent" ∷ "TypeAgent" ∷ [];
      evidence_refs = "a1" ∷ "a2" ∷ [];
    }
      ∷ []
unfolding conflicts_of
naming_notes_conflict = refl

-- One agent alone is reported for a target that it both removes and names.
one_agent_conflicts :
    conflicts_of (
      note "DeadCodeAgent" "dead_code" (some "f") (some "unused") "a1"
      ∷ note "DeadCodeAgent" "name" (some "f") none "a1"
      ∷ [])
    ≡ record {
      key = "conflict:retention:f";
      severity = warning;
      agents = "DeadCodeAgent" ∷ [];
      evidence_refs = "a1" ∷ [];
    }
      ∷ []
unfolding conflicts_of
one_agent_conflicts = refl

abbrev type_note : InferenceNote
type_note = note "TypeAgent" "name" (some "f") (some "load") "a2"

abbrev naming_note : InferenceNote
naming_note = note "NamingAgent" "name" (some "f") (some "save") "a1"

abbrev unscoped_note : InferenceNote
unscoped_note = note "TypeAgent" "name" none (some "load") "a2"

conflicts_of-IsReported_example :
    any
      (is_clash (clash_key "name" "f") "TypeAgent" "NamingAgent")
      (conflicts_of (unscoped_note ∷ type_note ∷ naming_note ∷ []))
    ≡ true
conflicts_of-IsReported_example =
    conflicts_of-IsReported type_note naming_note (unscoped_note ∷ type_note ∷ naming_note ∷ []) "f"
      "load" "save" (there here) (there (there here)) refl refl refl refl refl refl refl
