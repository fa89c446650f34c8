-- ===== src/Worker/Pipeline/Config.antt =====
-- How apps/worker/worker/pipeline.py reads the configuration of a job: the budget of attempts and
-- the repairs that it allows.
use Prim.Native.Nat.{min, max}
use ai_jsunpack.Prelude.{
  ℕ, String, Bool, true, false, Option, none, some, List, [], ◌∷◌, if◌then◌else◌, not, ◌&&◌, str_eq,
  filter, is_some, given_or, contains,
}
use ai_jsunpack.Json.{
  ℤ, pos, negsuc, Json, bool, num, real, text, arr, obj, Items, nil, cons, Fields, get, set,
  dict_or_empty,
}

-- Python's `int` of a text, which is not a definition of this repository.
abbrev pub IntOfText : Type 0
IntOfText = String → Option ℤ

-- `int(value)`; `none` is a TypeError or a ValueError. A missing value is None.
unfoldable pub to_int : IntOfText → Option Json → Option ℤ
to_int int (some (num z)) = some z
to_int int (some (real z)) = some z
to_int int (some (bool true)) = some (pos 1)
to_int int (some (bool false)) = some (pos 0)
to_int int (some (text s)) = int s
to_int int _ = none

-- `max(minimum, min(parsed, maximum))`
unfoldable pub clamp : ℕ → ℕ → ℤ → ℕ
clamp minimum maximum (pos n) = max minimum (min n maximum)
clamp minimum maximum (negsuc _) = minimum

unfoldable pub int_config : IntOfText → Option Json → ℤ → ℕ → ℕ → ℕ
unfolding to_int clamp
int_config int value default minimum maximum =
    clamp minimum maximum (given_or (to_int int value) default)

unfoldable pub bool_config : Option Json → Bool → Bool
bool_config (some (bool b)) default = b
bool_config _ default = default

-- `fields.get(key, default)`
unfoldable pub get_or : String → Option Json → Fields → Option Json
unfolding get
get_or key default fields = elim (get key fields) [ none ↦ default | some v ↦ some v ]

-- `reviewFix` and the two parts of it, as dicts
unfoldable pub review_fix_of : Fields → Fields
unfolding get dict_or_empty
review_fix_of config = dict_or_empty (get "reviewFix" config)

unfoldable pub part_of : String → Fields → Fields
unfolding get dict_or_empty
part_of key fields = dict_or_empty (get key fields)

-- The budget under `runtimeCompare`, if that is a dict, before those under `reviewFix`.
unfoldable pub runtime_compare_budget : Fields → Option Json
unfolding get get_or review_fix_of part_of
runtime_compare_budget config =
    let fallback =
      get_or "maxAttempts" (get_or "maxAttempts" (some (num (pos 2))) (review_fix_of config))
        (part_of "runtimeCompare" (review_fix_of config)) in
    elim (get "runtimeCompare" config) [
      | some (obj fields) ↦ get_or "maxAttempts" fallback fields
      | _ ↦ fallback
    ]

unfoldable pub runtime_compare_max_attempts : IntOfText → Option Fields → ℕ
unfolding runtime_compare_budget to_int clamp
runtime_compare_max_attempts int none = 2
runtime_compare_max_attempts int (some config) =
    clamp 1 5 (given_or (to_int int (runtime_compare_budget config)) (pos 2))

-- `runtimeCompare`, with the scenario of the job where it names none, or else that scenario.
unfoldable pub runtime_compare_config : Option Fields → Option Json
unfolding get set
runtime_compare_config none = none
runtime_compare_config (some config) = elim (get "runtimeCompare" config) [
  | some (obj fields) ↦ some (obj (with_scenario fields (get "runtimeScenario" config)))
  | _ ↦ only_dict (get "runtimeScenario" config)
]
  where
    only_dict : Option Json → Option Json
    only_dict (some (obj fs)) = some (obj fs)
    only_dict _ = none

    with_scenario : Fields → Option Json → Fields
    with_scenario fields (some (obj fs)) =
        if not (is_some (get "scenarios" fields)) && not (is_some (get "runtimeScenarios" fields))
        then set "runtimeScenario" (obj fs) fields
        else fields
    with_scenario fields _ = fields

-- The actions that the pipeline can apply by itself.
abbrev pub automatic_actions : List String
automatic_actions =
    "add_package_script" ∷ "replace_package_script" ∷ "mirror_original_static_entry"
    ∷ "apply_symbol_rename_map" ∷ []

-- `[item for item in value if item in {...}]`; `none` is the TypeError of an item that has no hash.
unfoldable pub known_actions : Items → Option (List String)
known_actions nil = some []
known_actions (cons (text s) rest) = elim (known_actions rest) [
  | none ↦ none
  | some more ↦ some (if contains s automatic_actions then s ∷ more else more)
]
known_actions (cons (arr _) rest) = none
known_actions (cons (obj _) rest) = none
known_actions (cons _ rest) = known_actions rest

-- `list(dict.fromkeys(items))`: the first of equal texts stays.
unfoldable pub unique_ids : List String → List String
unique_ids [] = []
unique_ids (x ∷ xs) = x ∷ filter (λ y. not (str_eq y x)) (unique_ids xs)

-- The first of the dicts that has a list decides.
unfoldable pub review_fix_allowed_actions : List Fields → Option (List String)
unfolding known_actions unique_ids get
review_fix_allowed_actions [] = some automatic_actions
review_fix_allowed_actions (config ∷ rest) = elim (get "allowedRepairActions" config) [
  | some (arr items) ↦ elim (known_actions items) [
    | none ↦ none
    | some actions ↦ some (unique_ids actions)
  ]
  | _ ↦ review_fix_allowed_actions rest
]

pub record StagePolicy : Type 0 where
  pub max_attempts : ℕ
  pub allow_low_risk_repairs : Bool
  pub allowed_repair_actions : List String

-- The dict of `_review_fix_policy`, less its two constant texts.
pub record ReviewFixPolicy : Type 0 where
  pub allow_low_risk_repairs : Bool
  pub allowed_repair_actions : List String
  pub build_validation : StagePolicy
  pub runtime_compare : StagePolicy
  pub review_gate : Fields

-- The policy, once its three lists of actions are known; `none` of them is a TypeError.
unfoldable pub policy_with :
    IntOfText
    → Fields
    → ℕ
    → Option (List String)
    → Option (List String)
    → Option (List String)
    → Option ReviewFixPolicy
unfolding review_fix_of part_of get get_or bool_config int_config dict_or_empty
policy_with int config runtime_attempts (some actions) (some build) (some runtime) =
    let review_fix = review_fix_of config in
    let build_review_fix = part_of "buildValidation" review_fix in
    let runtime_review_fix = part_of "runtimeCompare" review_fix in
    let build_validation = part_of "buildValidation" config in
    let allow_low_risk = bool_config (get "allowLowRiskRepairs" review_fix) true in
    some (record {
      allow_low_risk_repairs = allow_low_risk;
      allowed_repair_actions = actions;
      build_validation = record {
        max_attempts =
            int_config int
              (get_or "maxAttempts"
                (get_or "maxAttempts" (get "maxAttempts" review_fix) build_review_fix)
                build_validation)
              (pos 2) 1 5;
        allow_low_risk_repairs =
            bool_config
              (get_or "allowLowRiskRepairs"
                (get_or "allowLowRiskRepairs" (some (bool allow_low_risk)) build_review_fix)
                build_validation)
              true;
        allowed_repair_actions = build;
      };
      runtime_compare = record {
        max_attempts = runtime_attempts;
        allow_low_risk_repairs =
            bool_config
              (get_or "allowLowRiskRepairs" (some (bool allow_low_risk)) runtime_review_fix) true;
        allowed_repair_actions = runtime;
      };
      review_gate = part_of "reviewGate" (part_of "runtimeCompare" config);
    })
policy_with int config runtime_attempts none _ _ = none
policy_with int config runtime_attempts (some _) none _ = none
policy_with int config runtime_attempts (some _) (some _) none = none

-- `job_config` is a dict, or None, which reads like an empty one.
unfoldable pub review_fix_policy : IntOfText → Fields → ℕ → Option ReviewFixPolicy
unfolding policy_with review_fix_allowed_actions review_fix_of part_of
review_fix_policy int config runtime_attempts =
    let review_fix = review_fix_of config in
    let build_review_fix = part_of "buildValidation" review_fix in
    let runtime_review_fix = part_of "runtimeCompare" review_fix in
    let build_validation = part_of "buildValidation" config in
    policy_with int config runtime_attempts
      (review_fix_allowed_actions
        (review_fix ∷ build_review_fix ∷ runtime_review_fix ∷ build_validation ∷ []))
      (review_fix_allowed_actions (review_fix ∷ build_review_fix ∷ build_validation ∷ []))
      (review_fix_allowed_actions (review_fix ∷ runtime_review_fix ∷ []))
