-- ===== src/Crew/Tests/Plan.antt =====
-- The plan of the crew that `build_specs` lists.
use ai_jsunpack.Prelude.{◌≡◌, refl, String, true, [], map, contains}
use ai_jsunpack.Crew.Specs.{build_specs}
use ai_jsunpack.Crew.Plan.{
  planned, stage_names, stages_of, build_stage_order, name_of, validate_specs, check_specs,
}
use ai_jsunpack.Crew.Plan.Visits.{validate_specs-check_specs}
use ai_jsunpack.Crew.Plan.Stages.{AreOrdered, agents_of, build_stage_order-AreOrdered}

pub build_stage_order-build_specs :
    build_stage_order build_specs ≡ planned (stages_of build_specs stage_names)
unfolding build_stage_order build_specs
build_stage_order-build_specs = refl

build_stage_order-AreOrdered_example :
    AreOrdered [] (stages_of build_specs stage_names)
    × ((name : String)
        → contains name (map name_of build_specs) ≡ true
        → contains name (agents_of (stages_of build_specs stage_names)) ≡ true)
build_stage_order-AreOrdered_example =
    build_stage_order-AreOrdered build_specs (stages_of build_specs stage_names)
      build_stage_order-build_specs

validate_specs-check_specs_example :
    validate_specs build_specs stage_names ≡ check_specs build_specs stage_names
validate_specs-check_specs_example = validate_specs-check_specs build_specs stage_names
