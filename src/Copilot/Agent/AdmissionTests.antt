-- ===== src/Copilot/Agent/AdmissionTests.antt =====
-- Registrations of concrete skills.
use newbie_modules.Common.{◌≡◌, refl, String, true, some, [], ◌∷◌, get, set}
use newbie_modules.Copilot.Agent.Schema.{
  no_object, node, no_fields, field, no_schemas, is_identity_key, find_forbidden_identity_key,
}
use newbie_modules.Copilot.Agent.Registry.{SkillDefinition}
use newbie_modules.Copilot.Agent.Admission.{
  SkillRegistry, identity_field, AreAdmitted, registration_problem, register, register_all,
  register_all-AreAdmitted,
}
use newbie_modules.Copilot.Agent.Tests.{deletion}

abbrev empty : SkillRegistry
empty = record { skills = []; rejected = [] }

-- It asks for the user in a nested object.
abbrev intruder : SkillDefinition
intruder = record deletion {
  name = "spy";
  json_schema = some (
      node true
        (field "filter"
          (node true (field "userId" no_object no_fields) no_object no_schemas no_schemas
            no_schemas)
          no_fields)
        no_object no_schemas no_schemas no_schemas);
}

rejects_intruder :
    (register_all (deletion ∷ intruder ∷ []) empty).rejected ≡ ("spy", identity_field "userId") ∷ []
unfolding register_all register registration_problem find_forbidden_identity_key is_identity_key get
    set
rejects_intruder = refl

none-AreAdmitted : AreAdmitted []
unfolding get
none-AreAdmitted name d h = absurd (cc h)

register_all-AreAdmitted_example :
    AreAdmitted (register_all (deletion ∷ intruder ∷ []) empty).skills
    × ((name : String) (e : SkillDefinition)
        → get name [] ≡ some e
        → get name (register_all (deletion ∷ intruder ∷ []) empty).skills ≡ some e)
register_all-AreAdmitted_example =
    register_all-AreAdmitted (deletion ∷ intruder ∷ []) empty none-AreAdmitted
