-- ===== src/Copilot/Agent/Admission.antt =====
-- `register` of copilot/kernel/skill-registry.ts, and what every registered skill satisfies.
use newbie_modules.Common.{
  ℕ, ◌≡◌, refl, sym, ap, ◌∙◌, subst, String, Bool, true, false, ◌&&◌, ◌||◌, Option, none, some,
  List, [], ◌∷◌, ◌++◌, all, length, leb, ◌==◌, if◌then◌else◌, str_eq, Dict, get, set, get-set,
  eq_iff, Bool-cases, Option-cases, inl, inr,
}
use newbie_modules.Common.Texts.{units, is_digit}
use newbie_modules.Copilot.Agent.Schema.{
  Schema, Declares, is_identity_key, find_forbidden_identity_key, find_forbidden_identity_key-none,
}
use newbie_modules.Copilot.Agent.Registry.{Transport, SkillDefinition}

pub data Rejection : Type 0 where
  invalid_name duplicate_name description_required transport_required schema_unconvertible :
      Rejection
  identity_field : (key : String) → Rejection

-- The skills by name, and the rejected registrations.
pub record SkillRegistry : Type 0 where
  pub skills : Dict SkillDefinition
  pub rejected : List (String × Rejection)

abbrev pub is_lower : ℕ → Bool
is_lower c = leb b'a' c && leb c b'z'

-- `SKILL_NAME_PATTERN`
abbrev pub matches_name_pattern : List ℕ → Bool
matches_name_pattern [] = false
matches_name_pattern (c ∷ cs) =
    is_lower c && (all (λ d. is_lower d || (is_digit d || d == b'_')) cs && leb (length cs) 63)

-- The white space and line terminators that `trim` removes.
abbrev pub is_white : ℕ → Bool
is_white c =
    (leb 9 c && leb c 13)
    || (c == 32
        || (c == 160
            || (c == 5760
                || ((leb 8192 c && leb c 8202)
                    || (c == 8232
                        || (c == 8233
                            || (c == 8239 || (c == 8287 || (c == 12288 || c == 65279)))))))))

abbrev pub has_transports : List Transport → Bool
has_transports [] = false
has_transports (t ∷ ts) = true

abbrev pub schema_problem : Option Schema → Option Rejection
schema_problem none = some schema_unconvertible
schema_problem (some schema) = elim (find_forbidden_identity_key schema) [
  | some key ↦ some (identity_field key)
  | none ↦ none
]

unfoldable pub registration_problem : Dict SkillDefinition → SkillDefinition → Option Rejection
registration_problem skills d =
    if matches_name_pattern (units d.name)
    then elim (get d.name skills) [
      | some registered ↦ some duplicate_name
      | none ↦
          if all is_white (units d.description)
          then some description_required
          else if has_transports d.transports
          then schema_problem d.json_schema
          else some transport_required
    ]
    else some invalid_name

unfoldable pub register : SkillDefinition → SkillRegistry → SkillRegistry × Bool
register d r = elim (registration_problem r.skills d) [
  | some reason ↦ (record r { rejected = r.rejected ++ (d.name, reason) ∷ [] }, false)
  | none ↦ (record r { skills = set d.name d r.skills }, true)
]

-- The constructor's loop over the definitions.
unfoldable pub register_all : List SkillDefinition → SkillRegistry → SkillRegistry
register_all [] r = r
register_all (d ∷ ds) r = register_all ds (register d r).0

-- What a definition needs to be registered.
pub record IsAdmitted (name : String) (d : SkillDefinition) : Type 0 where
  pub named : d.name ≡ name
  pub pattern : matches_name_pattern (units name) ≡ true
  pub described : all is_white (units d.description) ≡ false
  pub offered : has_transports d.transports ≡ true
  pub schema : Schema
  pub converted : d.json_schema ≡ some schema
  pub no_identity : (key : String) → Declares key schema → is_identity_key key ≡ false

abbrev pub AreAdmitted : Dict SkillDefinition → Type 0
AreAdmitted skills =
    (name : String) (d : SkillDefinition) → get name skills ≡ some d → IsAdmitted name d

schema_clear :
    (d : SkillDefinition) (o : Option Schema)
    → d.json_schema ≡ o
    → schema_problem o ≡ none
    → (schema : Schema) × ((d.json_schema ≡ some schema)
        × (find_forbidden_identity_key schema ≡ none))
schema_clear d none e h = absurd (cc h)
schema_clear d (some schema) e h = elim (Option-cases (find_forbidden_identity_key schema)) [
  | inl clear ↦ (schema, (e, clear))
  | inr (key, found) ↦ absurd (cc (rw (schema_problem, found) at h))
]

registration_problem-none :
    (skills : Dict SkillDefinition) (d : SkillDefinition)
    → registration_problem skills d ≡ none
    → IsAdmitted d.name d × (get d.name skills ≡ none)
unfolding registration_problem
registration_problem-none skills d h = elim (Bool-cases (matches_name_pattern (units d.name))) [
  | inr bad ↦ absurd (cc (rw (registration_problem, bad) at h))
  | inl pattern ↦ elim (Option-cases (get d.name skills)) [
    | inr (other, taken) ↦ absurd (cc (rw (registration_problem, pattern, taken) at h))
    | inl free ↦ elim (Bool-cases (all is_white (units d.description))) [
      | inl blank ↦ absurd (cc (rw (registration_problem, pattern, free, blank) at h))
      | inr described ↦ elim (Bool-cases (has_transports d.transports)) [
        | inr nowhere ↦
            absurd (cc (rw (registration_problem, pattern, free, described, nowhere) at h))
        | inl offered ↦
            let clear =
              schema_clear d d.json_schema refl
                (rw (registration_problem, pattern, free, described, offered) at h) in
            (
              record {
                named = refl;
                pattern = pattern;
                described = described;
                offered = offered;
                schema = clear.0;
                converted = clear.1.0;
                no_identity = λ key. find_forbidden_identity_key-none key clear.0 clear.1.1;
              },
              free,
            )
      ]
    ]
  ]
]

register-AreAdmitted :
    (d : SkillDefinition) (r : SkillRegistry)
    → AreAdmitted r.skills
    → AreAdmitted (register d r).0.skills
unfolding register
register-AreAdmitted d r known = elim (Option-cases (registration_problem r.skills d)) [
  | inr (reason, bad) ↦ rw (register, bad) known
  | inl good ↦
      rw (register, good)
        (λ name e h.
          let found = get-set d.name name d r.skills in
          elim (Bool-cases (str_eq d.name name)) [
            | inr other ↦ known name e (sym (rw other at found) ∙ h)
            | inl same ↦
                let is : d ≡ e = cc (sym (rw same at found) ∙ h) in
                subst (λ (x : SkillDefinition). IsAdmitted name x) is
                  (subst (λ n. IsAdmitted n d) ((eq_iff d.name name).0 same)
                    (registration_problem-none r.skills d good).0)
          ])
]

register-get :
    (d : SkillDefinition) (r : SkillRegistry) (name : String) (e : SkillDefinition)
    → get name r.skills ≡ some e
    → get name (register d r).0.skills ≡ some e
unfolding register
register-get d r name e h = elim (Option-cases (registration_problem r.skills d)) [
  | inr (reason, bad) ↦ rw (register, bad) h
  | inl good ↦
      let found = get-set d.name name d r.skills in
      elim (Bool-cases (str_eq d.name name)) [
        | inr other ↦ rw (register, good) ((rw other at found) ∙ h)
        | inl same ↦
            let free = (registration_problem-none r.skills d good).1 in
            absurd (cc (sym free ∙ ap (λ n. get n r.skills) ((eq_iff d.name name).0 same) ∙ h))
      ]
]

-- Every skill of a registry has a name of the pattern, a description, a transport and a schema that
-- declares no identity field, at any depth under properties, items and combinators, if the skills
-- that the registry starts with have; and no registration replaces a skill.
pub register_all-AreAdmitted :
    (ds : List SkillDefinition) (r : SkillRegistry)
    → AreAdmitted r.skills
    → AreAdmitted (register_all ds r).skills
      × ((name : String) (e : SkillDefinition)
          → get name r.skills ≡ some e
          → get name (register_all ds r).skills ≡ some e)
unfolding register_all
register_all-AreAdmitted [] r known = (known, λ name e h. h)
register_all-AreAdmitted (d ∷ ds) r known =
    let (admitted, kept) =
      register_all-AreAdmitted ds (register d r).0 (register-AreAdmitted d r known) in
    (admitted, λ name e h. kept name e (register-get d r name e h))
