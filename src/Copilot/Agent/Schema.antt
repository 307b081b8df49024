-- ===== src/Copilot/Agent/Schema.antt =====
-- `findForbiddenIdentityKey` of copilot/kernel/skill-registry.ts. A JSON schema is what the search
-- reads of it; a missing part is an empty one. What stands under other keywords is left out.
use newbie_modules.Common.{
  String, Bool, true, false, ◌≡◌, refl, ap, ◌∙◌, Option, none, some, List, [], ◌∷◌, map, any,
  if◌then◌else◌,
}
use newbie_modules.Common.Texts.{units, text_eq, lower}

mutual
  pub data Schema : Type 0 where
    no_object : Schema
    node :
        (is_object : Bool) (properties : Fields) (items : Schema) (any_of all_of one_of : Schemas)
        → Schema

  pub data Fields : Type 0 where
    no_fields : Fields
    field : (key : String) (child : Schema) (rest : Fields) → Fields

  pub data Schemas : Type 0 where
    no_schemas : Schemas
    also : (child : Schema) (rest : Schemas) → Schemas

abbrev pub forbidden_identity_keys : List String
forbidden_identity_keys = "userid" ∷ "chatid" ∷ "conversationid" ∷ "requestid" ∷ []

-- `FORBIDDEN_IDENTITY_KEYS.has(key.toLowerCase())`; no other letter goes to one of these in lower case.
unfoldable pub is_identity_key : String → Bool
is_identity_key key = any (λ k. text_eq (units k) (map lower (units key))) forbidden_identity_keys

abbrev pub first_of : Option String → Option String → Option String
first_of none found = found
first_of (some key) found = some key

unfoldable mutual
  pub find_forbidden_identity_key : Schema → Option String
  find_forbidden_identity_key no_object = none
  find_forbidden_identity_key (node is_object properties items any_of all_of one_of) =
      let in_items = find_forbidden_identity_key items in
      let in_any = find_in_schemas any_of in
      let in_all = find_in_schemas all_of in
      let in_one = find_in_schemas one_of in
      first_of (if is_object then find_in_fields properties else none)
        (first_of in_items (first_of in_any (first_of in_all in_one)))

  pub find_in_fields : Fields → Option String
  find_in_fields no_fields = none
  find_in_fields (field key child rest) =
      let nested = find_forbidden_identity_key child in
      let later = find_in_fields rest in
      if is_identity_key key then some key else first_of nested later

  pub find_in_schemas : Schemas → Option String
  find_in_schemas no_schemas = none
  find_in_schemas (also child rest) =
      let found = find_forbidden_identity_key child in
      let later = find_in_schemas rest in first_of found later

-- A property of this name is declared somewhere in the schema.
mutual
  pub data Declares (key : String) : Schema → Type 0 where
    in_properties :
        {ps : Fields} {i : Schema} {a b c : Schemas}
        → DeclaresField key ps
        → Declares key (node true ps i a b c)
    in_items :
        {o : Bool} {ps : Fields} {i : Schema} {a b c : Schemas}
        → Declares key i
        → Declares key (node o ps i a b c)
    in_any_of :
        {o : Bool} {ps : Fields} {i : Schema} {a b c : Schemas}
        → DeclaresOne key a
        → Declares key (node o ps i a b c)
    in_all_of :
        {o : Bool} {ps : Fields} {i : Schema} {a b c : Schemas}
        → DeclaresOne key b
        → Declares key (node o ps i a b c)
    in_one_of :
        {o : Bool} {ps : Fields} {i : Schema} {a b c : Schemas}
        → DeclaresOne key c
        → Declares key (node o ps i a b c)

  pub data DeclaresField (key : String) : Fields → Type 0 where
    this_field :
        {name : String} {child : Schema} {rest : Fields}
        → key ≡ name
        → DeclaresField key (field name child rest)
    nested_field :
        {name : String} {child : Schema} {rest : Fields}
        → Declares key child
        → DeclaresField key (field name child rest)
    later_field :
        {name : String} {child : Schema} {rest : Fields}
        → DeclaresField key rest
        → DeclaresField key (field name child rest)

  pub data DeclaresOne (key : String) : Schemas → Type 0 where
    this_schema :
        {child : Schema} {rest : Schemas} → Declares key child → DeclaresOne key (also child rest)
    later_schema :
        {child : Schema} {rest : Schemas} → DeclaresOne key rest → DeclaresOne key (also child rest)

first_of-none : (a b : Option String) → first_of a b ≡ none → (a ≡ none) × (b ≡ none)
first_of-none none b h = (refl, h)
first_of-none (some k) b h = absurd (cc h)

field_none :
    (is_it : Bool) (key : String) (r : Option String)
    → (if is_it then some key else r) ≡ none
    → (is_it ≡ false) × (r ≡ none)
field_none true key r h = absurd (cc h)
field_none false key r h = (refl, h)

-- What the search found nothing in.
record NoneIn (o : Bool) (ps : Fields) (i : Schema) (a b c : Schemas) : Type 0 where
  pub properties : (if o then find_in_fields ps else none) ≡ none
  pub items : find_forbidden_identity_key i ≡ none
  pub any_of : find_in_schemas a ≡ none
  pub all_of : find_in_schemas b ≡ none
  pub one_of : find_in_schemas c ≡ none

node-NoneIn :
    (o : Bool) (ps : Fields) (i : Schema) (a b c : Schemas)
    → find_forbidden_identity_key (node o ps i a b c) ≡ none
    → NoneIn o ps i a b c
unfolding find_forbidden_identity_key
node-NoneIn o ps i a b c h =
    let (hp, h1) = first_of-none (if o then find_in_fields ps else none) _ h in
    let (hi, h2) = first_of-none (find_forbidden_identity_key i) _ h1 in
    let (ha, h3) = first_of-none (find_in_schemas a) _ h2 in
    let (hb, hc) = first_of-none (find_in_schemas b) (find_in_schemas c) h3 in
    record { properties = hp; items = hi; any_of = ha; all_of = hb; one_of = hc }

-- A schema in which the search finds nothing declares no identity field.
mutual
  unfolding find_forbidden_identity_key

  pub find_forbidden_identity_key-none :
      (key : String) (s : Schema)
      → find_forbidden_identity_key s ≡ none
      → Declares key s
      → is_identity_key key ≡ false
  find_forbidden_identity_key-none key no_object h d = elim d [ ]
  find_forbidden_identity_key-none key (node true ps i a b c) h (in_properties d) =
      find_in_fields-none key ps (node-NoneIn true ps i a b c h).properties d
  find_forbidden_identity_key-none key (node o ps i a b c) h (in_items d) =
      find_forbidden_identity_key-none key i (node-NoneIn o ps i a b c h).items d
  find_forbidden_identity_key-none key (node o ps i a b c) h (in_any_of d) =
      find_in_schemas-none key a (node-NoneIn o ps i a b c h).any_of d
  find_forbidden_identity_key-none key (node o ps i a b c) h (in_all_of d) =
      find_in_schemas-none key b (node-NoneIn o ps i a b c h).all_of d
  find_forbidden_identity_key-none key (node o ps i a b c) h (in_one_of d) =
      find_in_schemas-none key c (node-NoneIn o ps i a b c h).one_of d

  find_in_fields-none :
      (key : String) (fs : Fields)
      → find_in_fields fs ≡ none
      → DeclaresField key fs
      → is_identity_key key ≡ false
  find_in_fields-none key no_fields h d = elim d [ ]
  find_in_fields-none key (field name child rest) h (this_field e) =
      ap is_identity_key e ∙ (field_none (is_identity_key name) name _ h).0
  find_in_fields-none key (field name child rest) h (nested_field d) =
      find_forbidden_identity_key-none key child
        (first_of-none (find_forbidden_identity_key child) _
          (field_none (is_identity_key name) name _ h).1).0
        d
  find_in_fields-none key (field name child rest) h (later_field d) =
      find_in_fields-none key rest
        (first_of-none (find_forbidden_identity_key child) _
          (field_none (is_identity_key name) name _ h).1).1
        d

  find_in_schemas-none :
      (key : String) (ss : Schemas)
      → find_in_schemas ss ≡ none
      → DeclaresOne key ss
      → is_identity_key key ≡ false
  find_in_schemas-none key no_schemas h d = elim d [ ]
  find_in_schemas-none key (also child rest) h (this_schema d) =
      find_forbidden_identity_key-none key child
        (first_of-none (find_forbidden_identity_key child) _ h).0 d
  find_in_schemas-none key (also child rest) h (later_schema d) =
      find_in_schemas-none key rest (first_of-none (find_forbidden_identity_key child) _ h).1 d
