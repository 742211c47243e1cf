-- ===== src/Redfish/Walk/Links.antt =====
-- The links of a resource, in the order in which a walk comes to them.
use i_drac_telemetry_referen.Common.{
  Bool, true, false, ◌≡◌, refl, sym, ap, ◌∙◌, Option, none, some, List, [], ◌∷◌, ◌++◌, String,
  if◌then◌else◌,
}
use i_drac_telemetry_referen.Common.Dict
use i_drac_telemetry_referen.Json.{
  Json, Items, Fields, null, bool, num, str, arr, obj, nil, cons, end, field,
}
use i_drac_telemetry_referen.Redfish.{
  RedfishPayload, Outcome, value, failed, panics, exits, ◌>>=◌, member, absent, elements_of,
}
use i_drac_telemetry_referen.Redfish.Walk.{
  Resources, link_or, visit_new, walk_link, walk_child, walk_object, walk_array, walk_values, walk,
}

abbrev text_link : Json → List String
text_link (str uri) = uri ∷ []
text_link j = []

abbrev IsText : Json → Type 0
IsText (str uri) = Unit
IsText j = ⊥

unfoldable mutual
  unfolding member

  -- An object with an "@odata.id" is a link; the links of any other are those of its members.
  pub links : Json → List String
  links (obj fields) = link_or (links_of fields) text_link (member fields "@odata.id")
  links (arr items) = links_in items
  links j = []

  pub links_of : Fields → List String
  links_of end = []
  links_of (field k j rest) = (if absent (member rest k) then links j else []) ++ links_of rest

  pub links_in : Items → List String
  links_in nil = []
  links_in (cons j rest) = links j ++ links_in rest

unfoldable mutual
  unfolding member

  -- Every "@odata.id" that the walk meets is a text.
  pub IsWalkable : Json → Type 0
  IsWalkable (obj fields) = link_or (AreWalkable fields) IsText (member fields "@odata.id")
  IsWalkable (arr items) = AllWalkable items
  IsWalkable j = Unit

  pub AreWalkable : Fields → Type 0
  AreWalkable end = Unit
  AreWalkable (field k j rest) = IsWalkable j × AreWalkable rest

  pub AllWalkable : Items → Type 0
  AllWalkable nil = Unit
  AllWalkable (cons j rest) = IsWalkable j × AllWalkable rest

module _ {ℓ} {A : Type ℓ} where
  then_value : (o : Outcome A) → (o >>= λ a. value a) ≡ o
  then_value (value a) = refl
  then_value failed = refl
  then_value panics = refl
  then_value exits = refl

  then_ext : (o : Outcome A) {f g : A → Outcome A} → ((a : A) → f a ≡ g a) → (o >>= f) ≡ (o >>= g)
  then_ext (value a) e = e a
  then_ext failed e = refl
  then_ext panics e = refl
  then_ext exits e = refl

  then_assoc : (o : Outcome A) (f g : A → Outcome A) → (o >>= f >>= g) ≡ (o >>= λ a. f a >>= g)
  then_assoc (value a) f g = refl
  then_assoc failed f g = refl
  then_assoc panics f g = refl
  then_assoc exits f g = refl

module _ (visit : String → Resources → Outcome Resources) where
  unfoldable pub visit_all : List String → Resources → Outcome Resources
  visit_all [] res = value res
  visit_all (u ∷ us) res = visit_new visit (Dict.get res u) u res >>= visit_all us

  -- Two parts of a walk, one after the other
  visit_all-append :
      (us vs : List String) (res : Resources)
      → visit_all (us ++ vs) res ≡ (visit_all us res >>= visit_all vs)
  unfolding visit_all
  visit_all-append [] vs res = refl
  visit_all-append (u ∷ us) vs res =
      let first = visit_new visit (Dict.get res u) u res in
      then_ext first (visit_all-append us vs) ∙ sym (then_assoc first (visit_all us) (visit_all vs))

  walk_then :
      {first second : Resources → Outcome Resources} (us vs : List String)
      → ((res : Resources) → first res ≡ visit_all us res)
      → ((res : Resources) → second res ≡ visit_all vs res)
      → (res : Resources) → (first res >>= second) ≡ visit_all (us ++ vs) res
  walk_then {first} {second} us vs e f res =
      ap (λ o. o >>= second) (e res)
      ∙ then_ext (visit_all us res) f
      ∙ sym (visit_all-append us vs res)

  visit_all-nil : (res : Resources) → value res ≡ visit_all [] res
  unfolding visit_all
  visit_all-nil res = refl

  walk_link_lem :
      (id : Json)
      → IsText id
      → (res : Resources) → walk_link visit id res ≡ visit_all (text_link id) res
  unfolding visit_all
  walk_link_lem (str u) h res = sym (then_value (visit_new visit (Dict.get res u) u res))
  walk_link_lem null h res = absurd h
  walk_link_lem (bool b) h res = absurd h
  walk_link_lem (num n) h res = absurd h
  walk_link_lem (arr js) h res = absurd h
  walk_link_lem (obj fs) h res = absurd h

  -- An object is a link or holds links.
  walk_id :
      (fields : Fields) (o : Option Json)
      → link_or (AreWalkable fields) IsText o
      → (AreWalkable fields
          → (res : Resources) → walk_object visit fields res ≡ visit_all (links_of fields) res)
      → (res : Resources)
      → link_or (walk_object visit fields res) (λ id. walk_link visit id res) o
        ≡ visit_all (link_or (links_of fields) text_link o) res
  walk_id fields none h e res = e h res
  walk_id fields (some id) h e res = walk_link_lem id h res

  walk_shadowed :
      (b : Bool) (j : Json)
      → ((res : Resources) → walk_child visit j res ≡ visit_all (links j) res)
      → (res : Resources)
      → (if b then walk_child visit j res else value res)
        ≡ visit_all (if b then links j else []) res
  walk_shadowed true j e res = e res
  walk_shadowed false j e res = visit_all-nil res

mutual
  unfolding member links IsWalkable walk_child

  walk_child-links :
      (visit : String → Resources → Outcome Resources) (j : Json)
      → IsWalkable j
      → (res : Resources) → walk_child visit j res ≡ visit_all visit (links j) res
  walk_child-links visit null h res = visit_all-nil visit res
  walk_child-links visit (bool b) h res = visit_all-nil visit res
  walk_child-links visit (num n) h res = visit_all-nil visit res
  walk_child-links visit (str s) h res = visit_all-nil visit res
  walk_child-links visit (arr js) h res = walk_array-links visit js h res
  walk_child-links visit (obj fs) h res =
      walk_id visit fs (member fs "@odata.id") h (walk_object-links visit fs) res

  walk_object-links :
      (visit : String → Resources → Outcome Resources) (fields : Fields)
      → AreWalkable fields
      → (res : Resources) → walk_object visit fields res ≡ visit_all visit (links_of fields) res
  walk_object-links visit end h res = visit_all-nil visit res
  walk_object-links visit (field k j rest) h res =
      walk_then visit (if absent (member rest k) then links j else []) (links_of rest)
        (walk_shadowed visit (absent (member rest k)) j (walk_child-links visit j h.0))
        (walk_object-links visit rest h.1) res

  walk_array-links :
      (visit : String → Resources → Outcome Resources) (js : Items)
      → AllWalkable js
      → (res : Resources) → walk_array visit js res ≡ visit_all visit (links_in js) res
  walk_array-links visit nil h res = visit_all-nil visit res
  walk_array-links visit (cons j rest) h res =
      walk_then visit (links j) (links_in rest) (walk_child-links visit j h.0)
        (walk_array-links visit rest h.1) res

-- The links of a resource; resources are objects.
unfoldable pub resource_links : RedfishPayload → List String
unfolding links
resource_links p = links_of p.object

abbrev pub Walkable : RedfishPayload → Type 0
Walkable p = (p.array ≡ none) × AreWalkable p.object

pub walk-links :
    (visit : String → Resources → Outcome Resources) (p : RedfishPayload)
    → Walkable p
    → (res : Resources) → walk visit p res ≡ visit_all visit (resource_links p) res
unfolding walk resource_links walk_values
walk-links visit p h res =
    ap
      (λ (js : Option (List Json)).
        walk_object visit p.object res >>= walk_values visit (elements_of js))
      h.0
    ∙ then_value (walk_object visit p.object res)
    ∙ walk_object-links visit p.object h.1 res
