-- ===== src/Redfish/Walk.antt =====
-- internal/redfish: `Walk`, which fetches the resources of a device, from link to link.
-- Fuel bounds how deep links are followed; `failed` is the end of the fuel, as a walk has no error of
-- its own. Maps are gone through in the order of their fields, the last of equal keys only.
pub mod Links
pub mod Missing
pub mod Closure
use i_drac_telemetry_referen.Common.{
  ℕ, zero, suc, Bool, true, false, Option, none, some, List, [], ◌∷◌, ◌++◌, String, if◌then◌else◌,
}
use i_drac_telemetry_referen.Common.Dict
use i_drac_telemetry_referen.Common.Dict.{Dict}
use i_drac_telemetry_referen.Json.{
  Json, Items, Fields, null, bool, num, str, arr, obj, nil, cons, end, field,
}
use i_drac_telemetry_referen.Redfish.{
  RedfishPayload, Outcome, value, failed, panics, exits, ◌>>=◌, member, absent, elements_of,
}

abbrev pub Resources : Type 0
Resources = Dict RedfishPayload

-- What is done for an object by its "@odata.id", if it has one.
abbrev pub link_or {ℓ} : {A : Type ℓ} → A → (Json → A) → Option Json → A
link_or other linked none = other
link_or other linked (some id) = linked id

module _ (visit : String → Resources → Outcome Resources) where
  -- A resource that has been walked already is passed over.
  abbrev pub visit_new : Option RedfishPayload → String → Resources → Outcome Resources
  visit_new none uri res = visit uri res
  visit_new (some p) uri res = value res

  abbrev pub walk_link : Json → Resources → Outcome Resources
  walk_link (str uri) res = visit_new (Dict.get res uri) uri res
  walk_link j res = panics

  -- `walkChild`, and the loops of `walk` over an object and over an array
  unfoldable mutual
    unfolding member

    pub walk_child : Json → Resources → Outcome Resources
    walk_child (obj fields) res =
        link_or (walk_object fields res) (λ id. walk_link id res) (member fields "@odata.id")
    walk_child (arr items) res = walk_array items res
    walk_child j res = value res

    pub walk_object : Fields → Resources → Outcome Resources
    walk_object end res = value res
    walk_object (field k j rest) res =
        (if absent (member rest k) then walk_child j res else value res) >>= walk_object rest

    pub walk_array : Items → Resources → Outcome Resources
    walk_array nil res = value res
    walk_array (cons j rest) res = walk_child j res >>= walk_array rest

  unfoldable pub walk_values : List Json → Resources → Outcome Resources
  unfolding walk_child
  walk_values [] res = value res
  walk_values (j ∷ js) res = walk_child j res >>= walk_values js

  -- `walk`
  unfoldable pub walk : RedfishPayload → Resources → Outcome Resources
  unfolding walk_object walk_values
  walk r res = walk_object r.object res >>= walk_values (elements_of r.array)

abbrev pub walk_got :
    (String → Resources → Outcome Resources)
    → String
    → Resources
    → Outcome RedfishPayload
    → Outcome Resources
walk_got visit uri res (value payload) = walk visit payload (Dict.put res uri payload)
walk_got visit uri res failed = value res
walk_got visit uri res panics = panics
walk_got visit uri res exits = exits

module _ (get_uri : String → Outcome RedfishPayload) where
  -- `walkUri`
  unfoldable pub walk_uri : ℕ → String → Resources → Outcome Resources
  unfolding walk
  walk_uri zero uri res = failed
  walk_uri (suc fuel) uri res = walk_got (walk_uri fuel) uri res (get_uri uri)

  -- `Walk` of the client
  unfoldable pub walk_all : ℕ → Outcome Resources
  unfolding walk_uri
  walk_all fuel = walk_uri fuel "/redfish/v1" []
