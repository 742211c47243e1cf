-- ===== src/Tests/Redfish.antt =====
-- internal/redfish/payload.go: runs, and instances of the theorems.
use i_drac_telemetry_referen.Common.{
  ◌≡◌, refl, some, [], ◌∷◌, String, List, true, Bool-cases, ◌⊎◌, ◌↔◌, inl, inr, if◌then◌else◌,
}
use i_drac_telemetry_referen.Common.Dict
use i_drac_telemetry_referen.Common.Text.{◌==◌, eq_iff}
use i_drac_telemetry_referen.Databus.{contains}
use i_drac_telemetry_referen.Json.{Json, num, str, arr, obj, nil, cons, end, field}
use i_drac_telemetry_referen.Redfish.{
  RedfishPayload, empty_payload, Outcome, value, failed, member, size, resolve, get_uri_from_value,
  value_to_payload,
}
use i_drac_telemetry_referen.Redfish.Walk.{Resources, walk_all}
use i_drac_telemetry_referen.Redfish.Walk.Links.{Walkable, IsWalkable}
use i_drac_telemetry_referen.Redfish.Walk.Closure.{Reachable, walk_all-Reachable}

abbrev link : Json
link = obj (field "@odata.id" (str "/redfish/v1/Chassis/1") end)

abbrev chassis : RedfishPayload
chassis = record empty_payload { object = field "Name" (str "Sled-1") end }

abbrev served : String → Outcome RedfishPayload
served uri = value chassis

-- A member that is a link is fetched.
follows_link : resolve served link ≡ value chassis
unfolding resolve get_uri_from_value value_to_payload member size
follows_link = refl

abbrev two_readings : RedfishPayload
two_readings = record empty_payload { array = some (num "1" ∷ num "2" ∷ []) }

-- A device with two resources that link to each other, and to one that cannot be fetched.
abbrev root_page : RedfishPayload
root_page = record empty_payload {
  object = field "@odata.id" (str "/redfish/v1") (
      field "Chassis" (obj (field "@odata.id" (str "/redfish/v1/Chassis") end))
        (field "Systems" (obj (field "@odata.id" (str "/redfish/v1/Systems") end)) end));
}

abbrev chassis_page : RedfishPayload
chassis_page = record empty_payload {
  object =
      field "Links"
        (obj (field "Root" (arr (cons (obj (field "@odata.id" (str "/redfish/v1") end)) nil)) end))
        end;
}

abbrev pages : String → Outcome RedfishPayload
pages uri =
    if uri == "/redfish/v1"
    then value root_page
    else if uri == "/redfish/v1/Chassis"
    then value chassis_page
    else failed

abbrev addresses : List String
addresses = "/redfish/v1" ∷ "/redfish/v1/Chassis" ∷ []

pages-answers :
    (uri : String)
    → (pages uri ≡ failed)
      ⊎ ((p : RedfishPayload) × (pages uri ≡ value p)
          × (contains addresses uri ≡ true)
          × Walkable p)
unfolding IsWalkable member
pages-answers uri = elim (Bool-cases (uri == "/redfish/v1")) [
  | inl e ↦ inr (root_page, rw e, rw ((eq_iff uri "/redfish/v1").0 e), (refl, (tt, (tt, (tt, tt)))))
  | inr e ↦ elim (Bool-cases (uri == "/redfish/v1/Chassis")) [
    | inl c ↦ inr (
      chassis_page,
      rw (e, c),
      rw ((eq_iff uri "/redfish/v1/Chassis").0 c),
      (refl, (((tt, tt), tt), tt)),
    )
    | inr c ↦ inl (rw (e, c))
  ]
]

walk_all-Reachable_example :
    (res : Resources) × (walk_all pages 3 ≡ value res)
    × ((u : String) (p : RedfishPayload)
        → (Dict.get res u ≡ some p)
          ↔ ((pages u ≡ value p) × Reachable pages addresses pages-answers u))
walk_all-Reachable_example = walk_all-Reachable pages addresses pages-answers
