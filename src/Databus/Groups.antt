-- ===== src/Databus/Groups.antt =====
-- pkg/databus/databus.go: the latest data groups, by system and by group.
use i_drac_telemetry_referen.Common.{
  ◌≡◌, ap, ◌∙◌, inl, inr, Option, none, some, [], String, Bool-cases, if◌then◌else◌, ◌&&◌,
}
use i_drac_telemetry_referen.Common.Dict
use i_drac_telemetry_referen.Common.Dict.{Dict, get-put}
use i_drac_telemetry_referen.Common.Text.{◌==◌, eq_iff}
use i_drac_telemetry_referen.Databus.Group.{DataGroup}

abbrev pub DataGroups : Type 0
DataGroups = Dict (Dict DataGroup)

-- A system with no groups has the map that is made for it.
abbrev groups_or_new : Option (Dict DataGroup) → Dict DataGroup
groups_or_new none = []
groups_or_new (some groups) = groups

-- `AddDataGroup`
unfoldable pub add_data_group : DataGroups → String → DataGroup → DataGroups
add_data_group d sys_id group =
    Dict.put d sys_id (Dict.put (groups_or_new (Dict.get d sys_id)) group.id group)

-- Groups[sysId][groupID]
unfoldable pub data_group : DataGroups → String → String → Option DataGroup
data_group d sys_id group_id = Dict.get (groups_or_new (Dict.get d sys_id)) group_id

-- After a group is added, its system has it under its id, in the place of one that was there; all
-- other groups of all systems are as they were.
pub data_group-add_data_group :
    (d : DataGroups) (sys_id : String) (group : DataGroup) (other_sys other_id : String)
    → data_group (add_data_group d sys_id group) other_sys other_id ≡ (
        if sys_id == other_sys && group.id == other_id
        then some group
        else data_group d other_sys other_id)
unfolding data_group add_data_group
data_group-add_data_group d sys_id group other_sys other_id =
    let added = Dict.put (groups_or_new (Dict.get d sys_id)) group.id group in
    ap (λ o. Dict.get (groups_or_new o) other_id) (get-put d sys_id other_sys added)
    ∙ elim (Bool-cases (sys_id == other_sys)) [
      | inr other ↦ rw other
      | inl same ↦
          rw (same, (eq_iff sys_id other_sys).0 same)
            (get-put (groups_or_new (Dict.get d other_sys)) group.id other_id group)
    ]
