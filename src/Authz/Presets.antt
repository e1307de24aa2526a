-- ===== src/Authz/Presets.antt =====
-- packages/authz/src/presets.ts: the named permission sets.
pub mod Laws
use sso_requests.Base.{
  Bool, List, [], ◌∷◌, ◌++◌, Option, none, some, String, ◌&&◌, ◌==◌, find, length, true, false,
  nat_eq, string_eq, if◌then◌else◌,
}
use sso_requests.Authz.Permissions
use sso_requests.Authz.Permissions.{Permission, permission_eq}
use sso_requests.Authz.Sets.{sort_permissions, union}

pub data PresetName : Type 0 where
  nobody : PresetName
  viewer : PresetName
  role_manager : PresetName
  editor : PresetName
  admin : PresetName
  team_member : PresetName
  team_admin : PresetName

abbrev pub viewer_set : List Permission
unfolding sort_permissions
viewer_set = sort_permissions (
    Permissions.integrations_read ∷ Permissions.roles_read ∷ Permissions.user_role_mappings_read
    ∷ [])

abbrev pub role_manager_set : List Permission
unfolding sort_permissions
role_manager_set = sort_permissions (
    viewer_set
    ++ (Permissions.roles_write ∷ Permissions.user_role_mappings_write ∷ Permissions.idp_users_read
        ∷ []))

abbrev pub editor_set : List Permission
unfolding sort_permissions
editor_set =
    sort_permissions
      (viewer_set ++ (Permissions.integrations_write ∷ Permissions.integrations_delete ∷ []))

abbrev pub admin_set : List Permission
unfolding sort_permissions union
admin_set = union (role_manager_set ∷ editor_set ∷ [])

-- `PRESETS`. Its key `none` is `nobody` here.
unfoldable pub preset : PresetName → List Permission
unfolding sort_permissions union
preset nobody = []
preset viewer = viewer_set
preset role_manager = role_manager_set
preset editor = editor_set
preset admin = admin_set
preset team_member = sort_permissions (
    viewer_set
    ++ (Permissions.integrations_write ∷ Permissions.integrations_reassign_team
        ∷ Permissions.user_role_mappings_write ∷ Permissions.idp_users_read ∷ []))
preset team_admin = sort_permissions (
    Permissions.integrations_read ∷ Permissions.integrations_write ∷ Permissions.integrations_delete
    ∷ Permissions.integrations_reassign_team ∷ Permissions.roles_read ∷ Permissions.roles_write
    ∷ Permissions.user_role_mappings_read ∷ Permissions.user_role_mappings_write
    ∷ Permissions.idp_users_read ∷ [])

-- `Object.keys(PRESETS)`, in the order in which they are written.
abbrev pub preset_names : List PresetName
preset_names = nobody ∷ viewer ∷ role_manager ∷ editor ∷ admin ∷ team_member ∷ team_admin ∷ []

abbrev pub org_facing_presets : List PresetName
org_facing_presets = nobody ∷ viewer ∷ role_manager ∷ editor ∷ admin ∷ []

-- `preset.every((permission, index) => permission === sorted[index])`: past the end of `sorted` the
-- element is `undefined`, which equals no permission.
abbrev pub same_at_each : List Permission → List Permission → Bool
same_at_each [] ys = true
same_at_each (x ∷ xs) [] = false
same_at_each (x ∷ xs) (y ∷ ys) = x == y && same_at_each xs ys

-- The test that `presetFor` makes of one name.
unfoldable pub is_preset : List Permission → PresetName → Bool
unfolding sort_permissions
is_preset sorted name =
    let p = sort_permissions (preset name) in length p == length sorted && same_at_each p sorted

unfoldable pub preset_for : List Permission → Option PresetName
preset_for ps = find (is_preset (sort_permissions ps)) preset_names

-- `PRESET_LABELS`.
abbrev pub preset_label : PresetName → String
preset_label nobody = "No access"
preset_label viewer = "Viewer"
preset_label role_manager = "Role Manager"
preset_label editor = "Editor"
preset_label admin = "Admin"
preset_label team_member = "Team Member"
preset_label team_admin = "Team Admin"

-- `permissionsForTeamRole`.
unfoldable pub permissions_for_team_role : Option String → List Permission
permissions_for_team_role none = []
permissions_for_team_role (some role) =
    if role == "admin"
    then preset team_admin
    else if role == "member"
    then preset team_member
    else []
