-- ===== src/Authz/Presets/Laws.antt =====
-- The names of stored sets (packages/authz/src/presets.ts).
use sso_requests.Base.{
  ◌≡◌, refl, sym, ap, ◌∙◌, ◌↔◌, true, ◌&&◌, List, [], ◌∷◌, some, arith, find, find-eq-some_holds,
  includes, length, ◌==◌, nat_eq,
}
use sso_requests.Authz.Permissions.{Permission, permission_eq, permission_beq_iff}
use sso_requests.Authz.Sets.{sort_permissions}
use sso_requests.Authz.Sets.Laws.{sort_permissions-eq_iff}
use sso_requests.Authz.Presets.{
  PresetName, nobody, viewer, role_manager, editor, admin, team_member, team_admin, preset,
  preset_names, same_at_each, is_preset, preset_for,
}

same_at_each_iff :
    (xs ys : List Permission) → (length xs == length ys && same_at_each xs ys ≡ true) ↔ (xs ≡ ys)
same_at_each_iff [] [] = (λ h. refl, λ e. refl)
same_at_each_iff [] (y ∷ ys) = (λ h. ground arith, λ e. cc)
same_at_each_iff (x ∷ xs) [] = (λ h. ground arith, λ e. cc)
same_at_each_iff (x ∷ xs) (y ∷ ys) = ground (arith, same_at_each_iff xs ys, permission_beq_iff x y)

-- `presetFor` names a set only by a preset with the same members.
pub preset_for_sound :
    (ps : List Permission) (name : PresetName)
    → preset_for ps ≡ some name
    → (p : Permission) → includes ps p ≡ includes (preset name) p
unfolding preset_for
preset_for_sound ps name h = (sort_permissions-eq_iff ps (preset name)).0 (
    sym (
      (same_at_each_iff (sort_permissions (preset name)) (sort_permissions ps)).0
        (unfold is_preset in find-eq-some_holds (is_preset (sort_permissions ps)) preset_names h)))

preset_for-preset : (name : PresetName) → preset_for (preset name) ≡ some name
unfolding preset_for is_preset preset
preset_for-preset nobody = refl
preset_for-preset viewer = refl
preset_for-preset role_manager = refl
preset_for-preset editor = refl
preset_for-preset admin = refl
preset_for-preset team_member = refl
preset_for-preset team_admin = refl

-- Every set with the members of a preset, in whatever order and however often repeated, is named by
-- that preset: presets are told apart.
pub preset_for_complete :
    (ps : List Permission) (name : PresetName)
    → ((p : Permission) → includes ps p ≡ includes (preset name) p)
    → preset_for ps ≡ some name
preset_for_complete ps name h =
    unfold preset_for in
    ap (λ s. find (is_preset s) preset_names) ((sort_permissions-eq_iff ps (preset name)).1 h)
    ∙ preset_for-preset name
