-- ===== src/Requests/Restore/Laws.antt =====
-- What restoreRequest of app/controllers/requests.ts takes, and whose the integration is after it.
use sso_requests.Base.{
  ℕ, ◌≡◌, refl, ap, subst, sym, ◌⊎◌, inl, inr, true, false, ◌&&◌, Option, none, some, String,
  nat_eq, string_eq, find, find-eq-some_holds, Bool-cases, arith,
}
use sso_requests.Authz.Permissions
use sso_requests.Transitions.{Status, status_eq}
use sso_requests.Access.Integration.{IntegrationAccess}
use sso_requests.Requests.{
  RequestRow, Store, Request, done, status_of, authorize_integration, check_if_request_merged,
  submit_row,
}
use sso_requests.Requests.Restore.{
  User, Directory, is_given, has_email, find_or_create_user, set_integration_owner, has_team,
  owned_by, is_restorable, restore_row, restore_found, restore_request,
}

-- The user that the table finds for an address afterwards.
pub record IsUserOf (email : String) (w : Directory) (u : User) : Type 0 where
  pub address : has_email email u ≡ true
  pub stored : find (has_email email) w.users ≡ some u

find-find_or_create_user :
    (email : String) (w : Directory) (o : Option User)
    → find (has_email email) w.users ≡ o
    → find (has_email email) (find_or_create_user email w).1.users
      ≡ some (find_or_create_user email w).0
unfolding find_or_create_user
find-find_or_create_user email w none missing =
    ground (arith, missing, (string_eq.beq_iff email email).1 refl)
find-find_or_create_user email w (some u) found = ground (arith, found)

find_or_create_user-IsUserOf :
    (email : String) (w : Directory)
    → IsUserOf email (find_or_create_user email w).1 (find_or_create_user email w).0
find_or_create_user-IsUserOf email w =
    let stored = find-find_or_create_user email w (find (has_email email) w.users) refl in
    record {
      address = find-eq-some_holds (has_email email) (find_or_create_user email w).1.users stored;
      stored = stored;
    }

-- Whose a restored row is: its team's, where that exists, or else the given address's.
abbrev pub IsOwned : RequestRow → RequestRow → Option String → Directory → Directory → Type 0
IsOwned row row' email w w' =
    ((row.uses_team && has_team w.teams row.team_id ≡ true) × (row' ≡ row))
    ⊎ ((row.uses_team && has_team w.teams row.team_id ≡ false)
        × ((e : String) × (u : User) × (email ≡ some e)
            × (is_given e && w.validate_idir_email e ≡ true)
            × IsUserOf e w' u
            × (row' ≡ record row { uses_team = false; team_id = none; user_id = some u.id })))

set_integration_owner-IsUserOf :
    (row row' : RequestRow) (email : Option String) (w w' : Directory)
    → set_integration_owner row email w ≡ some (row', w')
    → (e : String) × (u : User) × (email ≡ some e)
      × (is_given e && w.validate_idir_email e ≡ true)
      × IsUserOf e w' u
      × (row' ≡ record row { uses_team = false; team_id = none; user_id = some u.id })
unfolding set_integration_owner
set_integration_owner-IsUserOf row row' none w w' h = absurd (ground arith)
set_integration_owner-IsUserOf row row' (some e) w w' h =
    elim (Bool-cases (is_given e && w.validate_idir_email e)) [
      | inr refused ↦ absurd (ground arith)
      | inl valid ↦
          let (u, w₁) = find_or_create_user e w in
          let same : ◌≡◌ {A = RequestRow × Directory}
              (record row { uses_team = false; team_id = none; user_id = some u.id }, w₁)
              (row', w') =
            ground (arith, h, valid) in
          (
            e,
            u,
            refl,
            valid,
            subst (λ x. IsUserOf e x u) (ap (λ x. x.1) same) (find_or_create_user-IsUserOf e w),
            sym (ap (λ x. x.0) same),
          )
    ]

owned_by-IsOwned :
    (row row' : RequestRow) (email : Option String) (w w' : Directory)
    → owned_by row email w ≡ some (row', w')
    → IsOwned row row' email w w'
unfolding owned_by
owned_by-IsOwned row row' email w w' h =
    elim (Bool-cases (row.uses_team && has_team w.teams row.team_id)) [
      | inl kept ↦ inl (kept, ground (arith, h, kept))
      | inr moved ↦
          inr (moved, set_integration_owner-IsUserOf row row' email w w' (ground (arith, h, moved)))
    ]

-- What a restore that reached its submission found, and what it submitted.
pub record IsRestored (q : Request) (id : ℕ) (email : Option String) (st st' : Store)
    (w w' : Directory) : Type 0 where
  pub row : RequestRow
  pub access : IntegrationAccess
  pub found : authorize_integration q id Permissions.integrations_write none st ≡ some (row, access)
  pub restorable : is_restorable row (status_of row st.db) ≡ true
  pub owned : RequestRow
  pub is_owned : IsOwned row owned email w w'
  pub submitted :
      submit_row q true (record owned { archived = false; status = status_of row st.db }) st
      ≡ done st'

restore_row-done :
    (q : Request) (st st' : Store) (w w' : Directory) (status : Status)
    (o : Option (RequestRow × Directory))
    → restore_row q st w status o ≡ (done st', w')
    → (owned : RequestRow) × (o ≡ some (owned, w'))
      × (submit_row q true (record owned { archived = false; status = status }) st ≡ done st')
unfolding restore_row
restore_row-done q st st' w w' status none h = absurd (ground arith)
restore_row-done q st st' w w' status (some (owned, w₁)) h =
    (owned, ap (λ x. some (owned, x.1)) h, ap (λ x. x.0) h)

restore_found-done :
    (q : Request) (id : ℕ) (email : Option String) (st st' : Store) (w w' : Directory)
    (o : Option (RequestRow × IntegrationAccess))
    → authorize_integration q id Permissions.integrations_write none st ≡ o
    → restore_found q email st w o ≡ (done st', w')
    → IsRestored q id email st st' w w'
unfolding restore_found
restore_found-done q id email st st' w w' none e h = absurd (ground arith)
restore_found-done q id email st st' w w' (some (row, access)) e h =
    let status = status_of row st.db in
    elim (Bool-cases (is_restorable row status)) [
      | inr refused ↦ absurd (ground (arith, h, refused))
      | inl restorable ↦
          let (owned, given, submitted) =
            restore_row-done q st st' w w' status (owned_by row email w)
              (ground (arith, h, restorable)) in
          record {
            row = row;
            access = access;
            found = e;
            restorable = restorable;
            owned = owned;
            is_owned = owned_by-IsOwned row owned email w w' given;
            submitted = submitted;
          }
    ]

-- A restore that is answered with success left everything as it was, where the row was never applied.
-- Otherwise it found the row, which the actor may write, and which was archived or submitted; and what it
-- submitted is the row, not archived, with its status, under a team that exists or else under the user that
-- the table of users has for the given, valid address.
pub restore_request_needs :
    (q : Request) (id : ℕ) (email : Option String) (st st' : Store) (w w' : Directory)
    → restore_request q id email st w ≡ (done st', w')
    → ((check_if_request_merged id st.db ≡ false) × (st' ≡ st) × (w' ≡ w))
      ⊎ ((check_if_request_merged id st.db ≡ true) × IsRestored q id email st st' w w')
unfolding restore_request
restore_request_needs q id email st st' w w' h =
    elim (Bool-cases (check_if_request_merged id st.db)) [
      | inl merged ↦ inr (
        merged,
        restore_found-done q id email st st' w w'
            (authorize_integration q id Permissions.integrations_write none st) refl
            (ground (arith, h, merged)),
      )
      | inr unmerged ↦ inl (unmerged, ground (arith, h, unmerged), ground (arith, h, unmerged))
    ]
