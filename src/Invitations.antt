-- ===== src/Invitations.antt =====
-- Invitations (src/admin/services/admin-invitation.service.ts): creating, resending, cancelling and
-- listing them. The token is the random text that the service draws; it is new.
pub mod Requests
pub mod Pending
pub mod Status
use typescript_version_taxi.Base.{
  Action, Bool, List, Option, String, [], bad_request, false, find, gets, if◌then◌else◌, is_some,
  leb, ltb, modify, none, not, or_throw, prisma_error, pure, some, str_eq, suc, throw_if, true,
  zero, ℕ, ◌&&◌, ◌*◌, ◌++◌, ◌+◌, ◌==◌, ◌>>=◌, ◌>>◌, ◌∷◌,
}
use typescript_version_taxi.Auth.{non_empty_or, user_id_is}
use typescript_version_taxi.Auth.Strategy.{profile_id_is, same_role}
use typescript_version_taxi.Payment.{non_empty}
use typescript_version_taxi.Pricing.Options.{first, is_driver_role}
use typescript_version_taxi.Schema.{DriverProfile, Invitation, Role, Store, Time, Uuid}

pub data InvitationStatus : Type 0 where
  pending_status accepted_status expired_status : InvitationStatus

pub record CreateInvitationDto : Type 0 where
  pub email : String
  pub role : Role
  pub first_name : Option String
  pub last_name : Option String
  pub driver_profile_id : Option Uuid

-- `page` and `pageSize` are 1 at least.
pub record InvitationsQueryDto : Type 0 where
  pub status : Option InvitationStatus
  pub role : Option Role
  pub page : ℕ
  pub page_size : ℕ

-- `driverProfileName` is the first name and the last name with a space between.
pub record InvitationResponse : Type 0 where
  pub id : Uuid
  pub tenant_id : Uuid
  pub email : String
  pub role : Role
  pub token : String
  pub status : InvitationStatus
  pub expires_at : Time
  pub accepted_at : Option Time
  pub invited_by_name : String
  pub driver_profile_name : Option (String × String)
  pub driver_profile_id : Option Uuid

pub record InvitationsPage : Type 0 where
  pub items : List InvitationResponse
  pub total : ℕ
  pub page : ℕ
  pub page_size : ℕ
  pub total_pages : ℕ

-- Seven days.
abbrev pub validity : ℕ
validity = 7 * 24 * 60 * 60 * 1000

abbrev pub invitation_id_is : Uuid → Invitation → Bool
invitation_id_is id i = i.id == id

-- `where: { id, tenantId }`
abbrev pub own_invitation : Uuid → Uuid → Invitation → Bool
own_invitation id tenant i = i.id == id && i.tenant_id == tenant

-- `where: { tenantId, email, acceptedAt: null, expiresAt: { gt: now } }`
abbrev pub is_pending_for : Uuid → String → Time → Invitation → Bool
is_pending_for tenant email now i =
    i.tenant_id == tenant
    && str_eq i.email email
    && not (is_some i.accepted_at)
    && ltb now i.expires_at

-- The status that an answer shows.
abbrev pub status_of : Time → Invitation → InvitationStatus
status_of now i =
    if is_some i.accepted_at
    then accepted_status
    else if leb i.expires_at now
    then expired_status
    else pending_status

-- The condition of the listing on the status.
abbrev pub has_status : Option InvitationStatus → Time → Invitation → Bool
has_status none now i = true
has_status (some pending_status) now i = not (is_some i.accepted_at) && ltb now i.expires_at
has_status (some accepted_status) now i = is_some i.accepted_at
has_status (some expired_status) now i = not (is_some i.accepted_at) && leb i.expires_at now

abbrev pub role_is : Option Role → Invitation → Bool
role_is none i = true
role_is (some role) i = same_role i.role role

abbrev pub is_listed : Uuid → InvitationsQueryDto → Time → Invitation → Bool
is_listed tenant query now i =
    i.tenant_id == tenant && has_status query.status now i && role_is query.role i

-- `skip` and `take`
abbrev pub skip : {A : Type 0} → ℕ → List A → List A
skip zero xs = xs
skip (suc n) [] = []
skip (suc n) (x ∷ xs) = skip n xs

abbrev pub take : {A : Type 0} → ℕ → List A → List A
take zero xs = []
take (suc n) [] = []
take (suc n) (x ∷ xs) = x ∷ take n xs

-- The `data` of the insert.
abbrev pub new_invitation :
    CreateInvitationDto → Uuid → Uuid → String → Uuid → Time → Option Uuid → Invitation
new_invitation dto tenant user token id now profile = record {
  id = id;
  tenant_id = tenant;
  email = dto.email;
  role = dto.role;
  token = token;
  expires_at = now + validity;
  accepted_at = none;
  invited_by_user_id = some user;
  driver_profile_id = profile;
}

module _ {D : Type 0} where
  -- `invitedByUser?.email || 'Unknown'`
  abbrev pub inviter_name : Store D → Option Uuid → String
  inviter_name s none = "Unknown"
  inviter_name s (some id) = elim (find (user_id_is id) s.users) [
    | none ↦ "Unknown"
    | some u ↦ non_empty_or (some u.email) "Unknown"
  ]

  abbrev pub profile_name : Store D → Option Uuid → Option (String × String)
  profile_name s none = none
  profile_name s (some id) = elim (find (profile_id_is id) s.driver_profiles) [
    | none ↦ none
    | some p ↦ some (p.first_name, p.last_name)
  ]

  abbrev pub invitation_response : Store D → InvitationStatus → Invitation → InvitationResponse
  invitation_response s status i = record {
    id = i.id;
    tenant_id = i.tenant_id;
    email = i.email;
    role = i.role;
    token = i.token;
    status = status;
    expires_at = i.expires_at;
    accepted_at = i.accepted_at;
    invited_by_name = inviter_name s i.invited_by_user_id;
    driver_profile_name = profile_name s i.driver_profile_id;
    driver_profile_id = i.driver_profile_id;
  }

  abbrev pub write_invitations : (List Invitation → List Invitation) → Action (Store D) (Unit {0})
  write_invitations f = modify (λ s. record s { invitations = f s.invitations })

  -- The insert fails on the unique key `userId`; the new profile is not active.
  unfoldable pub create_profile : Uuid → Uuid → String → String → Uuid → Action (Store D) Uuid
  create_profile tenant user first last id = do
    taken ← gets (λ s. find (λ (p : DriverProfile). p.user_id == user) s.driver_profiles)
    throw_if (is_some taken) (prisma_error "Unique constraint failed")
    modify (λ s. record s {
      driver_profiles =
          s.driver_profiles
          ++ record {
            id = id;
            tenant_id = tenant;
            user_id = user;
            first_name = first;
            last_name = last;
            is_active = false;
          }
            ∷ [];
    })
    pure id

  -- The profile that the invitation is for: a new one for a driver without one.
  abbrev pub profile_for : CreateInvitationDto → Uuid → Uuid → Uuid → Action (Store D) (Option Uuid)
  profile_for dto tenant user profile_id =
      if is_driver_role dto.role && not (is_some dto.driver_profile_id)
      then (do
        first ←
            or_throw (non_empty dto.first_name) (bad_request "firstName and lastName are required")
        last ←
            or_throw (non_empty dto.last_name) (bad_request "firstName and lastName are required")
        id ← create_profile tenant user first last profile_id
        pure (some id))
      else pure dto.driver_profile_id
