-- ===== src/Invitations/Requests.antt =====
-- The requests of administrators about invitations.
use typescript_version_taxi.Base.{
  Action, String, [], bad_request, filter, gets, is_some, leb, length, map, not, not_found,
  or_throw, prisma_error, pure, throw_if, update_many, ◌&&◌, ◌*◌, ◌++◌, ◌+◌, ◌-◌, ◌/◌, ◌>>=◌, ◌>>◌,
  ◌∷◌,
}
use typescript_version_taxi.External.Queries.{Queries}
use typescript_version_taxi.Invitations.{
  CreateInvitationDto, InvitationResponse, InvitationsPage, InvitationsQueryDto, invitation_id_is,
  invitation_response, is_listed, is_pending_for, new_invitation, own_invitation, pending_status,
  profile_for, profile_name, skip, status_of, take, validity, write_invitations,
}
use typescript_version_taxi.Schema.{Invitation, Store, Time, Uuid}

module _ (q : Queries) {D : Type 0} where
  open q use {find_first, order_by}

  unfoldable pub get_invitations :
      Uuid → InvitationsQueryDto → Time → Action (Store D) InvitationsPage
  get_invitations tenant query now = do
    found ← gets (λ s. filter (is_listed tenant query now) s.invitations)
    items ← gets (λ s.
        map (λ i. invitation_response s (status_of now i) i)
          (take query.page_size (
            skip ((query.page - 1) * query.page_size)
              (order_by (λ (x y : Invitation). leb y.expires_at x.expires_at) found))))
    pure (record {
      items = items;
      total = length found;
      page = query.page;
      page_size = query.page_size;
      total_pages = (length found + query.page_size - 1) / query.page_size;
    })

  abbrev pub require_invitation : Uuid → Uuid → Action (Store D) Invitation
  require_invitation id tenant = do
    found ← gets (λ s. find_first (own_invitation id tenant) s.invitations)
    or_throw found (not_found "Invitation not found")

  pub get_invitation_by_id : Uuid → Uuid → Time → Action (Store D) InvitationResponse
  get_invitation_by_id id tenant now = do
    i ← require_invitation id tenant
    gets (λ s. invitation_response s (status_of now i) i)

  -- `user` is the user of the request, whom the controller also passes as the inviter. The insert
  -- fails on a profile that does not exist.
  unfoldable pub create_invitation :
      CreateInvitationDto
      → Uuid
      → Uuid
      → String
      → Uuid
      → Uuid
      → Time
      → Action (Store D) InvitationResponse
  create_invitation dto tenant user token id profile_id now = do
    existing ← gets (λ s. find_first (is_pending_for tenant dto.email now) s.invitations)
    throw_if (is_some existing) (bad_request "A pending invitation already exists")
    profile ← profile_for dto tenant user profile_id
    named ← gets (λ s. profile_name s profile)
    throw_if (is_some profile && not (is_some named)) (prisma_error "Foreign key constraint failed")
    let i = new_invitation dto tenant user token id now profile
    write_invitations (λ is. is ++ i ∷ [])
    gets (λ s. invitation_response s pending_status i)

  pub resend_invitation : Uuid → Uuid → String → Time → Action (Store D) InvitationResponse
  resend_invitation id tenant token now = do
    i ← require_invitation id tenant
    throw_if (is_some i.accepted_at) (bad_request "Cannot resend an already accepted invitation")
    write_invitations (
        update_many (invitation_id_is id)
          (λ x. record x { token = token; expires_at = now + validity }))
    gets (λ s.
        invitation_response s pending_status
          (record i { token = token; expires_at = now + validity }))

  pub cancel_invitation : Uuid → Uuid → Action (Store D) (Unit {0})
  cancel_invitation id tenant = do
    i ← require_invitation id tenant
    throw_if (is_some i.accepted_at) (bad_request "Cannot cancel an already accepted invitation")
    write_invitations (filter (λ x. not (invitation_id_is id x)))
