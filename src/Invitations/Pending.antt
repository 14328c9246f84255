-- ===== src/Invitations/Pending.antt =====
-- What a created invitation rules out.
use typescript_version_taxi.Base.{
  ==_refl, All-mem, Bool-cases, Memᴰ, Option, Option-cases, Result, Result-cases, String, [], arith,
  bad_request, false, find, inl, inr, is_ok, is_some, none, not, ok, refl, str_eq_iff, thrown, true,
  ◌&&◌, ◌++◌, ◌+◌, ◌<◌, ◌==◌, ◌∷◌, ◌≡◌,
}
use typescript_version_taxi.Base.Rows.{find-append, mem-append_right}
use typescript_version_taxi.External.Queries.{Queries}
use typescript_version_taxi.Invitations.{
  CreateInvitationDto, InvitationResponse, create_profile, is_pending_for, new_invitation,
  profile_for, profile_name, validity,
}
use typescript_version_taxi.Invitations.Requests.{create_invitation}
use typescript_version_taxi.Payment.{non_empty}
use typescript_version_taxi.Pricing.Options.{first}
use typescript_version_taxi.Schema.{DriverProfile, Invitation, Store, Time, Uuid, driver}

module _ (q : Queries) {D : Type 0} (dto : CreateInvitationDto) (tenant user : Uuid)
    (token : String) (id profile_id : Uuid) (now : Time) where
  open q use {find_first, find_first_none}

  abbrev pub run_create : Store D → Result InvitationResponse × Store D
  run_create = create_invitation q dto tenant user token id profile_id now

  -- The invitation that was inserted.
  pub record IsInvited (t : Store D) : Type 0 where
    pub i : Invitation
    pub listed : Memᴰ i t.invitations
    pub own : i.tenant_id ≡ tenant
    pub to_email : i.email ≡ dto.email
    pub open_still : i.accepted_at ≡ none
    pub expires : i.expires_at ≡ now + validity

  pub create_invitation-IsInvited :
      (s : Store D) (r : InvitationResponse) → (run_create s).0 ≡ ok r → IsInvited (run_create s).1
  unfolding create_invitation
  create_invitation-IsInvited s r h =
      elim (Bool-cases (is_some (find_first (is_pending_for tenant dto.email now) s.invitations))) [
        | inl e ↦ absurd (ground (arith, e, h))
        | inr e ↦ elim (Result-cases (profile_for dto tenant user profile_id s).0) [
          | inr (d, f) ↦ absurd (ground (arith, e, f, h))
          | inl (profile, f) ↦
              let t = (profile_for dto tenant user profile_id s).1 in
              elim (Bool-cases (is_some profile && not (is_some (profile_name t profile)))) [
                | inl g ↦ absurd (ground (arith, e, f, g, h))
                | inr g ↦
                    let written : (run_create s).1 ≡ record t {
                      invitations =
                          t.invitations ++ new_invitation dto tenant user token id now profile ∷ [];
                    } =
                      ground (arith, e, f, g) in
                    rw written (record {
                      i = new_invitation dto tenant user token id now profile;
                      listed = mem-append_right t.invitations (Memᴰ.head refl);
                      own = refl;
                      to_email = refl;
                      open_still = refl;
                      expires = refl;
                    })
              ]
        ]
      ]

module _ (q : Queries) {D : Type 0} where
  open q use {find_first, find_first_none}

  -- Right after a successful `createInvitation`, until the invitation expires, another one for the
  -- same email in the same tenant is refused and writes nothing, whoever calls it.
  pub create_invitation_once :
      (dto other : CreateInvitationDto) (tenant user inviter : Uuid) (token token' : String)
      (id profile_id id' profile_id' : Uuid) (now later : Time) (s : Store D)
      (r : InvitationResponse)
      → (run_create q dto tenant user token id profile_id now s).0 ≡ ok r
      → other.email ≡ dto.email
      → later < now + validity
      → let t = (run_create q dto tenant user token id profile_id now s).1 in
        run_create q other tenant inviter token' id' profile_id' later t
        ≡ (thrown (bad_request "A pending invitation already exists"), t)
  unfolding create_invitation
  create_invitation_once dto other tenant user inviter token token' id profile_id id' profile_id'
        now later s r h same early =
      let t = (run_create q dto tenant user token id profile_id now s).1 in
      let v = create_invitation-IsInvited q dto tenant user token id profile_id now s r h in
      let is_open : is_pending_for tenant other.email later v.i ≡ true =
        rw (v.to_email, same, v.open_still, v.expires, v.own)
          (ground (arith, early, ==_refl tenant, (str_eq_iff dto.email dto.email).1 refl)) in
      elim (Option-cases (find_first (is_pending_for tenant other.email later) t.invitations)) [
        | inl e ↦ absurd (cc (is_open, All-mem _ v.listed (find_first_none _ t.invitations e)))
        | inr (i, e) ↦ ground (arith, e)
      ]

  -- A user whose id a profile has.
  abbrev HasProfile : Uuid → Store D → Type 0
  HasProfile user s =
      is_some (find (λ (p : DriverProfile). p.user_id == user) s.driver_profiles) ≡ true

  profile_for_taken :
      (dto : CreateInvitationDto) (tenant user profile_id : Uuid) (s : Store D)
      → dto.role ≡ driver
      → dto.driver_profile_id ≡ none
      → HasProfile user s
      → is_ok (profile_for dto tenant user profile_id s).0 ≡ false
  unfolding create_profile
  profile_for_taken dto tenant user profile_id s h k taken =
      elim (Option-cases (non_empty dto.first_name)) [
        | inl e ↦ ground (arith, h, k, e)
        | inr (first, e) ↦ elim (Option-cases (non_empty dto.last_name)) [
          | inl f ↦ ground (arith, h, k, e, f)
          | inr (last, f) ↦ ground (arith, h, k, e, f, taken)
        ]
      ]

  profile_for_made :
      (dto : CreateInvitationDto) (tenant user profile_id : Uuid) (s : Store D)
      (profile : Option Uuid)
      → dto.role ≡ driver
      → dto.driver_profile_id ≡ none
      → (profile_for dto tenant user profile_id s).0 ≡ ok profile
      → HasProfile user (profile_for dto tenant user profile_id s).1
  unfolding create_profile
  profile_for_made dto tenant user profile_id s profile h k r =
      elim (Option-cases (non_empty dto.first_name)) [
        | inl e ↦ absurd (ground (arith, h, k, e, r))
        | inr (first, e) ↦ elim (Option-cases (non_empty dto.last_name)) [
          | inl f ↦ absurd (ground (arith, h, k, e, f, r))
          | inr (last, f) ↦
              elim (Option-cases
                (find (λ (p : DriverProfile). p.user_id == user) s.driver_profiles)) [
                  | inr (p, g) ↦ absurd (ground (arith, h, k, e, f, g, r))
                  | inl g ↦
                      let made : DriverProfile = record {
                        id = profile_id;
                        tenant_id = tenant;
                        user_id = user;
                        first_name = first;
                        last_name = last;
                        is_active = false;
                      } in
                      let added =
                        find-append (λ (p : DriverProfile). p.user_id == user) s.driver_profiles
                          made g (==_refl user) in
                      ground (arith, h, k, e, f, g, added)
                ]
        ]
      ]

  made_of :
      (dto : CreateInvitationDto) (tenant user : Uuid) (token : String) (id profile_id : Uuid)
      (now : Time) (s : Store D) (r : InvitationResponse)
      → dto.role ≡ driver
      → dto.driver_profile_id ≡ none
      → (run_create q dto tenant user token id profile_id now s).0 ≡ ok r
      → HasProfile user (run_create q dto tenant user token id profile_id now s).1
  unfolding create_invitation
  made_of dto tenant user token id profile_id now s r h k m =
      elim (Bool-cases (is_some (find_first (is_pending_for tenant dto.email now) s.invitations))) [
        | inl e ↦ absurd (ground (arith, e, m))
        | inr e ↦ elim (Result-cases (profile_for dto tenant user profile_id s).0) [
          | inr (d, f) ↦ absurd (ground (arith, e, f, m))
          | inl (profile, f) ↦
              let t = (profile_for dto tenant user profile_id s).1 in
              let made = profile_for_made dto tenant user profile_id s profile h k f in
              elim (Bool-cases (is_some profile && not (is_some (profile_name t profile)))) [
                | inl g ↦ absurd (ground (arith, e, f, g, m))
                | inr g ↦ ground (arith, e, f, g, made)
              ]
        ]
      ]

  -- After a user has invited a driver without a profile with success, no further invitation of a
  -- driver without a profile by that user in the same tenant succeeds on the database it leaves,
  -- at any time and for any email: the profile has the inviting user's id, which is unique.
  pub create_invitation_one_driver :
      (dto other : CreateInvitationDto) (tenant user : Uuid) (token token' : String)
      (id profile_id id' profile_id' : Uuid) (now later : Time) (s : Store D)
      (r : InvitationResponse)
      → dto.role ≡ driver
      → dto.driver_profile_id ≡ none
      → other.role ≡ driver
      → other.driver_profile_id ≡ none
      → (run_create q dto tenant user token id profile_id now s).0 ≡ ok r
      → is_ok
          (run_create q other tenant user token' id' profile_id' later
            (run_create q dto tenant user token id profile_id now s).1).0
        ≡ false
  unfolding create_invitation
  create_invitation_one_driver dto other tenant user token token' id profile_id id' profile_id' now
        later s r h k h' k' m =
      let t = (run_create q dto tenant user token id profile_id now s).1 in
      let no_profile =
        profile_for_taken other tenant user profile_id' t h' k'
          (made_of dto tenant user token id profile_id now s r h k m) in
      elim (Bool-cases
        (is_some (find_first (is_pending_for tenant other.email later) t.invitations))) [
          | inl e ↦ ground (arith, e)
          | inr e ↦ elim (Result-cases (profile_for other tenant user profile_id' t).0) [
            | inr (d, f) ↦ ground (arith, e, f)
            | inl (profile, f) ↦ absurd (ground (arith, f, no_profile))
          ]
        ]
