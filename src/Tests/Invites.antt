-- ===== src/Tests/Invites.antt =====
-- Invitations: the theorems at the small database.
use typescript_version_taxi.Base.{
  All, Option, Result, String, [], arith, bad_request, false, is_ok, length, none, ok, refl, some,
  thrown, ◌+◌, ◌∷◌, ◌≡◌, ◌≤◌,
}
use typescript_version_taxi.Invitations.{
  CreateInvitationDto, InvitationResponse, InvitationsPage, InvitationsQueryDto, create_profile,
  expired_status, invitation_response, new_invitation, pending_status, validity,
}
use typescript_version_taxi.Invitations.Pending.{
  create_invitation_once, create_invitation_one_driver, run_create,
}
use typescript_version_taxi.Invitations.Requests.{create_invitation, get_invitations}
use typescript_version_taxi.Invitations.Status.{get_invitations_sound}
use typescript_version_taxi.Schema.{Invitation, Store, Uuid, driver}
use typescript_version_taxi.Tests.Accounts.{staffed}
use typescript_version_taxi.Tests.Database.{Amount}
use typescript_version_taxi.Tests.Parameters.{queries}

abbrev invite : String → Option Uuid → CreateInvitationDto
invite email profile = record {
  email = email;
  role = driver;
  first_name = some "Bo";
  last_name = some "Berg";
  driver_profile_id = profile;
}

-- The admin, who has no profile yet, invites a driver.
abbrev invited : Result InvitationResponse × Store Amount
invited = run_create queries (invite "bo" none) 1 8 "token" 60 61 5000 staffed

abbrev bo : InvitationResponse
bo = record {
  id = 60;
  tenant_id = 1;
  email = "bo";
  role = driver;
  token = "token";
  status = pending_status;
  expires_at = 5000 + validity;
  accepted_at = none;
  invited_by_name = "admin";
  driver_profile_name = some ("Bo", "Berg");
  driver_profile_id = some 61;
}

invited_ok : invited.0 ≡ ok bo
unfolding create_invitation create_profile
invited_ok = refl

create_invitation_once_example :
    run_create queries (invite "bo" none) 1 9 "again" 62 63 9000 invited.1
    ≡ (thrown (bad_request "A pending invitation already exists"), invited.1)
create_invitation_once_example =
    create_invitation_once queries (invite "bo" none) (invite "bo" none) 1 8 9 "token" "again" 60 61
      62 63 5000 9000 staffed bo invited_ok refl (omega arith)

create_invitation_one_driver_example :
    is_ok (run_create queries (invite "al" none) 1 8 "other" 62 63 9000 invited.1).0 ≡ false
create_invitation_one_driver_example =
    create_invitation_one_driver queries (invite "bo" none) (invite "al" none) 1 8 "token" "other"
      60 61 62 63 5000 9000 staffed bo refl refl refl refl invited_ok

abbrev expired_query : InvitationsQueryDto
expired_query = record { status = some expired_status; role = none; page = 1; page_size = 25 }

abbrev old_invitation : Invitation
old_invitation = new_invitation (invite "bo" (some 5)) 1 8 "token" 60 5000 (some 5)

abbrev mailed : Store Amount
mailed = record staffed { invitations = old_invitation ∷ [] }

abbrev expired_page : InvitationsPage
expired_page = record {
  items = invitation_response mailed expired_status old_invitation ∷ [];
  total = 1;
  page = 1;
  page_size = 25;
  total_pages = 1;
}

expired_answer : (get_invitations queries 1 expired_query 900000000 mailed).0 ≡ ok expired_page
unfolding get_invitations
expired_answer = refl

get_invitations_sound_example :
    All
      (λ (x : InvitationResponse). (x.tenant_id ≡ 1) × (x.status ≡ expired_status))
      expired_page.items
    × (length expired_page.items ≤ 25)
get_invitations_sound_example =
    get_invitations_sound queries 1 expired_query 900000000 mailed expired_status expired_page refl
      expired_answer
