-- ===== src/Tests/Access.antt =====
-- Signing in: the theorems at a small database.
use typescript_version_taxi.Base.{
  List, Memᴰ, Result, String, [], arith, false, if◌then◌else◌, is_ok, map, none, ok, refl, some,
  thrown, true, ◌∷◌, ◌≡◌,
}
use typescript_version_taxi.Auth.{
  LoginAnswer, RegisterDto, TenantChoice, access, generate_unified_access_token, is_user,
  login_ticket, membership_choice, register_payload, selection,
}
use typescript_version_taxi.Auth.Access.{IsCurrent, issued_token, request_user}
use typescript_version_taxi.Auth.Drivers.{IsDriverToken, UniqueProfiles, login_driver_accepted}
use typescript_version_taxi.Auth.Login.{login_token_accepted}
use typescript_version_taxi.Auth.Registration.{register_token_refused}
use typescript_version_taxi.Auth.Revocation.{
  Revoke, all_tokens, is_token_revoked, is_user_revoked, one_token, revoke_each, revoke_token,
}
use typescript_version_taxi.Auth.Revoked.{revoked_token_refused}
use typescript_version_taxi.Auth.SignIn.{
  login, login_driver_v1, register, select_tenant, validate_user,
}
use typescript_version_taxi.Auth.Sound.{IsAuthenticated, authenticate_sound}
use typescript_version_taxi.Auth.Strategy.{
  authenticate, malformed, validate, validate_admin_manager_status, validate_payload_structure,
}
use typescript_version_taxi.Auth.Tickets.{select_after_login}
use typescript_version_taxi.External.Tokens.{JwtPayload}
use typescript_version_taxi.Pricing.Options.{is_driver_role}
use typescript_version_taxi.Schema.{Membership, Store, Uuid, driver, manager}
use typescript_version_taxi.Tests.Accounts.{
  cache, config, credentials, passwords, signed_tokens, staffed, user,
}
use typescript_version_taxi.Tests.Database.{Amount}
use typescript_version_taxi.Tests.Parameters.{queries}

-- The admin signs in to the second company at 5 seconds, and uses the token at 9 seconds.
abbrev admin_login : Result (LoginAnswer (String × JwtPayload)) × Store Amount
admin_login = login signed_tokens passwords config (credentials "admin" (some 7)) 77 5000 staffed

abbrev admin_token : String × JwtPayload
admin_token =
    issued_token signed_tokens config "secret" 77 5000 (user 8 "admin") manager 7 "Cab" none

admin_answer : admin_login.0 ≡ ok (access admin_token 28800)
unfolding login validate_user generate_unified_access_token
admin_answer = refl

nothing_revoked : (id : Uuid) → is_token_revoked cache id 9000 [] ≡ false
unfolding is_token_revoked
nothing_revoked id = refl

nobody_revoked : (id : Uuid) → is_user_revoked cache id 5 9000 [] ≡ false
unfolding is_user_revoked
nobody_revoked id = refl

admin-IsCurrent :
    IsCurrent signed_tokens cache queries config "secret" [] 5000 9000 77 staffed (user 8 "admin")
admin-IsCurrent = record {
  for_api = refl;
  in_time = omega arith;
  row = refl;
  is_active = refl;
  has_email = refl;
  not_revoked = nothing_revoked 77;
  user_not_revoked = nobody_revoked 8;
}

login_token_accepted_example :
    (m : Membership) × (name : String) × Memᴰ m staffed.memberships
    × (m.user_id ≡ 8)
    × (is_user (some 7) m.tenant_id ≡ true)
    × (authenticate signed_tokens cache queries "secret" [] 9000 admin_token staffed ≡ (
      if is_driver_role m.role
          then thrown malformed
          else ok (request_user (user 8 "admin") m.role m.tenant_id name none 77),
      staffed,
    ))
login_token_accepted_example =
    login_token_accepted signed_tokens passwords cache queries config (credentials "admin" (some 7))
      77 5000 9000 staffed (user 8 "admin") "secret" [] admin_token 28800 refl refl admin-IsCurrent
      admin_answer

abbrev driver_token : String × JwtPayload
driver_token =
    issued_token signed_tokens config "secret" 78 5000 (user 9 "driver") driver 1 "Taxi" (some 5)

driver_answer :
    (login_driver_v1 signed_tokens passwords config (credentials "driver" none) 78 5000 staffed).0
    ≡ ok (access driver_token 28800)
unfolding login_driver_v1 validate_user generate_unified_access_token
driver_answer = refl

driver-IsCurrent :
    IsCurrent signed_tokens cache queries config "secret" [] 5000 9000 78 staffed (user 9 "driver")
driver-IsCurrent = record {
  for_api = refl;
  in_time = omega arith;
  row = refl;
  is_active = refl;
  has_email = refl;
  not_revoked = nothing_revoked 78;
  user_not_revoked = nobody_revoked 9;
}

staffed-UniqueProfiles :
    UniqueProfiles signed_tokens passwords cache queries config
      (credentials "driver" none)
      78
      5000
      9000
      "secret"
      []
      staffed
staffed-UniqueProfiles = record { ids = λ id. ground arith; users = λ id. ground arith }

-- In between a ride has begun.
abbrev busier : Store Amount
busier = record staffed { rides = [] }

busier-IsCurrent :
    IsCurrent signed_tokens cache queries config "secret" [] 5000 9000 78 busier (user 9 "driver")
busier-IsCurrent = record {
  for_api = driver-IsCurrent.for_api;
  in_time = driver-IsCurrent.in_time;
  row = refl;
  is_active = driver-IsCurrent.is_active;
  has_email = driver-IsCurrent.has_email;
  not_revoked = driver-IsCurrent.not_revoked;
  user_not_revoked = driver-IsCurrent.user_not_revoked;
}

login_driver_accepted_example :
    IsDriverToken signed_tokens passwords cache queries config
      (credentials "driver" none)
      78
      5000
      9000
      "secret"
      []
      staffed
      busier
      (user 9 "driver")
      (access driver_token 28800)
login_driver_accepted_example =
    login_driver_accepted signed_tokens passwords cache queries config (credentials "driver" none)
      78 5000 9000 "secret" [] staffed busier (user 9 "driver") (access driver_token 28800)
      staffed-UniqueProfiles refl refl busier-IsCurrent refl driver_answer

admin_accepted :
    (authenticate signed_tokens cache queries "secret" [] 9000 admin_token staffed).0
    ≡ ok (request_user (user 8 "admin") manager 7 "Cab" none 77)
unfolding authenticate validate validate_payload_structure validate_admin_manager_status
    is_token_revoked is_user_revoked
admin_accepted = refl

authenticate_sound_example :
    IsAuthenticated signed_tokens cache queries "secret" [] 9000 admin_token staffed
      (request_user (user 8 "admin") manager 7 "Cab" none 77)
authenticate_sound_example =
    authenticate_sound signed_tokens cache queries "secret" [] 9000 admin_token staffed
      (request_user (user 8 "admin") manager 7 "Cab" none 77) admin_accepted

-- Between the logout and the next use, everything of the user is revoked too.
abbrev later_revokes : List Revoke
later_revokes = all_tokens 8 7000 ∷ one_token 12 (some 99) 8000 ∷ []

revoked_token_refused_example :
    is_ok
      (authenticate signed_tokens cache queries "secret"
        (revoke_each cache 12 later_revokes (revoke_token cache 77 (some 28805) 6000 []))
        9000
        admin_token
        staffed).0
    ≡ false
revoked_token_refused_example =
    revoked_token_refused signed_tokens cache queries "secret" [] 6000 9000 12 admin_token.1 77
      later_revokes staffed refl (omega arith) (tt, ((λ e. absurd (omega (arith, e))), tt))

abbrev new_company : RegisterDto
new_company = record {
  email = "new";
  password = "pass";
  tenant_name = "New";
  business_id = "7654321-0";
}

registration :
    (register signed_tokens passwords config new_company 40 41 0 5000 staffed).0
    ≡ ok (access ("secret", register_payload config 40 "new" 41 "New" 5000) 3600)
unfolding register
registration = refl

register_token_refused_example :
    is_ok
      (authenticate signed_tokens cache queries "secret" [] 9000
        ("secret", register_payload config 40 "new" 41 "New" 5000)
        staffed).0
    ≡ false
register_token_refused_example =
    register_token_refused signed_tokens passwords cache queries config new_company 40 41 0 5000
      staffed "secret" ("secret", register_payload config 40 "new" 41 "New" 5000) 3600 [] 9000
      staffed refl registration

abbrev offered : List TenantChoice
offered = map (membership_choice staffed) staffed.memberships

selection_answer :
    (login signed_tokens passwords config (credentials "admin" none) 77 5000 staffed).0
    ≡ ok (selection offered (login_ticket signed_tokens config 8 5000))
unfolding login validate_user generate_unified_access_token
selection_answer = refl

select_after_login_example :
    (m : Membership) × Memᴰ m staffed.memberships
    × (m.user_id ≡ 8)
    × (m.tenant_id ≡ 7)
    × (select_tenant signed_tokens queries config
          (login_ticket signed_tokens config 8 5000)
          7
          79
          9000
          staffed
        ≡ (
          ok (
              access
                (issued_token signed_tokens config "secret" 79 9000
                  (user 8 "admin")
                  m.role
                  7
                  "Cab"
                  none)
                28800),
          staffed,
        ))
select_after_login_example =
    select_after_login signed_tokens passwords queries config (credentials "admin" none) 77 5000
      staffed offered (login_ticket signed_tokens config 8 5000)
      (record { tenant_id = 7; tenant_name = some "Cab"; role = some manager }) (user 8 "admin")
      "Cab" "secret" 79 9000 selection_answer (Memᴰ.tail (Memᴰ.head refl)) (omega arith) refl refl
      refl refl
