-- ===== src/Auth/Tickets.antt =====
-- The sign-in in two steps: a selection of tenants with a ticket, then a token for one of them.
use typescript_version_taxi.Base.{
  All-mem, List, Memᴰ, Option-cases, String, ap, arith, filter, find, inl, inr, map, none, ok, refl,
  some, sym, true, ◌&&◌, ◌+◌, ◌/◌, ◌<◌, ◌==◌, ◌∙◌, ◌≡◌,
}
use typescript_version_taxi.Auth.{
  AuthConfig, LoginDto, TenantChoice, access, email_is, generate_unified_access_token, login_ticket,
  membership_choice, membership_of, selection, tenant_name, ticket_payload, user_id_is,
}
use typescript_version_taxi.Auth.Access.{issued_token}
use typescript_version_taxi.Auth.Members.{IsUser, validate_user-cases}
use typescript_version_taxi.Auth.SignIn.{grant_member, login, select_tenant}
use typescript_version_taxi.Base.Members.{List-cases, mem-filter, mem-map}
use typescript_version_taxi.External.Passwords.{Passwords}
use typescript_version_taxi.External.Queries.{Queries}
use typescript_version_taxi.External.Tokens.{Tokens}
use typescript_version_taxi.Numbering.Unique.{own}
use typescript_version_taxi.Payment.{non_empty}
use typescript_version_taxi.Schema.{Membership, Store, Time, User, Uuid}

module _ (tok : Tokens) (pw : Passwords) (q : Queries) (config : AuthConfig) {D : Type 0}
    (dto : LoginDto) (jti : Uuid) (now : Time) where
  open tok use {Token, verify-sign}
  open q use {find_first, find_first_mem, find_first_matches, find_first_none}

  -- The selection names the tenants of the user's memberships.
  pub record IsSelection (s : Store D) (choices : List TenantChoice) (ticket : Token) : Type 0 where
    pub user : User
    pub is_user : IsUser tok pw config dto jti now s user
    pub listed :
        choices ≡ map (membership_choice s) (filter (membership_of (some user.id)) s.memberships)
    pub ticket_of : ticket ≡ login_ticket tok config user.id now

  no_selection :
      (s : Store D) (user : User) (m : Membership) (choices : List TenantChoice) (ticket : Token)
      → (grant_member tok pw config user jti now m s).0 ≡ ok (selection choices ticket)
      → ⊥
  unfolding generate_unified_access_token
  no_selection s user m choices ticket r = elim (Option-cases (tenant_name s m.tenant_id)) [
    | inl e ↦ ground (arith, e, r)
    | inr (name, e) ↦ elim (Option-cases (non_empty config.jwt_secret)) [
      | inl f ↦ ground (arith, e, f, r)
      | inr (secret, f) ↦ ground (arith, e, f, r)
    ]
  ]

  pub login-IsSelection :
      (s : Store D) (choices : List TenantChoice) (ticket : Token)
      → (login tok pw config dto jti now s).0 ≡ ok (selection choices ticket)
      → IsSelection s choices ticket
  unfolding login
  login-IsSelection s choices ticket r = elim (validate_user-cases tok pw config dto jti now s) [
    | inl e ↦ absurd (ground (arith, e, r))
    | inr (user, v, e) ↦ elim (List-cases (filter (membership_of (some user.id)) s.memberships)) [
      | inl f ↦ absurd (ground (arith, e, f, r))
      | inr (m, ns, f) ↦ elim (Option-cases dto.tenant_id) [
        | inr (tenant, g) ↦
            elim (Option-cases (
              find (λ x. x.tenant_id == tenant)
                (filter (membership_of (some user.id)) s.memberships))) [
                  | inl h ↦ absurd (ground (arith, e, f, g, h, r))
                  | inr (n, h) ↦
                      absurd (no_selection s user n choices ticket (ground (arith, e, f, g, h, r)))
                ]
        | inl g ↦ elim (List-cases ns) [
          | inl h ↦ absurd (no_selection s user m choices ticket (ground (arith, e, f, g, h, r)))
          | inr (n, rest, h) ↦ record {
            user = user;
            is_user = v;
            listed = ground (arith, e, f, g, h, r);
            ticket_of = ground (arith, e, f, g, h, r);
          }
        ]
      ]
    ]
  ]

  selected :
      (s : Store D) (ticket : Token) (tenant : Uuid) (user : User) (name secret : String)
      (jti' : Uuid) (later : Time)
      → tok.verify config.ticket_secret "tenant-selection" ticket later
        ≡ some (ticket_payload config user.id now)
      → (n : Membership) → Memᴰ n s.memberships
      → n.user_id ≡ user.id
      → n.tenant_id ≡ tenant
      → find (user_id_is user.id) s.users ≡ some user
      → tenant_name s tenant ≡ some name
      → non_empty config.jwt_secret ≡ some secret
      → (m : Membership) × Memᴰ m s.memberships
        × (m.user_id ≡ user.id)
        × (m.tenant_id ≡ tenant)
        × (select_tenant tok q config ticket tenant jti' later s ≡ (
          ok (
              access
                (issued_token tok config secret jti' later user m.role tenant name none)
                config.access_ttl),
          s,
        ))
  unfolding select_tenant generate_unified_access_token
  selected s ticket tenant user name secret jti' later opened n listed own there row named known =
      let key = λ (m : Membership). membership_of (some user.id) m && m.tenant_id == tenant in
      let holds : key n ≡ true = ground (arith, own, there) in
      elim (Option-cases (find_first key s.memberships)) [
        | inl e ↦ absurd (cc (holds, All-mem _ listed (find_first_none key s.memberships e)))
        | inr (m, e) ↦
            let matched : membership_of (some user.id) m && m.tenant_id == tenant ≡ true =
              find_first_matches key s.memberships m e in
            let mine : m.user_id ≡ user.id = ground (arith, matched) in
            let home : m.tenant_id ≡ tenant = ground (arith, matched) in
            (
              m,
              find_first_mem key s.memberships m e,
              mine,
              home,
              ground (
                arith,
                opened,
                e,
                ap (λ id. find (user_id_is id) s.users) mine ∙ row,
                ap (tenant_name s) home ∙ named,
                known,
                home,
              ),
            )
      ]

  -- When `login` has answered with a selection, `selectTenant` with its ticket, within the
  -- ticket's time to live, succeeds for each tenant of the selection and gives a token for a
  -- membership of that user in that tenant, where the user and the tenant's name are in the
  -- database and the secret is configured.
  pub select_after_login :
      (s : Store D) (choices : List TenantChoice) (ticket : Token) (choice : TenantChoice)
      (user : User) (name secret : String) (jti' : Uuid) (later : Time)
      → (login tok pw config dto jti now s).0 ≡ ok (selection choices ticket)
      → Memᴰ choice choices
      → later / 1000 < now / 1000 + config.ticket_ttl
      → find (email_is dto.email) s.users ≡ some user
      → find (user_id_is user.id) s.users ≡ some user
      → choice.tenant_name ≡ some name
      → non_empty config.jwt_secret ≡ some secret
      → (m : Membership) × Memᴰ m s.memberships
        × (m.user_id ≡ user.id)
        × (m.tenant_id ≡ choice.tenant_id)
        × (select_tenant tok q config ticket choice.tenant_id jti' later s ≡ (
          ok (
              access
                (issued_token tok config secret jti' later user m.role choice.tenant_id name none)
                config.access_ttl),
          s,
        ))
  unfolding select_tenant generate_unified_access_token
  select_after_login s choices ticket choice user name secret jti' later r listed in_time by_email
        row named known =
      let v = login-IsSelection s choices ticket r in
      let same : v.user ≡ user = ground (arith, v.is_user.row, by_email) in
      let own_choices = filter (membership_of (some v.user.id)) s.memberships in
      let member : Memᴰ choice (map (membership_choice s) own_choices) = rw (← v.listed) listed in
      let (m, among, shown) = mem-map (membership_choice s) own_choices choice member in
      let (stands, own) = mem-filter (membership_of (some v.user.id)) s.memberships m among in
      let mine : m.user_id ≡ user.id = ground (arith, own, ap (λ (x : User). x.id) same) in
      let there : m.tenant_id ≡ choice.tenant_id =
        sym (ap (λ (x : TenantChoice). x.tenant_id) shown) in
      let name_of : tenant_name s choice.tenant_id ≡ some name =
        ap (tenant_name s) (sym there)
        ∙ sym (ap (λ (x : TenantChoice). x.tenant_name) shown)
        ∙ named in
      let payload = ticket_payload config user.id now in
      let signed : ticket ≡ login_ticket tok config user.id now = v.ticket_of ∙ rw same refl in
      let opened : tok.verify config.ticket_secret "tenant-selection" ticket later ≡ some payload =
        rw signed
          (verify-sign config.ticket_secret "tenant-selection" payload later refl in_time) in
      selected s ticket choice.tenant_id user name secret jti' later opened m stands mine there row
        name_of known
