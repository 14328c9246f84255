-- ===== src/Pricing/Options/Startable.antt =====
-- What the listed options are good for: a ride can be started with them.
use typescript_version_taxi.Base.{
  ==_iff, ==_refl, All, All-mem, Bool, List, Memᴰ, Option, Option-cases, [], ap, arith, count,
  false, filter, inl, inr, is_ok, map, none, ok, refl, some, true, ◌&&◌, ◌++◌, ◌==◌, ◌↔◌, ◌∙◌, ◌∷◌,
  ◌≡◌, ◌≤◌, ◌⊎◌,
}
use typescript_version_taxi.Base.Members.{All-of-mem, mem-filter, mem-map}
use typescript_version_taxi.Base.Rows.{unique_row}
use typescript_version_taxi.External.Decimals.{Decimals}
use typescript_version_taxi.External.Queries.{Queries, find_first_count}
use typescript_version_taxi.Numbering.Unique.{own}
use typescript_version_taxi.Pricing.{active_in}
use typescript_version_taxi.Pricing.Options.{
  find_many, fixed_in, is_member, list_all_policies, list_available_policies_for_ride, meter_in,
}
use typescript_version_taxi.Pricing.Responses.{
  AllPolicies, AvailablePricingOptions, FixedOption, FixedPolicyInfo, MeterPolicyInfo,
  custom_option, fixed_info, fixed_option, meter_info, meter_option,
}
use typescript_version_taxi.Ride.Guards.{is_live, is_profile_of, open_ride_of}
use typescript_version_taxi.Ride.Start.{
  StartRideDto, create_ride, fixed_policy_for, is_for, new_ride, resume_or_create, start_response,
  start_ride, validate_fixed_price_mode, validate_meter_mode, validate_mode,
}
use typescript_version_taxi.Schema.{
  DriverProfile, FixedPricePolicy, PricingPolicy, Store, Tenant, Time, Uuid, driver, fixed_price,
  meter,
}

-- A row that a listing shows stands in the table and matches.
mem-find_many :
    {A : Type 0} (q : Queries) (dec : Decimals) (p : A → Bool) (xs : List A) (a : A)
    → Memᴰ a (find_many dec q p xs)
    → Memᴰ a xs × (p a ≡ true)
mem-find_many q dec p xs a m = mem-filter p xs a (q.order_by_mem _ (filter p xs) a m)

abbrev pub fixed_id_is : {D : Type 0} → Uuid → FixedPricePolicy D → Bool
fixed_id_is id f = f.id == id

is_for_iff :
    (profile : Uuid) (owner : Option Uuid)
    → is_for profile owner ≡ true ↔ (owner ≡ none) ⊎ (owner ≡ some profile)
is_for_iff profile none = (λ h. inl refl, λ h. refl)
is_for_iff profile (some d) = (
  λ h. inr (ground arith),
  λ h. elim h [ inl e ↦ absurd (ground (arith, e)) | inr e ↦ ground (arith, e) ],
)

module _ (dec : Decimals) (q : Queries) (tenant user : Uuid) (s : Store dec.Decimal) where
  open dec use {Decimal}
  open q use {find_first, find_first_mem, find_first_matches, find_first_none}

  available_ok :
      (answer : AvailablePricingOptions)
      → (list_available_policies_for_ride dec q tenant user driver s).0 ≡ ok answer
      → (t : Tenant) × (chosen : PricingPolicy Decimal) × ((find_first
              (λ (t : Tenant). t.id == tenant)
              s.tenants
            ≡ some t)
          × (is_live t ≡ true)
          × (find_first (active_in tenant) s.pricing_policies ≡ some chosen)
          × (answer ≡ record {
            meter_policy = meter_option dec t chosen;
            fixed_price_policies =
                map (fixed_option dec t) (find_many dec q (fixed_in tenant) s.fixed_price_policies);
            custom_fixed_option = custom_option dec;
          }))
  unfolding list_available_policies_for_ride
  available_ok answer h =
      elim (Option-cases (find_first (λ (t : Tenant). t.id == tenant) s.tenants)) [
        | inl e ↦ absurd (ground arith)
        | inr (t, e) ↦ elim (Option-cases (find_first (active_in tenant) s.pricing_policies)) [
          | inl f ↦ absurd (ground arith)
          | inr (chosen, f) ↦ (t, chosen, (e, ground arith, f, ground arith))
        ]
      ]

  accepted :
      (profile : Uuid) (f : FixedPricePolicy Decimal)
      → ((id : Uuid) → count (fixed_id_is id) s.fixed_price_policies ≤ 1)
      → Memᴰ f s.fixed_price_policies
      → f.tenant_id ≡ tenant
      → is_ok (validate_fixed_price_mode q tenant profile (some f.id) s).0
        ≡ f.is_active && is_for profile f.driver_profile_id
  unfolding validate_fixed_price_mode
  accepted profile f unique m own =
      elim (Option-cases
        (find_first (fixed_policy_for q tenant profile (some f.id)) s.fixed_price_policies)) [
          | inl e ↦
              let no_match =
                All-mem (λ x. fixed_policy_for q tenant profile (some f.id) x ≡ false) m
                  (find_first_none _ _ e) in
              ground (arith, no_match, own)
          | inr (g, e) ↦
              let fits = find_first_matches _ _ g e in
              let same =
                All-mem (λ x. fixed_id_is f.id x ≡ true → x ≡ f) (find_first_mem _ _ g e)
                  (unique_row (fixed_id_is f.id) f s.fixed_price_policies (unique f.id) m
                    (==_refl f.id)) in
              ground (arith, same (ground (arith, fits)), fits)
        ]

  -- The administration's listing shows policies of the caller's tenant only, and only to a member
  -- of it.
  pub list_all_policies_isolated :
      (answer : AllPolicies)
      → (list_all_policies dec q tenant user s).0 ≡ ok answer
      → All (λ m. m.tenant_id ≡ tenant) answer.meter_policies
        × All (λ f. f.tenant_id ≡ tenant) answer.fixed_price_policies
        × (1 ≤ count (is_member user tenant) s.memberships)
  unfolding list_all_policies
  list_all_policies_isolated answer h =
      elim (Option-cases (find_first (λ (t : Tenant). t.id == tenant) s.tenants)) [
        | inl e ↦ absurd (ground arith)
        | inr (t, e) ↦
            let same : t.id ≡ tenant = (==_iff t.id tenant).0 (find_first_matches _ _ t e) in
            let shown : answer ≡ record {
              meter_policies =
                  map (meter_info dec t) (find_many dec q (meter_in tenant) s.pricing_policies);
              fixed_price_policies =
                  map (fixed_info dec t) (find_many dec q (fixed_in t.id) s.fixed_price_policies);
            } =
              ground arith in
            (
              rw shown (
                  All-of-mem _ _ (λ m k.
                    let (p, row, o) =
                      mem-map (meter_info dec t)
                        (find_many dec q (meter_in tenant) s.pricing_policies) m k in
                    ap (λ (x : MeterPolicyInfo). x.tenant_id) o
                    ∙ (==_iff p.tenant_id tenant).0
                        (mem-find_many q dec (meter_in tenant) s.pricing_policies p row).1)),
              rw shown (
                  All-of-mem _ _ (λ m k.
                    let (p, row, o) =
                      mem-map (fixed_info dec t)
                        (find_many dec q (fixed_in t.id) s.fixed_price_policies) m k in
                    ap (λ (x : FixedPolicyInfo). x.tenant_id) o
                    ∙ (==_iff p.tenant_id t.id).0
                        (mem-find_many q dec (fixed_in t.id) s.fixed_price_policies p row).1
                    ∙ same)),
              ground (arith, find_first_count q (is_member user tenant) s.memberships),
            )
      ]

  module _ (answer : AvailablePricingOptions)
      (listed : (list_available_policies_for_ride dec q tenant user driver s).0 ≡ ok answer) where
    -- The meter policy that a driver is offered is the one that the driver's next ride gets: with an
    -- active profile and no open ride, starting a metered ride succeeds and stores it.
    pub meter_option_startable :
        (dto : StartRideDto) (p : DriverProfile) (id : Uuid) (now : Time)
        → find_first (is_profile_of user tenant) s.driver_profiles ≡ some p
        → count (open_ride_of p.id) s.rides ≡ 0
        → dto.pricing_mode ≡ meter
        → let ride =
            new_ride dec tenant p.id dto
              (record {
                meter_id = some answer.meter_policy.id;
                fixed_id = none;
                custom_fare = none;
              })
              id
              now in
          start_ride dec q dto user tenant id now s
          ≡ (ok (start_response dec ride), record s { rides = s.rides ++ ride ∷ [] })
    unfolding list_available_policies_for_ride start_ride resume_or_create create_ride validate_mode
        validate_meter_mode
    meter_option_startable dto p id now profile_row free mode =
        let (t, chosen, (tenant_row, live, meter_row, e)) = available_ok answer listed in
        ground (
          arith,
          tenant_row,
          live,
          meter_row,
          e,
          profile_row,
          free,
          mode,
          find_first_count q (open_ride_of p.id) s.rides,
        )

    -- Every fixed price that the listing offers is the tenant's, and a `startRide` with it, by a
    -- driver with an active profile and no open ride, succeeds exactly when its policy is active
    -- and is no driver's or the caller's own, where ids are unique: the listing itself does not
    -- look at that.
    pub fixed_option_accepted :
        (option : FixedOption) (dto : StartRideDto) (p : DriverProfile) (id : Uuid) (now : Time)
        → ((id : Uuid)
            → count (λ (f : FixedPricePolicy Decimal). f.id == id) s.fixed_price_policies ≤ 1)
        → Memᴰ option answer.fixed_price_policies
        → find_first (is_profile_of user tenant) s.driver_profiles ≡ some p
        → count (open_ride_of p.id) s.rides ≡ 0
        → dto.pricing_mode ≡ fixed_price
        → dto.fixed_pricing_policy_id ≡ some option.id
        → (f : FixedPricePolicy Decimal) × Memᴰ f s.fixed_price_policies
          × (option.id ≡ f.id)
          × (f.tenant_id ≡ tenant)
          × (is_ok (start_ride dec q dto user tenant id now s).0 ≡ true
              ↔ (f.is_active ≡ true)
                × ((f.driver_profile_id ≡ none) ⊎ (f.driver_profile_id ≡ some p.id)))
    unfolding start_ride resume_or_create create_ride validate_mode validate_fixed_price_mode
    fixed_option_accepted option dto p id now unique m profile_row free mode chosen_id =
        let (t, chosen, (tenant_row, live, _, e)) = available_ok answer listed in
        let (f, shown, o) =
          mem-map (fixed_option dec t) (find_many dec q (fixed_in tenant) s.fixed_price_policies)
            option (rw e at m) in
        let (row, own) = mem-find_many q dec (fixed_in tenant) s.fixed_price_policies f shown in
        let same_id : option.id ≡ f.id = ap (λ (x : FixedOption). x.id) o in
        let same_tenant : f.tenant_id ≡ tenant = (==_iff f.tenant_id tenant).0 own in
        let fits = accepted p.id f unique row same_tenant in
        let no_ride = find_first_count q (open_ride_of p.id) s.rides in
        let starts : is_ok (start_ride dec q dto user tenant id now s).0
            ≡ f.is_active && is_for p.id f.driver_profile_id =
          elim (Option-cases
            (find_first (fixed_policy_for q tenant p.id (some option.id)) s.fixed_price_policies)) [
              | inl g ↦
                  ground (arith, tenant_row, live, profile_row, free, mode, chosen_id, no_ride, g)
              | inr (x, g) ↦
                  ground (arith, tenant_row, live, profile_row, free, mode, chosen_id, no_ride, g)
            ]
          ∙ ap (λ i. is_ok (validate_fixed_price_mode q tenant p.id (some i) s).0) same_id
          ∙ fits in
        let mine = is_for_iff p.id f.driver_profile_id in
        (
          f,
          row,
          same_id,
          same_tenant,
          (
            λ k. (ground (arith, starts, k), mine.0 (ground (arith, starts, k))),
            λ (on, k). ground (arith, starts, on, mine.1 k),
          ),
        )
