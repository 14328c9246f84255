-- ===== src/Tests/Policies.antt =====
-- Meter policies: the theorems at the small database.
use typescript_version_taxi.Base.{All, arith, count, is_ok, refl, some, true, ◌≡◌}
use typescript_version_taxi.Pricing.{CreatePricingPolicyDto, activate, active_in, create, has_id}
use typescript_version_taxi.Pricing.Effects.{activate_only_target}
use typescript_version_taxi.Pricing.Single.{AtMostOneActive, UniqueIds, create_one_active}
use typescript_version_taxi.Tests.Database.{database}
use typescript_version_taxi.Tests.Parameters.{decimals, queries}

database-UniqueIds : UniqueIds database
database-UniqueIds id = ground arith

database-AtMostOneActive : AtMostOneActive database
database-AtMostOneActive t = ground arith

abbrev new_dto : CreatePricingPolicyDto
new_dto = record {
  name = "Night";
  base_fare = "40";
  per_km = "1.2";
  per_min = "1";
  is_active = some true;
}

created_ok : is_ok (create decimals 1 new_dto 8 7000 database).0 ≡ true
unfolding create
created_ok = refl

activated_ok : is_ok (activate queries 1 3 7000 database).0 ≡ true
unfolding activate
activated_ok = refl

create_one_active_example :
    count (active_in 1) (create decimals 1 new_dto 8 7000 database).1.pricing_policies ≡ 1
create_one_active_example =
    create_one_active decimals 1 new_dto 8 7000 database database-AtMostOneActive created_ok

activate_only_target_example :
    All (λ x. active_in 1 x ≡ has_id 3 x) (activate queries 1 3 7000 database).1.pricing_policies
activate_only_target_example =
    activate_only_target queries 1 3 7000 database database-UniqueIds database-AtMostOneActive
      activated_ok
