-- ===== src/Ride/Answers.antt =====
-- What `endRide` answers: amounts as texts of two decimal places, and the breakdown of the fare.
use typescript_version_taxi.Base.{Option, String, if◌then◌else◌, none, some, str_eq}
use typescript_version_taxi.External.Decimals.{Decimals}
use typescript_version_taxi.Ride.Fare.{FareResult}
use typescript_version_taxi.Schema.{
  Payment, PaymentStatus, Ride, RidePricingMode, RideStatus, Time, Uuid, completed, custom_fixed,
  fixed_price, meter,
}

-- `FareBreakdownDto`; the members of the other pricing modes are absent.
pub record FareBreakdown : Type 0 where
  pub pricing_mode : RidePricingMode
  pub base : Option String
  pub distance_component : Option String
  pub time_component : Option String
  pub surcharge_multiplier : Option String
  pub fixed_amount : Option String
  pub fixed_policy_name : Option String
  pub custom_amount : Option String
  pub subtotal : String
  pub tax_amount : String
  pub total : String
  pub currency : String

module _ (D : Type 0) where
  -- Times, the duration and the distance stay values here.
  pub record EndRideResponse : Type 0 where
    pub ride_id : Uuid
    pub status : RideStatus
    pub tenant_id : Uuid
    pub driver_profile_id : Uuid
    pub pricing_mode : RidePricingMode
    pub pricing_policy_id : Option Uuid
    pub fixed_price_policy_id : Option Uuid
    pub started_at : Time
    pub ended_at : Time
    pub duration_minutes : D
    pub distance_km : D
    pub fare_subtotal : String
    pub tax_amount : String
    pub fare_total : String
    pub fare : FareBreakdown
    pub payment_id : Uuid
    pub payment_status : PaymentStatus
    pub external_payment_id : Option String

module _ (dec : Decimals) where
  open dec use {Decimal, to_dp, to_string}

  -- `money`
  abbrev pub money : Decimal → String
  money d = to_string (to_dp 2 d)

  abbrev pub money_of : Option Decimal → String
  money_of none = "0.00"
  money_of (some d) = money d

  abbrev text_or : Option Decimal → String → String
  text_or none default = default
  text_or (some d) default = to_string d

  -- `policyName || 'Fixed Rate'`
  abbrev name_or : Option String → String → String
  name_or none default = default
  name_or (some name) default = if str_eq name "" then default else name

  abbrev pub breakdown : RidePricingMode → FareResult Decimal → FareBreakdown
  breakdown meter fare = record {
    pricing_mode = meter;
    base = some (money_of fare.base);
    distance_component = some (money_of fare.distance_component);
    time_component = some (money_of fare.time_component);
    surcharge_multiplier = some (text_or fare.multiplier "1.00");
    fixed_amount = none;
    fixed_policy_name = none;
    custom_amount = none;
    subtotal = money fare.subtotal;
    tax_amount = money fare.tax;
    total = money fare.total;
    currency = "EUR";
  }
  breakdown fixed_price fare = record {
    pricing_mode = fixed_price;
    base = none;
    distance_component = none;
    time_component = none;
    surcharge_multiplier = none;
    fixed_amount = some (money fare.subtotal);
    fixed_policy_name = some (name_or fare.policy_name "Fixed Rate");
    custom_amount = none;
    subtotal = money fare.subtotal;
    tax_amount = money fare.tax;
    total = money fare.total;
    currency = "EUR";
  }
  breakdown custom_fixed fare = record {
    pricing_mode = custom_fixed;
    base = none;
    distance_component = none;
    time_component = none;
    surcharge_multiplier = none;
    fixed_amount = none;
    fixed_policy_name = none;
    custom_amount = some (money fare.subtotal);
    subtotal = money fare.subtotal;
    tax_amount = money fare.tax;
    total = money fare.total;
    currency = "EUR";
  }

  abbrev pub end_response :
      Ride Decimal
      → Time
      → Decimal
      → Decimal
      → FareResult Decimal
      → Payment Decimal
      → EndRideResponse Decimal
  end_response ride ended_at duration distance fare payment = record {
    ride_id = ride.id;
    status = completed;
    tenant_id = ride.tenant_id;
    driver_profile_id = ride.driver_profile_id;
    pricing_mode = ride.pricing_mode;
    pricing_policy_id = ride.pricing_policy_id;
    fixed_price_policy_id = ride.fixed_price_policy_id;
    started_at = ride.started_at;
    ended_at = ended_at;
    duration_minutes = duration;
    distance_km = distance;
    fare_subtotal = money fare.subtotal;
    tax_amount = money fare.tax;
    fare_total = money fare.total;
    fare = breakdown ride.pricing_mode fare;
    payment_id = payment.id;
    payment_status = payment.status;
    external_payment_id = payment.external_payment_id;
  }
