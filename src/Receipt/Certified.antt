-- ===== src/Receipt/Certified.antt =====
-- What `generateReceipt` certifies, and the row that it leaves.
use typescript_version_taxi.Base.{
  ==_refl, List, Memᴰ, Option, Result, String, arith, false, inl, inr, is_ok, none, refl, some,
  true, ◌+◌, ◌∙◌, ◌≡◌, ◌⊎◌,
}
use typescript_version_taxi.Base.Rows.{mem-append_right, mem-update_many}
use typescript_version_taxi.External.Jwt.{Jwt}
use typescript_version_taxi.External.Queries.{Queries}
use typescript_version_taxi.Receipt.{
  GenerateReceiptResponse, day, generate_receipt, new_receipt, receipt_id_is, receipt_of, reissued,
  snapshot,
}
use typescript_version_taxi.Receipt.Issue.{IsIssued, generate_receipt-cases, issued_at, row_at}
use typescript_version_taxi.Schema.{
  DriverProfile, Payment, Receipt, Ride, Snapshot, Store, Time, Uuid, completed, paid,
}

module _ (q : Queries) (jwt : Jwt) {D : Type 0} (ride_id tenant user id : Uuid) (public_id : String)
    (now : Time) where
  open q use {find_first, find_first_mem, find_first_matches}
  open jwt use {Token}

  abbrev run : Store D → Result (GenerateReceiptResponse D Token) × Store D
  run = generate_receipt q jwt ride_id tenant user id public_id now

  -- What a receipt certifies, spelled out: the ride and payment that it is for, and the row that is
  -- in the table afterwards.
  pub record IsCertified (s after_run : Store D) : Type 0 where
    pub profile : DriverProfile
    pub ride : Ride D
    pub payment : Payment D
    pub row : Receipt D
    pub of_user : profile.user_id ≡ user
    pub in_tenant : profile.tenant_id ≡ tenant
    pub in_service : profile.is_active ≡ true
    pub ride_listed : Memᴰ ride s.rides
    pub asked_for : ride.id ≡ ride_id
    pub ride_tenant : ride.tenant_id ≡ tenant
    pub driven : ride.driver_profile_id ≡ profile.id
    pub ride_done : ride.status ≡ completed
    pub payment_listed : Memᴰ payment s.payments
    pub pays_ride : payment.ride_id ≡ ride_id
    pub payment_tenant : payment.tenant_id ≡ tenant
    pub payment_done : payment.status ≡ paid
    pub row_listed : Memᴰ row after_run.receipts
    pub row_ride : row.ride_id ≡ ride_id
    pub row_payment : row.payment_id ≡ payment.id
    pub valid_until : (row.issued_at ≡ now) × (row.expires_at ≡ some (now + 86400000))
    pub shown_ids :
        (row.data_json.tenant_id ≡ tenant)
        × (row.data_json.ride_id ≡ ride_id)
        × (row.data_json.payment_id ≡ payment.id)
    pub shown_ride :
        (row.data_json.started_at ≡ ride.started_at)
        × (row.data_json.ended_at ≡ ride.ended_at)
        × (row.data_json.distance_km ≡ ride.distance_km)
        × (row.data_json.duration_min ≡ ride.duration_min)
    pub shown_payment :
        (row.data_json.subtotal ≡ payment.amount)
        × (row.data_json.currency ≡ payment.currency)
        × (row.data_json.payment_status ≡ paid)
        × (row.data_json.provider ≡ payment.provider)
        × (row.data_json.captured_at ≡ payment.captured_at)
    pub shown_at : row.data_json.issued_at ≡ now
    pub only_receipts : after_run ≡ record s { receipts = after_run.receipts }

  -- The row of the upsert is in the table, for the ride, with the data that is shown.
  abbrev IsRow : Uuid → Uuid → Snapshot D → List (Receipt D) → Receipt D → Type 0
  IsRow ride payment shown rs r =
      Memᴰ r rs
      × (r.ride_id ≡ ride)
      × (r.payment_id ≡ payment)
      × (r.issued_at ≡ now)
      × (r.expires_at ≡ some (now + day))
      × (r.data_json ≡ shown)

  row_at-IsRow :
      (ride : Uuid) (p : Payment D) (shown : Snapshot D) (rs : List (Receipt D))
      (old : Option (Receipt D))
      → find_first (receipt_of ride) rs ≡ old
      → let fresh = new_receipt tenant ride p shown id public_id now in
        IsRow ride p.id shown
          (issued_at old fresh (reissued p shown now) rs)
          (row_at old fresh (reissued p shown now))
  row_at-IsRow ride p shown rs none e =
      (mem-append_right rs (Memᴰ.head refl), refl, refl, refl, refl, refl)
  row_at-IsRow ride p shown rs (some r) e = (
    mem-update_many (receipt_id_is r.id) _ (==_refl r.id) (find_first_mem _ rs r e),
    ground (arith, find_first_matches _ rs r e),
    refl,
    refl,
    refl,
    refl,
  )

  issued-IsCertified :
      (s : Store D) (r : Result (GenerateReceiptResponse D Token) × Store D)
      → IsIssued q jwt ride_id tenant user id public_id now s r
      → IsCertified s r.1
  issued-IsCertified s r i =
      let same_ride : i.ride.id ≡ ride_id = ground (arith, i.own) in
      let shown = snapshot i.t i.ride i.payment now in
      let fresh = new_receipt tenant i.ride.id i.payment shown id public_id now in
      let write = reissued i.payment shown now in
      let (listed, for_ride, for_payment, at, until, shows) =
        row_at-IsRow i.ride.id i.payment shown s.receipts i.old i.old_row in
      record {
        profile = i.p;
        ride = i.ride;
        payment = i.payment;
        row = row_at i.old fresh write;
        of_user = i.allowed.user_is;
        in_tenant = i.allowed.tenant_is;
        in_service = i.allowed.active;
        ride_listed = i.ride_listed;
        asked_for = same_ride;
        ride_tenant = ground (arith, i.own);
        driven = ground (arith, i.own);
        ride_done = i.ride_done;
        payment_listed = i.payment_listed;
        pays_ride = ground (arith, i.pays_ride, same_ride);
        payment_tenant = ground (arith, i.pays_ride);
        payment_done = i.payment_done;
        row_listed = rw (i.result) listed;
        row_ride = for_ride ∙ same_ride;
        row_payment = for_payment;
        valid_until = (at, until);
        shown_ids = rw shows (i.allowed.same_tenant, same_ride, refl);
        shown_ride = rw shows (refl, refl, refl, refl);
        shown_payment = rw shows (refl, refl, i.payment_done, refl, refl);
        shown_at = rw shows refl;
        only_receipts = rw (i.result) refl;
      }

  -- `generateReceipt` throws and writes nothing, or: the caller has an active profile in the
  -- request's tenant, the requested ride is a completed ride of that driver and tenant, and has a
  -- paid payment in that tenant; afterwards a receipt of that ride and payment, valid for a day
  -- from now, carries their ids, times, distance, amount and status; and only the receipts change.
  pub generate_receipt_certifies :
      (s : Store D) → ((is_ok (run s).0 ≡ false) × ((run s).1 ≡ s)) ⊎ IsCertified s (run s).1
  generate_receipt_certifies s =
      elim (generate_receipt-cases q jwt ride_id tenant user id public_id now s) [
        | inl none_issued ↦ inl none_issued
        | inr i ↦ inr (issued-IsCertified s (run s) i)
      ]
