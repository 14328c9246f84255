-- ===== src/Receipt/Issue.antt =====
-- The theorems about issuing a receipt.
use typescript_version_taxi.Base.{
  Bool-cases, Exception, List, Memᴰ, Option, Option-cases, Result, String, [], arith, conflict,
  count, false, inl, inr, is_ok, none, not_found, ok, plain_error, refl, some, thrown, true,
  update_many, ◌++◌, ◌∷◌, ◌≡◌, ◌≤◌, ◌⊎◌,
}
use typescript_version_taxi.External.Jwt.{Jwt}
use typescript_version_taxi.External.Queries.{Queries}
use typescript_version_taxi.Payment.{is_paid}
use typescript_version_taxi.Payment.Outcome.{paid_of}
use typescript_version_taxi.Receipt.{
  GenerateReceiptResponse, generate_receipt, issue_receipt, new_receipt, own_ride, payment_in,
  published, receipt_id_is, receipt_of, receipt_response, reissued, snapshot, upsert_receipt,
}
use typescript_version_taxi.Ride.Finish.Outcome.{settled}
use typescript_version_taxi.Ride.Guards.{completed_of, is_completed}
use typescript_version_taxi.Ride.Guards.Outcome.{IsAllowed, checks_cases}
use typescript_version_taxi.Schema.{
  DriverProfile, Payment, Receipt, Ride, Store, Tenant, Time, Uuid, completed, paid,
}

-- A ride has one receipt at most, and no two receipts share an id or a public id (unique keys).
pub record UniqueReceipts {D : Type 0} (rs : List (Receipt D)) : Type 0 where
  pub of_ride : (ride : Uuid) → count (receipt_of ride) rs ≤ 1
  pub of_id : (id : Uuid) → count (receipt_id_is id) rs ≤ 1
  pub of_public : (text : String) → count (published text) rs ≤ 1

module _ {D : Type 0} where
  -- The receipts after the upsert, and its row, from the receipt that was found.
  abbrev pub issued_at :
      Option (Receipt D) → Receipt D → (Receipt D → Receipt D) → List (Receipt D) → List (Receipt D)
  issued_at none fresh write rs = rs ++ fresh ∷ []
  issued_at (some r) fresh write rs = update_many (receipt_id_is r.id) write rs

  abbrev pub row_at : Option (Receipt D) → Receipt D → (Receipt D → Receipt D) → Receipt D
  row_at none fresh write = fresh
  row_at (some r) fresh write = write r

module _ (q : Queries) (jwt : Jwt) {D : Type 0} (ride_id tenant user id : Uuid) (public_id : String)
    (now : Time) where
  open q use {find_first, find_first_mem, find_first_matches}
  open jwt use {Token}

  -- What a receipt certifies.
  pub record IsIssued (s : Store D) (r : Result (GenerateReceiptResponse D Token) × Store D)
      : Type 0 where
    pub t : Tenant
    pub p : DriverProfile
    pub ride : Ride D
    pub payment : Payment D
    pub old : Option (Receipt D)
    pub allowed : IsAllowed q s user tenant t p
    pub ride_listed : Memᴰ ride s.rides
    pub own : own_ride ride_id tenant p.id ride ≡ true
    pub ride_done : ride.status ≡ completed
    pub payment_listed : Memᴰ payment s.payments
    pub pays_ride : payment_in ride.id tenant payment ≡ true
    pub payment_done : payment.status ≡ paid
    pub old_row : find_first (receipt_of ride.id) s.receipts ≡ old
    pub result :
        let shown = snapshot t ride payment now in
        let fresh = new_receipt tenant ride.id payment shown id public_id now in
        r ≡ (
          ok (
              receipt_response q jwt tenant ride payment now
                (row_at old fresh (reissued payment shown now))),
          record s { receipts = issued_at old fresh (reissued payment shown now) s.receipts },
        )

  pub data Outcome (s : Store D) (r : Result (GenerateReceiptResponse D Token) × Store D)
      : Type 0 where
    refused : (e : Exception) → r ≡ (thrown e, s) → Outcome s r
    issued : IsIssued s r → Outcome s r

  upsert_receipt_eq :
      (t : Tenant) (ride : Ride D) (payment : Payment D) (s : Store D)
      → let shown = snapshot t ride payment now in
        let fresh = new_receipt tenant ride.id payment shown id public_id now in
        let old = find_first (receipt_of ride.id) s.receipts in
        upsert_receipt q jwt t tenant ride payment id public_id now s ≡ (
          ok (row_at old fresh (reissued payment shown now)),
          record s { receipts = issued_at old fresh (reissued payment shown now) s.receipts },
        )
  unfolding upsert_receipt
  upsert_receipt_eq t ride payment s = ground arith

  issue_receipt-Outcome :
      (t : Tenant) (p : DriverProfile) (s : Store D)
      → IsAllowed q s user tenant t p
      → Outcome s (issue_receipt q jwt ride_id tenant id public_id now t p s)
  unfolding issue_receipt
  issue_receipt-Outcome t p s allowed =
      elim (Option-cases (find_first (own_ride ride_id tenant p.id) s.rides)) [
        | inl e ↦ refused (not_found "Ride not found for this driver") (ground arith)
        | inr (ride, e) ↦ elim (Bool-cases (is_completed ride.status)) [
          | inr early ↦
              refused (conflict "Cannot generate receipt for incomplete ride") (ground arith)
          | inl ended ↦ elim (Option-cases (find_first (payment_in ride.id tenant) s.payments)) [
            | inl f ↦ refused (not_found "No paid payment found for this ride") (ground arith)
            | inr (payment, f) ↦ elim (Bool-cases (is_paid payment.status)) [
              | inr unpaid ↦
                  refused (conflict "Cannot generate receipt for unpaid ride") (ground arith)
              | inl settled ↦
                  let up = upsert_receipt_eq t ride payment s in
                  issued (record {
                    t = t;
                    p = p;
                    ride = ride;
                    payment = payment;
                    old = find_first (receipt_of ride.id) s.receipts;
                    allowed = allowed;
                    ride_listed = find_first_mem _ _ ride e;
                    own = find_first_matches _ _ ride e;
                    ride_done = completed_of ride.status ended;
                    payment_listed = find_first_mem _ _ payment f;
                    pays_ride = find_first_matches _ _ payment f;
                    payment_done = paid_of payment.status settled;
                    old_row = refl;
                    result = ground (arith, up);
                  })
            ]
          ]
        ]
      ]

  pub generate_receipt-Outcome :
      (s : Store D) → Outcome s (generate_receipt q jwt ride_id tenant user id public_id now s)
  unfolding generate_receipt
  generate_receipt-Outcome s =
      elim (checks_cases q s user tenant (plain_error "Tenant not found or deleted")
        (issue_receipt q jwt ride_id tenant id public_id now)) [
          | inl (e, h) ↦ refused e h
          | inr (t, p, allowed, h) ↦ rw h (issue_receipt-Outcome t p s allowed)
        ]

  abbrev run : Store D → Result (GenerateReceiptResponse D Token) × Store D
  run = generate_receipt q jwt ride_id tenant user id public_id now

  pub generate_receipt-cases :
      (s : Store D) → ((is_ok (run s).0 ≡ false) × ((run s).1 ≡ s)) ⊎ IsIssued s (run s)
  generate_receipt-cases s = elim (generate_receipt-Outcome s) [
    | refused e r ↦ inl (rw r refl, rw r refl)
    | issued i ↦ inr i
  ]
