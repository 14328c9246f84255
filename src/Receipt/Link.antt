-- ===== src/Receipt/Link.antt =====
-- The theorems about the link to a receipt.
use typescript_version_taxi.Base.{
  ==_iff, ==_refl, All, All-mem, List, Option, Option-cases, Result, String, ap, arith, count,
  count-update_many, false, find, inl, inr, is_ok, leb, none, not, ok, refl, some, str_eq_iff, sym,
  thrown, true, update_many, ◌*◌, ◌+◌, ◌∙◌, ◌≡◌, ◌≤◌,
}
use typescript_version_taxi.Base.Rows.{
  find-append, find-none-of-count, find_unique, mem-update_many,
}
use typescript_version_taxi.External.Jwt.{Claims, Jwt}
use typescript_version_taxi.External.Queries.{Queries}
use typescript_version_taxi.Numbering.Unique.{own}
use typescript_version_taxi.Receipt.{
  GenerateReceiptResponse, day, generate_receipt, has_expired, is_receipt_link, link_claims,
  new_receipt, published, receipt_id_is, receipt_of, receipt_response, reissued,
  render_receipt_html, snapshot,
}
use typescript_version_taxi.Receipt.Issue.{
  UniqueReceipts, generate_receipt-cases, issued_at, row_at,
}
use typescript_version_taxi.Schema.{Payment, Receipt, Snapshot, Store, Time, Uuid}

receipt_link_of : (typ : Option String) → is_receipt_link typ ≡ true → typ ≡ some "receipt-link"
receipt_link_of none h = cc
receipt_link_of (some typ) h = ap some ((str_eq_iff typ "receipt-link").0 h)

module _ (q : Queries) (jwt : Jwt) {D : Type 0} (public_id : String) (now : Time)
    (s : Store D) where
  open jwt use {Token, verify}

  -- The link shows a receipt only to the holder of a verified receipt token for its public id, whose
  -- tenant, if it names one, is the receipt's, and only while the receipt has not expired; showing it
  -- writes nothing.
  pub render_authorized :
      (token : Token) (shown : String × Snapshot D)
      → (render_receipt_html q jwt public_id token now s).0 ≡ ok shown
      → (c : Claims) × (r : Receipt D) × (verify token now ≡ some c)
        × (c.public_id ≡ public_id)
        × (c.typ ≡ some "receipt-link")
        × (find (published public_id) s.receipts ≡ some r)
        × (has_expired r.expires_at now ≡ false)
        × ((claimed : Uuid) → c.tenant_id ≡ some claimed → r.tenant_id ≡ claimed)
        × (shown.1 ≡ r.data_json)
        × ((render_receipt_html q jwt public_id token now s).1 ≡ s)
  unfolding render_receipt_html
  render_authorized token shown h = elim (Option-cases (verify token now)) [
    | inl e ↦ absurd (ground arith)
    | inr (c, e) ↦ elim (Option-cases (find (published public_id) s.receipts)) [
      | inl f ↦ absurd (ground arith)
      | inr (r, f) ↦ (
        c,
        r,
        e,
        ground (arith, str_eq_iff c.public_id public_id),
        ground (arith, receipt_link_of c.typ),
        f,
        ground arith,
        λ claimed k. ground arith,
        ground arith,
        ground arith,
      )
    ]
  ]

module _ (q : Queries) (jwt : Jwt) {D : Type 0} (public_id : String) (now : Time)
    (s : Store D) where
  open jwt use {Token, verify}

  -- A verified token of the receipt's own tenant shows the receipt until it expires.
  shown_until :
      (token : Token) (r : Receipt D)
      → verify token now ≡ some (link_claims public_id r.tenant_id)
      → find (published public_id) s.receipts ≡ some r
      → is_ok (render_receipt_html q jwt public_id token now s).0
        ≡ not (has_expired r.expires_at now)
  unfolding render_receipt_html
  shown_until token r v f = ground (
    arith,
    v,
    f,
    str_eq_iff public_id public_id,
    str_eq_iff "receipt-link" "receipt-link",
    ==_refl r.tenant_id,
  )

module _ (q : Queries) {D : Type 0} (tenant ride : Uuid) (now : Time) (rs : List (Receipt D))
    (fresh : Receipt D) (p : Payment D) (shown : Snapshot D) where
  open q use {find_first, find_first_mem, find_first_matches}

  -- The row that was written is the one that its public id finds.
  row_found :
      (old : Option (Receipt D))
      → find_first (receipt_of ride) rs ≡ old
      → UniqueReceipts rs
      → count (published fresh.public_id) rs ≡ 0
      → let row = row_at old fresh (reissued p shown now) in
        find (published row.public_id) (issued_at old fresh (reissued p shown now) rs) ≡ some row
  row_found none e u z =
      find-append (published fresh.public_id) rs fresh (find-none-of-count _ rs z)
        ((str_eq_iff fresh.public_id fresh.public_id).1 refl)
  row_found (some r) e u z =
      find_unique (published r.public_id) (reissued p shown now r)
        (update_many (receipt_id_is r.id) (reissued p shown now) rs)
        (omega (
          arith,
          u.of_public r.public_id,
          count-update_many (receipt_id_is r.id) (published r.public_id) (reissued p shown now)
              (λ x _. refl) rs,
        ))
        (mem-update_many (receipt_id_is r.id) (reissued p shown now) (==_refl r.id)
          (find_first_mem _ _ r e))
        ((str_eq_iff r.public_id r.public_id).1 refl)

  -- It is the tenant's, and expires a day later.
  row_lasts :
      (old : Option (Receipt D))
      → find_first (receipt_of ride) rs ≡ old
      → fresh.tenant_id ≡ tenant
      → fresh.expires_at ≡ some (now + day)
      → All (λ r. r.ride_id ≡ ride → r.tenant_id ≡ tenant) rs
      → let row = row_at old fresh (reissued p shown now) in
        (row.tenant_id ≡ tenant) × (row.expires_at ≡ some (now + day))
  row_lasts none e own x h = (own, x)
  row_lasts (some r) e own x h = (
    All-mem (λ (r : Receipt D). r.ride_id ≡ ride → r.tenant_id ≡ tenant) (find_first_mem _ _ r e) h
        ((==_iff _ _).0 (find_first_matches _ _ r e)),
    refl,
  )

-- The table as its keys, and the randomness of the public id, leave it.
pub record IsReady {D : Type 0} (ride_id tenant : Uuid) (public_id : String) (rs : List (Receipt D))
    : Type 0 where
  pub unique : UniqueReceipts rs
  pub new_text : count (published public_id) rs ≡ 0
  pub same_tenant : All (λ r. r.ride_id ≡ ride_id → r.tenant_id ≡ tenant) rs

module _ (q : Queries) (jwt : Jwt) {D : Type 0} (ride_id tenant user id : Uuid) (public_id : String)
    (now : Time) (s : Store D) where
  open jwt use {Token, sign, verify-sign}

  link_shows :
      (store : Store D) (r : Receipt D) (later : Time)
      → find (published r.public_id) store.receipts ≡ some r
      → r.tenant_id ≡ tenant
      → r.expires_at ≡ some (now + day)
      → later + 1000 ≤ now + 7 * day
      → is_ok
          (render_receipt_html q jwt r.public_id
            (sign (link_claims r.public_id tenant) (60 * 24 * 7) now)
            later
            store).0
        ≡ leb later (now + day)
  link_shows store r later f own lasts h =
      let v =
        verify-sign (link_claims r.public_id tenant) (60 * 24 * 7) now later (omega (arith, h)) in
      shown_until q jwt r.public_id later store _ r
        (v ∙ ap (λ x. some (link_claims r.public_id x)) (sym own)) f
      ∙ ground (arith, lasts)

  abbrev made : Result (GenerateReceiptResponse D Token) × Store D
  made = generate_receipt q jwt ride_id tenant user id public_id now s

  -- The link of a receipt that has just been issued shows it for one day, to the millisecond,
  -- although its token is good for seven; the receipts are supposed to have unique keys, the new
  -- public id to be fresh, and earlier receipts of the ride to be the tenant's.
  pub link_lasts_a_day :
      (answer : GenerateReceiptResponse D Token) (later : Time)
      → made.0 ≡ ok answer
      → IsReady ride_id tenant public_id s.receipts
      → later + 1000 ≤ now + 7 * day
      → is_ok (render_receipt_html q jwt answer.public_id answer.token later made.1).0
        ≡ leb later (now + day)
  link_lasts_a_day answer later e ready h =
      elim (generate_receipt-cases q jwt ride_id tenant user id public_id now s) [
        | inl (bad, _) ↦ absurd (cc (bad, e))
        | inr i ↦
            let shown = snapshot i.t i.ride i.payment now in
            let fresh = new_receipt tenant i.ride.id i.payment shown id public_id now in
            let found =
              row_found q tenant i.ride.id now s.receipts fresh i.payment shown i.old i.old_row
                ready.unique ready.new_text in
            let same : i.ride.id ≡ ride_id = ground (arith, i.own) in
            let (own, lasts) =
              row_lasts q tenant i.ride.id now s.receipts fresh i.payment shown i.old i.old_row refl
                refl (rw same ready.same_tenant) in
            let row = row_at i.old fresh (reissued i.payment shown now) in
            let store = record s {
              receipts = issued_at i.old fresh (reissued i.payment shown now) s.receipts;
            } in
            let is_answer : answer ≡ receipt_response q jwt tenant i.ride i.payment now row =
              ap
                (λ (x : Result (GenerateReceiptResponse D Token)). elim x [
                  | ok a ↦ a
                  | thrown _ ↦ answer
                ])
                (sym e
                  ∙ ap (λ (x : Result (GenerateReceiptResponse D Token) × Store D). x.0)
                      i.result) in
            ap
              (λ (a : GenerateReceiptResponse D Token).
                is_ok (render_receipt_html q jwt a.public_id a.token later made.1).0)
              is_answer
            ∙ ap
                (λ (x : Result (GenerateReceiptResponse D Token) × Store D).
                  is_ok
                    (render_receipt_html q jwt row.public_id
                      (sign (link_claims row.public_id tenant) (60 * 24 * 7) now) later x.1).0)
                i.result
            ∙ link_shows store row later found own lasts h
      ]
