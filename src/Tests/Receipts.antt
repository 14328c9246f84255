-- ===== src/Tests/Receipts.antt =====
-- Receipts: the theorems at the small database when the finished ride is paid.
use typescript_version_taxi.Base.{
  Result, [], arith, false, find, is_ok, leb, ok, refl, some, ℕ, ◌+◌, ◌≡◌, ◌⊎◌,
}
use typescript_version_taxi.External.Jwt.{Claims}
use typescript_version_taxi.Receipt.Link.{IsReady}
use typescript_version_taxi.Receipt.{
  GenerateReceiptResponse, day, generate_receipt, has_expired, issue_receipt, link_claims,
  new_receipt, published, receipt_response, render_receipt_html, snapshot, upsert_receipt,
}
use typescript_version_taxi.Receipt.Certified.{IsCertified, generate_receipt_certifies}
use typescript_version_taxi.Receipt.Link.{link_lasts_a_day, render_authorized}
use typescript_version_taxi.Schema.{Receipt, Snapshot, Store, Uuid, completed, paid}
use typescript_version_taxi.Tests.Database.{Amount, a_payment, a_ride, company, with_payment}
use typescript_version_taxi.Tests.Parameters.{queries, tokens}

abbrev paid_database : Store Amount
paid_database = with_payment paid

abbrev issuing : Result (GenerateReceiptResponse Amount (Claims × ℕ)) × Store Amount
issuing = generate_receipt queries tokens 21 1 9 50 "random" 90000000 paid_database

generate_receipt_certifies_example :
    ((is_ok issuing.0 ≡ false) × (issuing.1 ≡ paid_database))
    ⊎ IsCertified queries tokens 21 1 9 50 "random" 90000000 paid_database issuing.1
generate_receipt_certifies_example =
    generate_receipt_certifies queries tokens 21 1 9 50 "random" 90000000 paid_database

abbrev link : Claims × ℕ
link = (link_claims "random" 1, 694800000)

abbrev certificate : Snapshot Amount
certificate = snapshot company (a_ride 21 completed) (a_payment paid) 90000000

shown_ok :
    (render_receipt_html queries tokens "random" link 91000000 issuing.1).0
    ≡ ok ("random", certificate)
unfolding render_receipt_html generate_receipt issue_receipt upsert_receipt
shown_ok = refl

render_authorized_example :
    (c : Claims) × (r : Receipt Amount) × (tokens.verify link 91000000 ≡ some c)
    × (c.public_id ≡ "random")
    × (c.typ ≡ some "receipt-link")
    × (find (published "random") issuing.1.receipts ≡ some r)
    × (has_expired r.expires_at 91000000 ≡ false)
    × ((claimed : Uuid) → c.tenant_id ≡ some claimed → r.tenant_id ≡ claimed)
    × (certificate ≡ r.data_json)
    × ((render_receipt_html queries tokens "random" link 91000000 issuing.1).1 ≡ issuing.1)
render_authorized_example =
    render_authorized queries tokens "random" 91000000 (issuing.1) link ("random", certificate)
      shown_ok

abbrev issued_answer : GenerateReceiptResponse Amount (Claims × ℕ)
issued_answer =
    receipt_response queries tokens 1 (a_ride 21 completed) (a_payment paid) 90000000
      (new_receipt 1 21 (a_payment paid) certificate 50 "random" 90000000)

issued_ok : issuing.0 ≡ ok issued_answer
unfolding generate_receipt issue_receipt upsert_receipt
issued_ok = refl

no_receipts-IsReady : IsReady {D = Amount} 21 1 "random" []
no_receipts-IsReady = record {
  unique = record {
    of_ride = λ x. omega arith;
    of_id = λ x. omega arith;
    of_public = λ x. omega arith;
  };
  new_text = refl;
  same_tenant = tt;
}

link_lasts_a_day_example :
    is_ok
      (render_receipt_html queries tokens issued_answer.public_id issued_answer.token 91000000
        issuing.1).0
    ≡ leb 91000000 (90000000 + day)
link_lasts_a_day_example =
    link_lasts_a_day queries tokens 21 1 9 50 "random" 90000000 paid_database issued_answer 91000000
      issued_ok no_receipts-IsReady (omega arith)
