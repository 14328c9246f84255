-- ===== src/Lib.antt =====
-- Verification library of the taxi meter backend.
--
-- The program is a server of the NestJS framework over one relational database that all companies
-- (tenants) share. A driver starts a ride, ends it with a fare, takes the payment and gives the
-- passenger a receipt; the administrators of a company keep its prices; the payment provider Viva
-- reports payments by a webhook. Everybody signs in for an access token, which each request is
-- checked by; administrators invite drivers and number the receipts of a month. The services share
-- no memory: they meet in the database only, so each request handler is modelled as an action on
-- the whole database, which returns or throws.
--
-- Which file models what (paths from the repository's root):
--   Base: the shared helpers. Base/Actions: an action, `Action S A`, with what the code's `throw`,
--     `if (!x) throw` and `$transaction` do: writes made before an exception stay, except inside a
--     transaction. Base/Lists and Base/Rows: a table as a list of rows, `update_many` for the
--     database's update by a condition, and how writes change what a condition counts.
--   External: what the code calls and the repository does not contain, as records of operations
--     with documented laws: Decimals (decimal.js, exact below a bound on the digits, half up),
--     Queries (findFirst gives some matching row, orderBy some order that the comparison allows),
--     Calendar (the fields of a date), Jwt and Tokens (a signed token is accepted until it expires),
--     Passwords (bcrypt), Cache (cache-manager: a value is there for its time to live).
--   Schema: the tables and enumerations (prisma/schema.prisma).
--   Pricing: create, update and activate of a company's meter prices
--     (src/pricings/pricing.service.ts). Pricing/Single: one active policy at most; Pricing/Effects:
--     what each operation changes; Pricing/Options and Pricing/Responses: createFixedByAdmin,
--     getActive, listAllPolicies and listAvailablePoliciesForRide; Pricing/Options/Startable: what
--     the listed policies are good for when a ride is started.
--   Ride: src/drivers/rides/services/driver-ride.service.ts. Ride/Night: the surcharge windows;
--     Ride/Fare: the three fare calculations, and in Ride/Fare/Cents the same in whole cents;
--     Ride/Guards: the checks of the company and the driver; Ride/Start: startRide; Ride/Finish:
--     endRide, its payment included (Ride/Finish/Settles: what it leaves); Ride/Answers: the answer
--     of endRide.
--   Payment: src/drivers/payments/payments-service.ts: who may pay, confirmPayment, cashPayment.
--   Webhook: src/viva-webhook/viva-webhook.service.ts: the notification of a payment.
--   Receipt: src/drivers/receipts: generateReceipt, the link token, renderReceiptHtml up to its
--     template (Receipt/Issue and Receipt/Certified: what issuing writes; Receipt/Link: the link),
--     and Receipt/Escape, the escaping of texts.
--   Auth: src/auth: the accounts' types and tokens; Auth/SignIn: the operations of
--     auth.service.ts; Auth/Revocation: services/jwt-revocation.service.ts; Auth/Strategy:
--     strategies/jwt-v1-strategy.ts and the logouts of controllers/driver-auth.controller.ts;
--     Auth/Members, Auth/Login, Auth/Drivers and Auth/Tickets: what a sign-in gives; Auth/Access:
--     which tokens pass; Auth/Sound and Auth/Revoked: what passing means; Auth/Registration: the
--     token of a new company.
--   Invitations: src/admin/services/admin-invitation.service.ts; Invitations/Requests: its
--     operations; Invitations/Pending: what an invitation rules out; Invitations/Status: the listing
--     by status.
--   Numbering: src/admin/exports/numbering.service.ts: receipt numbers for the payments of a
--     month; Numbering/Issue: what the loop writes; Numbering/Window and
--     Numbering/Order: what a run collects, and in which order;
--     Numbering/Months and Numbering/Texts: the texts YYYYMM and YYYYMM-NNNN, read back with
--     Base/Digits.
--   System: nine requests as one type, System.Call, in any sequence on one database: startRide,
--     endRide, confirmPayment, cashPayment, the payment notification, create, update and activate of
--     prices, generateReceipt. The administration's own writes to rides and payments are not among
--     them. System/Changes: what a request can do to rides and payments; System/Refines:
--     each of them does one of these; System/Rules and System/Prices: what the changes keep;
--     System/Stages: the abstract view of a ride; System/History: what holds after any sequence of them.
--   Tests: an instance of every parameter, a small database, each theorem applied to them.
--
-- How the program is rendered. The id of a new row and the clock are arguments of the operation
-- that uses them. A uuid is only compared and ordered, so it is a number. Times are milliseconds.
-- A request is what has passed the validation of its DTO. Amounts have at most as many places as
-- their column, so that storing one changes nothing. A handler runs without interleaving with
-- others, and reads the clock once. The database answers every statement: a failing connection is
-- not modelled, so the two writes of endRide, which no transaction joins, are both made. A payment
-- notification has the types that its provider documents. The unique keys of the tables are hypotheses where a theorem
-- needs them. Every loop of the modelled code runs over a list; the one use of fuel is the
-- printing of a number (Base/Digits), where one more than the number is enough, since there are
-- fewer digits. The bound on digits, `exact`, is a parameter; decimal.js rounds at 20 significant
-- digits, so 10^20 satisfies it.
--
-- Not modelled: the writes of the administration to payments (createPayment, updatePayment and
-- deletePayment of src/admin/services/admin-payment.service.ts, which can add, change and remove
-- payments whatever the state of the ride), to rides and to drivers; the template of the receipt,
-- logging, routing and dependency injection, the exports to files, and the read-only listings and
-- reports of the administration.
pub mod Base
pub mod External
pub mod Schema
pub mod Pricing
pub mod Ride
pub mod Payment
pub mod Webhook
pub mod Receipt
pub mod Auth
pub mod Invitations
pub mod Numbering
pub mod System
pub mod Tests
