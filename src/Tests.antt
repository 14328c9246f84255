-- ===== src/Tests.antt =====
-- Concrete data for the theorems: an instance of every parameter, a small database, and each theorem
-- applied to them.
mod Parameters
mod Database
mod Policies
mod Options
mod Rides
mod Fares
mod Payments
mod Webhooks
mod Receipts
mod Numbers
mod Accounts
mod Access
mod Invites
mod Histories
