-- ===== src/External.antt =====
-- What the services call and this repository does not contain: the decimals of the database client,
-- the rows that its queries select, the tokens, the
-- password hashes and the cache. Each is a record of operations with the
-- documented behaviour that the code relies on.
pub mod Decimals
pub mod Jwt
pub mod Queries
pub mod Calendar
pub mod Tokens
pub mod Passwords
pub mod Cache
