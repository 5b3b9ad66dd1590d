-- ===== src/Services.antt =====
-- The services of src/store: the actions behind the HTTP endpoints. An action is a step on the
-- server's state; it may throw. A response message is a record of what the action sets in it.
pub mod Requests
pub mod Numbers
pub mod Decimal
pub mod Common
pub mod Validate
pub mod Sessions
pub mod Validated
pub mod ThreePid
pub mod Lookup
pub mod Access
pub mod Invite
pub mod MailSms
