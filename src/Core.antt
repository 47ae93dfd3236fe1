-- ===== src/Core.antt =====
-- internal/core: the reservation service. Each child models the operations of one handler.
pub mod Hold
pub mod Invariant
pub mod Revival
pub mod Identity
pub mod Checkout
pub mod Password
pub mod Booking
pub mod Expiry
pub mod Sweep
pub mod Enrollment
pub mod Report
pub mod Sighting
pub mod Opening
pub mod Closing
pub mod Webhook
pub mod Provision
pub mod Listing
pub mod Activity
