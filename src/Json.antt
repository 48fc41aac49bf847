-- ===== src/Json.antt =====
-- src/json.cc: the report as JSON.
pub mod Writer
pub mod Value
pub mod Reader
pub mod ReadString
pub mod ReadNumber
pub mod RoundTrip
pub mod Builder
pub mod Part
pub mod Report
