-- ===== src/Http.antt =====
-- src/http: the signature of a request, and the routes.
pub mod Signature
pub mod Terminate
pub mod Requests
pub mod Trigger
pub mod Reads
pub mod Outcomes
pub mod Published
pub mod Answers
pub mod Quiet
