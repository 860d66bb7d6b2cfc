-- ===== src/Api.antt =====
-- app/main.py and app/api/routes: what a request is answered.
pub mod Answers
pub mod Routes
pub mod Connections
