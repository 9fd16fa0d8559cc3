-- ===== src/Http.antt =====
-- src/http, as far as it is modelled.
pub mod OrderCursor
