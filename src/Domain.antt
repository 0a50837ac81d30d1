-- ===== src/Domain.antt =====
-- internal/domain: the values that the other packages share.
pub mod Event
pub mod Math
pub mod Text
