-- ===== src/Domain.antt =====
-- app/domain: the enumerations, and the immutable models that the components exchange. A model's
-- validators are tests that the constructor functions apply.
pub mod Enums
pub mod Market
pub mod Trade
pub mod Order
pub mod Approval
