-- ===== src/Billing.antt =====
-- Stripe checkout, subscription webhooks and the Discord member role (site/src/billing.ts).
pub mod Role
pub mod Pricing
pub mod Sync
pub mod Checkout
pub mod Signature
pub mod Versions
