-- ===== src/Examples.antt =====
-- Runs of the model at concrete inputs, and each theorem at an input that meets its conditions.
mod Sample
mod Policy
mod Database
mod Edge
mod Billing
mod Router
mod Html
mod Identity
mod Checkout
mod Admin
mod Scanner
mod Machines
mod AdminViews
