-- ===== src/Tests.antt =====
-- Runs of the services on tables held in memory, at inputs that meet the theorems' conditions.
mod Access
mod Billing
mod Config
mod Database
mod Keeping
mod Limiter
mod Links
mod Online
mod Login
mod Panel
mod Purging
mod Push
