-- ===== src/Examples.antt =====
-- Concrete rows, runs of the transactions on them, and the theorems at those rows.
mod Policies
mod Attempts
mod Downloads
mod Catalog
mod Logins
mod Collections
mod Devices
mod Jobs
mod Totals
