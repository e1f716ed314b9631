-- ===== src/Examples.antt =====
-- Runs of the components on concrete data, and the theorems at inputs that meet their hypotheses.
mod Data
mod Client
mod Feeds
mod Form
mod Page
mod Session
mod App
mod Jobs
