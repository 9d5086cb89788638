-- ===== src/Examples.antt =====
-- Runs of the models on concrete inputs, which also show that the theorems' hypotheses can hold.
pub mod Data
pub mod Database
pub mod Reaping
pub mod Chat
pub mod Commands
pub mod Local
pub mod Placing
pub mod Secrets
pub mod Web
pub mod Logins
pub mod Containers
pub mod Relogin
pub mod Flights
pub mod Starts
