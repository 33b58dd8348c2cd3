-- ===== src/Tests.antt =====
-- Concrete inputs for the theorems, and the cases of the repository's own tests.
mod Samples
mod Parsing
mod Blocking
mod Storing
mod Serving
mod Admitting
mod Managing
mod Connecting
mod Accounting
mod Collecting
mod Outside
mod Starting
mod Echoing
mod Racing
mod Changing
mod Cases
mod Reporting
mod Launching
