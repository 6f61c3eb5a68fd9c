-- ===== src/Examples.antt =====
-- Concrete instances of what the program uses of other code, and the theorems at concrete inputs.
mod SampleQt
mod SampleSocket
mod Values
mod Connections
mod Queues
mod Jobs
mod Runs
mod Addresses
mod Program
mod Interleaving
mod Startup
mod Life
