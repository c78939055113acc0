-- ===== src/Tests.antt =====
-- Runs of the model at concrete inputs: a codec whose objects are the data themselves, a database
-- that is a list of bytes, two runtimes, and the theorems applied to them.
pub mod Samples
pub mod Leases
pub mod Projects
pub mod Crashes
pub mod Batches
pub mod Readers
pub mod Queries
pub mod Controls
pub mod Accounts
pub mod Requests
pub mod Endpoints
pub mod Messages
