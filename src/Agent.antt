-- ===== src/Agent.antt =====
-- internal/investigation/agent: the loop that lets a model read the connected sources within its
-- budgets and conclude, and the conclusion it may store.
pub mod Documents
pub mod Conclusions
pub mod Decoding
pub mod Cited
pub mod Grounds
pub mod Values
pub mod Calls
pub mod Observations
pub mod Prompts
pub mod Exchange
pub mod Attempts
pub mod Reads
pub mod Execution
pub mod Batch
pub mod Loop
pub mod Budgets
pub mod Turns
pub mod Accounts
pub mod Charges
pub mod Outcomes
pub mod Spending
pub mod Observed
mod Tests
