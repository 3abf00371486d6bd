-- ===== src/Examples.antt =====
-- Concrete runs of the code: the results are applied to the inputs that stand in these files.
mod Accounting
mod Servicing
mod Lending
mod Charging
mod Comparing
mod Deciding
mod Paying
mod Scoring
mod Collecting
mod Retrying
mod Signing
