-- ===== src/Examples.antt =====
-- The theorems at concrete inputs, and runs of the definitions.
mod TextRuns
mod SchedulerRuns
mod QueryRuns
mod FilterRuns
mod MapRuns
mod GuardRuns
mod TokenRuns
mod RpcRuns
mod ListingRuns
mod LoadingRuns
mod TorrentRuns
mod SavingRuns
mod SessionRuns
mod HttpRuns
mod StoredRuns
mod TrackingRuns
mod PreparingRuns
