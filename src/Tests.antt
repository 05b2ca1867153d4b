-- ===== src/Tests.antt =====
-- Concrete runs of the code, and the theorems at inputs that meet their hypotheses.
mod ToyCrypto
mod BanLists
mod Vaults
mod UserFiles
mod ListSets
mod ClientRuns
mod CommandRuns
mod UserChanges
mod Logins
mod ClientAuths
mod RunningCommands
mod PortRanges
mod JobRuns
mod ScriptRuns
mod TunnelRequests
mod ClientLoops
mod Queries
mod UserTables
mod ClientConfigs
mod CommandLibraries
mod ServerConfigs
