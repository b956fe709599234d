-- ===== src/Tests.antt =====
-- Runs of the definitions on small inputs, and the theorems at inputs that meet their hypotheses.
mod Toys
mod OnUrl
mod OnGate
mod OnCommon
mod OnChat
mod OnStatus
mod OnPools
mod OnStartup
mod OnStop
mod OnServers
mod OnVerify
mod OnPasswords
mod OnRegistry
