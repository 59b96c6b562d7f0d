-- ===== src/Tests.antt =====
-- Runs of the model on the inputs of the repository's own tests, and each theorem applied to one
-- concrete input.
mod Ipc
mod Rot
mod Storage
mod Verification
mod Boot
mod Backends
mod Release
mod Secure
mod Board
mod Mailbox
mod Diag
