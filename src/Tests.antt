-- ===== src/Tests.antt =====
-- Runs of the model on concrete inputs, and the theorems applied to them.
mod Coding
mod Vault
mod Registry
mod Accounts
mod Origins
mod Naming
mod Mailbox
mod Sealed
mod Shells
mod Connection
mod Terminal
mod Meeting
