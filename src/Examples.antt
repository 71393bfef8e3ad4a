-- ===== src/Examples.antt =====
-- Tests on concrete values, and the theorems applied to them.
mod Vault
mod Savings
mod Temporal
mod Compress
mod Graph
mod Rewrite
mod Scope
mod Accounting
mod Compiler
mod Compactor
mod Cancellation
mod Budget
mod Views
mod Runtime
