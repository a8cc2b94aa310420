-- ===== src/Tests.antt =====
-- Runs on concrete resources over a client that keeps the cluster in memory, and the theorems at
-- those resources.
mod Data
mod Memory
mod Workloads
mod Reconciles
mod Generates
mod Owners
mod Plots
mod Managers
mod Systems
mod Cells
mod Copies
