-- ===== src/Examples.antt =====
-- Concrete inputs: state machines, histories and stores.
mod Machines
mod Histories
mod Stores
mod Executions
mod Requests
mod Cancellations
mod Queries
mod Tables
mod Caches
mod Polls
mod Summaries
mod Clients
mod Managers
mod Resumptions
