-- ===== src/Tests.antt =====
-- Concrete runs of the modelled code, one for each general statement.
mod Configs
mod Numbers
mod Policies
mod Processes
mod Requests
