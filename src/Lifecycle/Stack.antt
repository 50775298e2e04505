-- ===== src/Lifecycle/Stack.antt =====
-- stratae/lifecycle/_stack.py: entering and exiting the resources of an activation.
-- The bodies of context managers and generators are the application's: each is a record of
-- what its calls do. Tracebacks are left out, since nothing branches on them.
pub mod Exit
pub mod Close
pub mod Enter
