-- ===== src/Examples.antt =====
-- Concrete runs of the gateway's parts, and each theorem at an input that meets its conditions.
mod Gateway
mod Witnesses
mod Serving
mod Editing
mod Streaming
mod Proxying
mod Running
mod Reloading
