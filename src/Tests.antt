-- ===== src/Tests.antt =====
-- Runs of the program's parts at fixed inputs, and the theorems at fixed inputs.
mod Buffers
mod Shelves
mod Frames
mod Robot
mod Sharing
mod Threads
mod Bytes
mod Vehicle
mod Metrics
mod Sensors
mod Handles
