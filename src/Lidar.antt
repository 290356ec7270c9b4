-- ===== src/Lidar.antt =====
-- examples/lidar_emulator.cpp: the node service of the LIDAR emulator, its heartbeat thread and its
-- metrics thread. Its main is Main.LidarEmulator.
pub mod Subscribe
pub mod Control
pub mod Heartbeat
pub mod MetricsServer
pub mod Unary
