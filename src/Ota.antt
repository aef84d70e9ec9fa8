-- ===== src/Ota.antt =====
-- The firmware update of the nodes, on the controller: matter-prototype/controller-node/components/
-- lo_ota_provider and matter-prototype/controller-node/main/led_orchestra_ota_provider.cpp. A text is the
-- list of its bytes, without the terminating zero.
pub mod Results
pub mod Candidates
pub mod Download
pub mod Sender
pub mod Provider
pub mod Access
pub mod Commands
pub mod Startup
