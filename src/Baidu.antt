-- ===== src/Baidu.antt =====
-- internal/baidu/client.go: the client of the cloud drive. The network, the JSON decoder and the clock are
-- arguments; the state of the network is passed on.
pub mod Network
pub mod ContentRange
pub mod Account
pub mod Download
pub mod Client
pub mod Listing
