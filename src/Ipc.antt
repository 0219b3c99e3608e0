-- ===== src/Ipc.antt =====
-- crates/ipc-protocol/src: the protocol between the tray and the service. `Frames` is the length
-- prefix, `Requests` the requests and their checks, `Pin` the reader of a PIN, `Ids` the
-- identifiers on the wire.
pub mod Errors
pub mod Frames
pub mod Ids
pub mod Requests
pub mod Pin
pub mod Decoding
