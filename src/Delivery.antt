-- ===== src/Delivery.antt =====
-- src/worker.rs: how one response leaves the client: encoded for the WebSocket, or posted as a form.
-- Each copy that is made is reserved first. `none` stands for a panic.
pub mod Encode
pub mod Post
pub mod Encoded
pub mod Delivered
pub mod Tests
