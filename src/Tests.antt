-- ===== src/Tests.antt =====
-- Tests of the model on concrete values, and the theorems at concrete inputs.
mod Instance
mod Decoding
mod Writing
mod Keys
mod Handling
mod Calling
mod Polling
mod Resources
mod Websocket
mod Connecting
