-- ===== src/Tests.antt =====
-- Runs of the definitions, and the theorems at concrete inputs.
mod Net
mod Wire
mod Crypto
mod Transfer
mod Handshake
mod Keepalive
mod Messages
mod Session
mod Relaying
mod Tasks
mod EndToEnd
mod Connect
mod ShortSecret
mod Program
mod Relayed
mod NetTask
mod Whole
mod OneRoom
mod Refusal
mod Echo
