-- ===== src/Types.antt =====
-- pkg/wmp/types.go and pkg/wmp/methods.go: the structs that travel in messages, with the source's
-- field names (those of the JSON tags); the structs of the two profiles stand here too.
pub mod Json
pub mod Envelope
pub mod Session
pub mod Message
pub mod Flow
pub mod Openid4x
pub mod Mls
pub mod Discovery
