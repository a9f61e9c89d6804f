-- ===== src/Override.antt =====
-- server/internal/relay/override: the rules by which a channel rewrites the body and the headers of a
-- request before it is sent upstream.
pub mod Text
pub mod Value
pub mod Operations
pub mod Conditions
pub mod Headers
pub mod Rules
pub mod Run
pub mod Replace
pub mod Logic
pub mod Passing
pub mod Placeholders
pub mod Sequence
pub mod Ensure
