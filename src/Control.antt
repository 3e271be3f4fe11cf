-- ===== src/Control.antt =====
-- open-switch/internal/layers/control: the call control service.
pub mod State
pub mod Exec
pub mod Events
pub mod Recording
pub mod Transition
pub mod Frame
pub mod Invariant
pub mod Direct
pub mod Dispatch
pub mod Offer
pub mod Features
pub mod Queueing
pub mod Transfer
pub mod Hangup
pub mod Failure
pub mod Hours
pub mod Inbound
pub mod Ivr
pub mod Mutation
pub mod Ticking
pub mod Keeping
pub mod Lifecycle
