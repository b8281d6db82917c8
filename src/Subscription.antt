-- ===== src/Subscription.antt =====
-- internal/opcua/subscription.go: the subscriptions of the server, from the limits to the service that
-- publishes them. The DA group behind a subscription is not modelled: what it drains is an argument.
pub mod Limits
pub mod State
pub mod Queue
pub mod Built
pub mod Items
pub mod Service
pub mod Publishing
pub mod QueueLaws
pub mod Order
pub mod Queued
pub mod Cycles
pub mod Arrivals
pub mod Grown
pub mod Growth
pub mod Given
pub mod Life
pub mod LifeLaws
pub mod Owners
mod Sent
pub mod Serving
pub mod Lifetimes
pub mod Deadband
