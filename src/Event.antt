-- ===== src/Event.antt =====
-- clinkc/src/cybergarage/upnp/event and the parts of devices and services that take
-- subscriptions and send notifications. A text that a CgString holds stands as a CStr.
pub mod Subscription
pub mod Subscriber
pub mod Service
pub mod Device
pub mod Server
