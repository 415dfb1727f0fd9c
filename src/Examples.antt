-- ===== src/Examples.antt =====
-- Runs of the modelled functions at concrete inputs, and the theorems applied to such inputs.
mod Text
mod Str
mod Uri
mod Http
mod Event
mod Dictionary
mod Ring
mod Packet
mod Ssdp
mod Discovery
mod Lookup
