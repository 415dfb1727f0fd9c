-- ===== src/Xml.antt =====
-- clinkc/src/cybergarage/xml: the character escapes of XML texts.
pub mod Escape
