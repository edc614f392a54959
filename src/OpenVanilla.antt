-- ===== src/OpenVanilla.antt =====
-- ucimf-openvanilla/src, the input method module that runs the input methods of Open Vanilla.
pub mod Utf16
pub mod Convert
pub mod BothWays
pub mod Decimal
pub mod Dictionary
pub mod Bridge
pub mod Module
pub mod Switch
pub mod Keys
pub mod Calls
pub mod Running
pub mod Loading
pub mod Libraries
