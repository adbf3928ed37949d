-- ===== src/App.antt =====
-- The application layer, internal/app/: so far function codes, internal indications, the fragment
-- header, and qualifiers with their ranges.
pub mod Errors
pub mod FuncCode
pub mod Iin
pub mod Header
pub mod Qualifier
pub mod Object
pub mod FreeFormat
pub mod Sizes
pub mod Fragment
