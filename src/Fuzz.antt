-- ===== src/Fuzz.antt =====
-- fuzz/fuzz_targets: what the two fuzz targets run. Results that they discard are left out.
pub mod PathNormalizer
pub mod PolicyParse
