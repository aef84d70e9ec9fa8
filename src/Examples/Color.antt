-- ===== src/Examples/Color.antt =====
-- The colour theorems at concrete colours.
