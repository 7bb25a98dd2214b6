-- ===== src/Header/Twice.antt =====
-- What the header robot writes in a match with fixed times.
