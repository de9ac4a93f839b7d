-- ===== src/Collectors/Clock/Agreement.antt =====
-- The three measurements of the clock skew agree.
