-- ===== src/Source/Pgoutput/RoundTrip.antt =====
-- The decoder gives back every message that the server writes.
