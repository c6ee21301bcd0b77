-- ===== src/Http/Sos/Resolving.antt =====
-- An SOS is resolved once.
