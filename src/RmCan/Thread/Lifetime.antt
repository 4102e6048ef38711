-- ===== src/RmCan/Thread/Lifetime.antt =====
-- An opened device is closed.
