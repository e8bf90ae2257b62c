-- ===== src/Upgrade/Chain/Patches.antt =====
-- What ManagedInstances sends to the server.
