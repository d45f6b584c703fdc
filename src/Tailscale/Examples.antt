-- ===== src/Tailscale/Examples.antt =====
-- One allowed command.
