-- ===== src/Operator/Reconcile/Cleaned.antt =====
-- What the finalizer step leaves of an installation
-- (integrity-shield-operator/controllers/integrityshield_controller.go).
use integrity_shield.Base.{List, Memᴰ}
use integrity_shield.Operator.Client.{Client}
