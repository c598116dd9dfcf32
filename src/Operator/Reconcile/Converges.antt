-- ===== src/Operator/Reconcile/Converges.antt =====
-- How many passes `Reconcile` takes to install an instance
-- (integrity-shield-operator/controllers/integrityshield_controller.go).
use integrity_shield.Operator.Client.{Client}
