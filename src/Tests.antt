-- ===== src/Tests.antt =====
-- Runs of the models at concrete data, and the theorems at inputs that meet their hypotheses.
mod Node
mod Locker
mod ConfigSet
mod Jail
mod JailController
mod Files
mod Notification
mod Poudriere
mod Webhook
