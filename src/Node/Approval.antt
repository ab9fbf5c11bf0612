-- ===== src/Node/Approval.antt =====
-- `requestUpgradeApproval`
use nodemanager.Common.{Bool, Io, Result, ask, err, false, lift, ok, second, true, ℕ, ◌+◌, ◌/◌}
use nodemanager.Common.{◌>>=◌, ◌>>◌}
use nodemanager.Api.{ManagedNode}
use nodemanager.Node.{
  Action, EventId, Op, Outside, Reply, approve, await_reply, cancel_approval, cancelled,
  deadline_reached, delay, deny, notify, read_clock, responded, unspecified,
  upgrade_approval_request, wait_for_approval,
}

-- The `switch` on the action; the last clause is its `default`.
abbrev pub is_approval : Action → Bool
is_approval approve = true
is_approval deny = false
is_approval delay = false
is_approval unspecified = true

-- The `select`: an answer decides, the deadline approves, and a cancelled context is an error.
unfoldable pub decide : Reply → Result Bool
decide (responded action) = ok (is_approval action)
decide deadline_reached = ok true
decide (cancelled e) = err e

module _ (o : Outside) where
  -- The deferred `CancelApproval` runs after the `select`, whichever way that ends.
  unfoldable pub request_upgrade_approval : ManagedNode → ℕ → Io Op Bool
  request_upgrade_approval node scheduled = do
    let id : EventId = record { node = node.name; unix = scheduled / second }
    now ← ask read_clock o.clock
    let deadline = now + o.forgiveness_period
    ask (wait_for_approval id) (λ _. tt {0})
    ask (notify (upgrade_approval_request id scheduled deadline)) (λ _. tt {0})
    ask read_clock o.clock
    reply ← ask await_reply o.reply
    ask (cancel_approval id) (λ _. tt {0})
    lift (decide reply)
