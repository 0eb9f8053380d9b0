-- ===== src/Mqtt/Broker/Handlers/Idle.antt =====
-- `idleTimeoutFor`, in milliseconds.
use rethink.Common.{ℕ, ◌*◌, ◌≤◌, ◌<◌, ◌≡◌, refl, ◌⊎◌, inl, inr, arith, ltb, Bool-cases}
use rethink.Mqtt.Broker.Handlers.{idle_timeout_for}

-- A client that asks for a keepalive of more than five minutes is never timed out. Any other one may
-- be silent for one and a half times its keepalive, for five minutes at least and for seven and a
-- half at most.
pub idle_timeout_for_lem :
    (keepalive_seconds : ℕ)
    → ((300 < keepalive_seconds) × (idle_timeout_for keepalive_seconds ≡ 0))
      ⊎ ((keepalive_seconds ≤ 300)
          × (300000 ≤ idle_timeout_for keepalive_seconds)
          × (keepalive_seconds * 1500 ≤ idle_timeout_for keepalive_seconds)
          × (idle_timeout_for keepalive_seconds ≤ 450000))
unfolding idle_timeout_for
idle_timeout_for_lem keepalive_seconds = elim (Bool-cases (ltb 300000 (keepalive_seconds * 1000))) [
  | inl e ↦ inl (ground arith, rw e refl)
  | inr e ↦ inr (ground arith, ground arith, ground arith, ground arith)
]
