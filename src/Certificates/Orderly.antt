-- ===== src/Certificates/Orderly.antt =====
-- When the certificate queue is in order, and `drain`.
use rethink.Common.{
  ℕ, ◌+◌, ◌≤◌, ◌≡◌, refl, inl, inr, Bool, true, false, not, ◌&&◌, ◌||◌, some, List, [], ◌∷◌, arith,
  ltb, ◌==◌, if◌then◌else◌, Bool-cases, length,
}
use rethink.Mqtt.Topic.{Text, text_eq}
use rethink.Mqtt.Topic.Matching.{text_eq_apart}
use rethink.Mqtt.Table.{
  lookup, put, delete, IsTable, put-IsTable, lookup-put, lookup-delete, weight, weight-lookup,
  weight-put-delete,
}
use rethink.Certificates.{Task, Provider, max_active, drain_queue}

abbrev pub waiting_task : Task
waiting_task = record { started = false; aborted = false }

-- Every host name in the queue is pending and has not started, and stands there once.
abbrev pub Fresh : Text → List Text → Type 0
Fresh hostname [] = Unit
Fresh hostname (other ∷ queue) = (text_eq other hostname ≡ false) × Fresh hostname queue

abbrev pub IsWaiting : List (Text × Task) → List Text → Type 0
IsWaiting pending [] = Unit
IsWaiting pending (hostname ∷ queue) =
    ((task : Task) × (lookup hostname pending ≡ some task) × (task.started ≡ false))
    × Fresh hostname queue
    × IsWaiting pending queue

abbrev pub started_of : Text → Task → ℕ
started_of hostname task = if task.started then 1 else 0

abbrev pub is_nil : List Text → Bool
is_nil [] = true
is_nil (hostname ∷ queue) = false

-- All but the bound on the queue, and that nothing waits in vain: what `drain` starts from.
abbrev pub IsCounted : List (Text × Task) → List Text → ℕ → Type 0
IsCounted pending queue active =
    IsTable pending
    × IsWaiting pending queue
    × (active ≡ weight started_of pending)
    × (active ≤ max_active)

abbrev pub IsBusy : Provider → Type 0
IsBusy p = p.closed || (is_nil p.queue || p.active == max_active) ≡ true

pub IsWaiting-put :
    (hostname : Text) (task : Task) (pending : List (Text × Task)) (queue : List Text)
    → Fresh hostname queue
    → IsWaiting pending queue
    → IsWaiting (put hostname task pending) queue
IsWaiting-put hostname task pending [] f h = tt
IsWaiting-put hostname task pending (other ∷ queue) (apart, f) ((waiting, found, idle), fresh, h) =
    (
      (
        waiting,
        rw (lookup-put hostname other task pending, text_eq_apart other hostname apart) found,
        idle,
      ),
      fresh,
      IsWaiting-put hostname task pending queue f h,
    )

pub IsWaiting-delete :
    (hostname : Text) (pending : List (Text × Task)) (queue : List Text)
    → IsTable pending
    → Fresh hostname queue
    → IsWaiting pending queue
    → IsWaiting (delete hostname pending) queue
IsWaiting-delete hostname pending [] t f h = tt
IsWaiting-delete hostname pending (other ∷ queue) t (apart, f) ((waiting, found, idle), fresh, h) =
    (
      (
        waiting,
        rw (lookup-delete hostname other pending t, text_eq_apart other hostname apart) found,
        idle,
      ),
      fresh,
      IsWaiting-delete hostname pending queue t f h,
    )

-- `drain` starts what it can: afterwards both are made, or nothing waits, or the provider is closed.
pub drain_queue-IsCounted :
    (queue : List Text) (p : Provider)
    → IsCounted p.pending queue p.active
    → let q = drain_queue queue p in
      IsCounted q.pending q.queue q.active × IsBusy q × (length q.queue ≤ length queue)
unfolding drain_queue
drain_queue-IsCounted [] p (table, waiting, count, few) =
    ((table, tt, count, few), ground arith, omega arith)
drain_queue-IsCounted (hostname ∷ queue) p
      (table, ((task, found, idle), fresh, waiting), count, few) =
    let going : Task = record { started = true; aborted = false } in
    elim (Bool-cases (not p.closed && ltb p.active max_active)) [
      | inl e ↦
          let unstarted : started_of hostname task ≡ 0 = rw idle refl in
          let next =
            drain_queue-IsCounted queue
              (record p { pending = put hostname going p.pending; active = p.active + 1 })
              (
                put-IsTable hostname going p.pending table,
                IsWaiting-put hostname going p.pending queue fresh waiting,
                omega (
                  arith,
                  count,
                  unstarted,
                  weight-put-delete started_of hostname going p.pending,
                  weight-lookup started_of hostname task p.pending found,
                ),
                ground arith,
              ) in
          rw e (next.0, next.1, omega (arith, next.2))
      | inr e ↦
          rw e
            ((table, ((task, found, idle), fresh, waiting), count, few), ground arith, omega arith)
    ]
