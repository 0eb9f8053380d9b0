-- ===== src/Certificates/Finishing.antt =====
-- `finish` and the cache, in the terms of Certificates.Orderly.
use rethink.Common.{
  ℕ, ◌-◌, ◌≤◌, ◌≡◌, refl, ap, ◌∙◌, inl, inr, not, ◌&&◌, some, List, [], ◌∷◌, arith, ltb,
  if◌then◌else◌, Bool-cases, length,
}
use rethink.Mqtt.Topic.{Text, text_eq}
use rethink.Mqtt.Topic.Matching.{text_eq→eq}
use rethink.Mqtt.Table.{
  lookup, put, delete, IsTable, put-IsTable, delete-IsTable, lookup-put, weight-lookup,
  length-put_le,
}
use rethink.Certificates.{
  Task, Provider, max_active, max_queued, max_cache, drain_queue, drain, remove_host, finish,
  without_first, remember,
}
use rethink.Certificates.Orderly.{
  Fresh, IsWaiting, started_of, IsCounted, IsBusy, IsWaiting-delete, drain_queue-IsCounted,
}

-- The started tasks are those that `active` counts, two at most; the others are the queue, each once, sixteen
-- at most; unless the provider is closed, nothing waits while fewer than two are being made; the cache
-- has no name twice and 64 at most.
abbrev pub IsOrderly : Provider → Type 0
IsOrderly p =
    IsCounted p.pending p.queue p.active
    × IsBusy p
    × (length p.queue ≤ max_queued)
    × IsTable p.cache
    × (length p.cache ≤ max_cache)

Fresh-remove :
    (hostname other : Text) (queue : List Text)
    → Fresh other queue
    → Fresh other (remove_host hostname queue)
Fresh-remove hostname other [] f = tt
Fresh-remove hostname other (first ∷ queue) (apart, f) =
    elim (Bool-cases (text_eq first hostname)) [
      | inl e ↦ rw e (Fresh-remove hostname other queue f)
      | inr e ↦ rw e (apart, Fresh-remove hostname other queue f)
    ]

Fresh-removed : (hostname : Text) (queue : List Text) → Fresh hostname (remove_host hostname queue)
Fresh-removed hostname [] = tt
Fresh-removed hostname (first ∷ queue) = elim (Bool-cases (text_eq first hostname)) [
  | inl e ↦ rw e (Fresh-removed hostname queue)
  | inr e ↦ rw e (e, Fresh-removed hostname queue)
]

IsWaiting-remove :
    (hostname : Text) (pending : List (Text × Task)) (queue : List Text)
    → IsWaiting pending queue
    → IsWaiting pending (remove_host hostname queue)
IsWaiting-remove hostname pending [] h = tt
IsWaiting-remove hostname pending (first ∷ queue) (idle, fresh, h) =
    elim (Bool-cases (text_eq first hostname)) [
      | inl e ↦ rw e (IsWaiting-remove hostname pending queue h)
      | inr e ↦
          rw e (
            idle,
            Fresh-remove hostname first queue fresh,
            IsWaiting-remove hostname pending queue h,
          )
    ]

length-remove_host :
    (hostname : Text) (queue : List Text) → length (remove_host hostname queue) ≤ length queue
length-remove_host hostname [] = omega arith
length-remove_host hostname (first ∷ queue) = elim (Bool-cases (text_eq first hostname)) [
  | inl e ↦ rw e (omega (arith, length-remove_host hostname queue))
  | inr e ↦ rw e (omega (arith, length-remove_host hostname queue))
]

drain_queue-cache : (queue : List Text) (p : Provider) → (drain_queue queue p).cache ≡ p.cache
unfolding drain_queue
drain_queue-cache [] p = refl
drain_queue-cache (hostname ∷ queue) p =
    elim (Bool-cases (not p.closed && ltb p.active max_active)) [
      | inl e ↦ rw e (drain_queue-cache queue _)
      | inr e ↦ rw e refl
    ]

-- `drain` from a state that is counted right.
pub drain-IsOrderly :
    (p : Provider)
    → IsCounted p.pending p.queue p.active
    → length (drain p).queue ≤ max_queued
    → IsTable p.cache
    → length p.cache ≤ max_cache
    → IsOrderly (drain p)
unfolding drain
drain-IsOrderly p counted short names small =
    let after = drain_queue-IsCounted p.queue p counted in
    let kept = drain_queue-cache p.queue p in
    (after.0, after.1, short, rw kept names, rw kept small)

pub drain-shorter :
    (p : Provider) → IsCounted p.pending p.queue p.active → length (drain p).queue ≤ length p.queue
unfolding drain
drain-shorter p counted = (drain_queue-IsCounted p.queue p counted).2

pub finish-IsOrderly :
    (hostname : Text) (task : Task) (p : Provider)
    → IsCounted p.pending p.queue p.active
    → lookup hostname p.pending ≡ some task
    → length p.queue ≤ max_queued
    → IsTable p.cache
    → length p.cache ≤ max_cache
    → IsOrderly (finish hostname task p)
unfolding finish
finish-IsOrderly hostname task p (table, waiting, count, few) found short names small =
    let next : Provider = record p {
      pending = delete hostname p.pending;
      queue = remove_host hostname p.queue;
      active = if task.started then p.active - 1 else p.active;
    } in
    let less = weight-lookup started_of hostname task p.pending found in
    let counted : IsCounted next.pending next.queue next.active = (
      delete-IsTable hostname p.pending table,
      IsWaiting-delete hostname p.pending (remove_host hostname p.queue) table
          (Fresh-removed hostname p.queue) (IsWaiting-remove hostname p.pending p.queue waiting),
      ground (arith, less, count),
      ground (arith, few),
    ) in
    drain-IsOrderly next counted
      (omega (arith, drain-shorter next counted, length-remove_host hostname p.queue, short)) names
      small

-- A task that is replaced and has started as much as before.
pub IsWaiting-replace :
    (hostname : Text) (old task : Task) (pending : List (Text × Task)) (queue : List Text)
    → lookup hostname pending ≡ some old
    → task.started ≡ old.started
    → IsWaiting pending queue
    → IsWaiting (put hostname task pending) queue
IsWaiting-replace hostname old task pending [] found same h = tt
IsWaiting-replace hostname old task pending (first ∷ queue) found same
      ((waiting, there, idle), fresh, h) =
    (
      elim (Bool-cases (text_eq hostname first)) [
        | inl e ↦
            let mine : lookup first pending ≡ some old = rw (← text_eq→eq hostname first e) found in
            let this : old ≡ waiting = ground arith in
            (
              task,
              rw (lookup-put hostname first task pending, e) refl,
              same ∙ (ap (λ (t : Task). t.started) this ∙ idle),
            )
        | inr e ↦ (waiting, rw (lookup-put hostname first task pending, e) there, idle)
      ],
      fresh,
      IsWaiting-replace hostname old task pending queue found same h,
    )

without_first-IsTable : (cache : List (Text × ℕ)) → IsTable cache → IsTable (without_first cache)
without_first-IsTable [] h = h
without_first-IsTable (entry ∷ cache) h = h.1

pub remember-IsTable :
    (hostname : Text) (certificate : ℕ) (cache : List (Text × ℕ))
    → IsTable cache
    → IsTable (remember hostname certificate cache)
remember-IsTable hostname certificate cache h =
    let table = put-IsTable hostname certificate cache h in
    elim (Bool-cases (ltb max_cache (length (put hostname certificate cache)))) [
      | inl e ↦ rw e (without_first-IsTable (put hostname certificate cache) table)
      | inr e ↦ rw e table
    ]

length-without_first : (cache : List (Text × ℕ)) → length (without_first cache) ≡ length cache - 1
length-without_first [] = refl
length-without_first (entry ∷ cache) = omega arith

pub length-remember :
    (hostname : Text) (certificate : ℕ) (cache : List (Text × ℕ))
    → length cache ≤ max_cache
    → length (remember hostname certificate cache) ≤ max_cache
length-remember hostname certificate cache h =
    let more = length-put_le hostname certificate cache in
    elim (Bool-cases (ltb max_cache (length (put hostname certificate cache)))) [
      | inl e ↦ rw e (omega (arith, more, h, length-without_first (put hostname certificate cache)))
      | inr e ↦ rw e (ground arith)
    ]
