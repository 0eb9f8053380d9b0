-- ===== src/Certificates/Reached.antt =====
-- The states that a certificate provider reaches.
use rethink.Common.{
  ℕ, ◌<◌, ◌≡◌, refl, inl, inr, Bool, true, false, not, ◌&&◌, Option, none, some, List, [], ◌∷◌,
  ◌++◌, arith, leb, if◌then◌else◌, Bool-cases, length, length-append,
}
use rethink.Mqtt.Topic.{Text, text_eq}
use rethink.Mqtt.Topic.Matching.{text_eq→eq, text_eq_refl, text_eq_apart}
use rethink.Mqtt.Table.{
  lookup, put, delete, put-IsTable, delete-IsTable, lookup-put, weight-new, weight-lookup,
  weight-put-delete, length-put_le, added, length-delete,
}
use rethink.Certificates.{
  Task, Provider, Issued, max_active, max_queued, drain, finish, remember, generated, abort, hosts,
  abort_all, close, issue, Event, asked, made, timed_out, shut, step, run, new_provider,
}
use rethink.Certificates.Orderly.{
  waiting_task, Fresh, IsWaiting, started_of, is_nil, IsCounted, IsWaiting-put,
}
use rethink.Certificates.Finishing.{
  IsOrderly, finish-IsOrderly, drain-IsOrderly, IsWaiting-replace, drain-shorter, remember-IsTable,
  length-remember,
}

by_option :
    {A : Type 0} (o : Option A) (x : Provider) (f : A → Provider)
    → IsOrderly x
    → ((a : A) → o ≡ some a → IsOrderly (f a))
    → let result : Provider = elim o [ none ↦ x | some a ↦ f a ] in IsOrderly result
by_option none x f h k = h
by_option (some a) x f h k = k a refl

by_test :
    (test : Bool) (x y : Provider)
    → (test ≡ true → IsOrderly x)
    → (test ≡ false → IsOrderly y)
    → IsOrderly (if test then x else y)
by_test true x y h k = h refl
by_test false x y h k = k refl

generated-IsOrderly :
    (hostname : Text) (outcome : Option ℕ) (p : Provider)
    → IsOrderly p
    → IsOrderly (generated hostname outcome p)
unfolding generated
generated-IsOrderly hostname outcome p h =
    let (counted, busy, short, names, small) = h in
    by_option (lookup hostname p.pending) p _ h (λ task found.
      by_test (not task.started) _ _ (λ e. h)
        (λ e.
          by_option outcome (finish hostname task p) _
            (finish-IsOrderly hostname task p counted found short names small)
            (λ certificate made.
              by_test task.aborted _ _
                (λ f. finish-IsOrderly hostname task p counted found short names small)
                (λ f.
                  finish-IsOrderly hostname task
                    (record p { cache = remember hostname certificate p.cache }) counted found short
                    (remember-IsTable hostname certificate p.cache names)
                    (length-remember hostname certificate p.cache small)))))

abort-IsOrderly : (hostname : Text) (p : Provider) → IsOrderly p → IsOrderly (abort hostname p)
unfolding abort
abort-IsOrderly hostname p ((table, waiting, count, few), busy, short, names, small) =
    by_option (lookup hostname p.pending) p _
      ((table, waiting, count, few), busy, short, names, small)
      (λ task found.
        let aborted : Task = record task { aborted = true } in
        let counted : IsCounted (put hostname aborted p.pending) p.queue p.active = (
          put-IsTable hostname aborted p.pending table,
          IsWaiting-replace hostname task aborted p.pending p.queue found refl waiting,
          omega (
            arith,
            count,
            weight-put-delete started_of hostname aborted p.pending,
            weight-lookup started_of hostname task p.pending found,
          ),
          few,
        ) in
        let there : lookup hostname (put hostname aborted p.pending) ≡ some aborted =
          rw (lookup-put hostname hostname aborted p.pending, text_eq_refl hostname) refl in
        by_test task.started _ _ (λ e. (counted, busy, short, names, small))
          (λ e.
            finish-IsOrderly hostname aborted
              (record p { pending = put hostname aborted p.pending }) counted there short names
              small))

abort_all-IsOrderly :
    (hostnames : List Text) (p : Provider) → IsOrderly p → IsOrderly (abort_all hostnames p)
abort_all-IsOrderly [] p h = h
abort_all-IsOrderly (hostname ∷ hostnames) p h =
    abort_all-IsOrderly hostnames (abort hostname p) (abort-IsOrderly hostname p h)

close-IsOrderly : (p : Provider) → IsOrderly p → IsOrderly (close p)
unfolding close
close-IsOrderly p (counted, busy, short, names, small) =
    abort_all-IsOrderly (hosts p.pending) (record p { closed = true })
      (counted, refl, short, names, small)

lookup-Fresh :
    (hostname : Text) (pending : List (Text × Task)) (queue : List Text)
    → lookup hostname pending ≡ none
    → IsWaiting pending queue
    → Fresh hostname queue
lookup-Fresh hostname pending [] absent h = tt
lookup-Fresh hostname pending (first ∷ queue) absent ((task, there, idle), fresh, h) = (
  elim (Bool-cases (text_eq first hostname)) [
    | inl e ↦
        let mine : lookup hostname pending ≡ some task = rw (← text_eq→eq first hostname e) there in
        ground arith
    | inr e ↦ e
  ],
  lookup-Fresh hostname pending queue absent h,
)

Fresh-snoc :
    (hostname other : Text) (queue : List Text)
    → Fresh other queue
    → text_eq hostname other ≡ false
    → Fresh other (queue ++ (hostname ∷ []))
Fresh-snoc hostname other [] f apart = (apart, tt)
Fresh-snoc hostname other (first ∷ queue) (e, f) apart =
    (e, Fresh-snoc hostname other queue f apart)

IsWaiting-snoc :
    (hostname : Text) (pending : List (Text × Task)) (queue : List Text)
    → Fresh hostname queue
    → lookup hostname pending ≡ some waiting_task
    → IsWaiting pending queue
    → IsWaiting pending (queue ++ (hostname ∷ []))
IsWaiting-snoc hostname pending [] f found h = ((waiting_task, found, refl), tt, tt)
IsWaiting-snoc hostname pending (first ∷ queue) (apart, f) found (idle, fresh, h) = (
  idle,
  Fresh-snoc hostname first queue fresh (text_eq_apart first hostname apart),
  IsWaiting-snoc hostname pending queue f found h,
)

length-is_nil : (queue : List Text) → is_nil queue ≡ true → length queue ≡ 0
length-is_nil [] h = refl
length-is_nil (hostname ∷ queue) h = cc

by_answer :
    (test : Bool) (x y : Provider × Issued)
    → IsOrderly x.0
    → (test ≡ false → IsOrderly y.0)
    → IsOrderly (if test then x else y).0
by_answer true x y h k = h
by_answer false x y h k = k refl

by_found :
    {A : Type 0} (o : Option A) (x : Provider × Issued) (f : A → Provider × Issued)
    → (o ≡ none → IsOrderly x.0)
    → ((a : A) → o ≡ some a → IsOrderly (f a).0)
    → let result : Provider × Issued = elim o [ some a ↦ f a | none ↦ x ] in IsOrderly result.0
by_found none x f h k = h refl
by_found (some a) x f h k = k a refl

-- A new task that there is room for.
queued-IsOrderly :
    (hostname : Text) (p : Provider)
    → IsOrderly p
    → p.closed ≡ false
    → lookup hostname p.pending ≡ none
    → leb max_active p.active && leb max_queued (length p.queue) ≡ false
    → IsOrderly (
        drain (record p {
          pending = put hostname waiting_task p.pending;
          queue = p.queue ++ (hostname ∷ []);
        }))
queued-IsOrderly hostname p ((table, waiting, count, few), busy, short, names, small) is_open absent
      room =
    let fresh = lookup-Fresh hostname p.pending p.queue absent waiting in
    let there : lookup hostname (put hostname waiting_task p.pending) ≡ some waiting_task =
      rw (lookup-put hostname hostname waiting_task p.pending, text_eq_refl hostname) refl in
    let next : Provider = record p {
      pending = put hostname waiting_task p.pending;
      queue = p.queue ++ (hostname ∷ []);
    } in
    let counted : IsCounted next.pending next.queue next.active = (
      put-IsTable hostname waiting_task p.pending table,
      IsWaiting-snoc hostname next.pending p.queue fresh there
          (IsWaiting-put hostname waiting_task p.pending p.queue fresh waiting),
      omega (arith, count, weight-new started_of hostname waiting_task p.pending absent),
      few,
    ) in
    let longer = length-append p.queue (hostname ∷ []) in
    let bounded : length p.queue < max_queued = elim (Bool-cases (is_nil p.queue)) [
      | inl e ↦ omega (arith, length-is_nil p.queue e)
      | inr e ↦ ground arith
    ] in
    drain-IsOrderly next counted (omega (arith, drain-shorter next counted, longer, bounded)) names
      small

asked-IsOrderly :
    (is_hostname : Text → Bool) (hostname : Text) (p : Provider)
    → IsOrderly p
    → IsOrderly (issue is_hostname hostname p).0
unfolding issue
asked-IsOrderly is_hostname hostname p h = by_answer (not (is_hostname hostname)) _ _ h (λ valid.
    by_answer p.closed _ _ h (λ is_open.
      by_found (lookup hostname p.cache) _ _
        (λ uncached.
          by_found (lookup hostname p.pending) _ _
            (λ absent.
              by_answer (leb max_active p.active && leb max_queued (length p.queue)) _ _ h
                (λ room. queued-IsOrderly hostname p h is_open absent room))
            (λ task pending. h))
        (λ certificate cached.
          let (counted, busy, short, names, small) = h in
          let one : added (lookup hostname p.cache) ≡ 0 = rw cached refl in
          (
            counted,
            busy,
            short,
            put-IsTable hostname certificate (delete hostname p.cache)
                (delete-IsTable hostname p.cache names),
            omega (
              arith,
              small,
              one,
              length-delete hostname p.cache,
              length-put_le hostname certificate (delete hostname p.cache),
            ),
          ))))

step-IsOrderly :
    (is_hostname : Text → Bool) (event : Event) (p : Provider)
    → IsOrderly p
    → IsOrderly (step is_hostname event p)
unfolding step
step-IsOrderly is_hostname (asked hostname) p h = asked-IsOrderly is_hostname hostname p h
step-IsOrderly is_hostname (made hostname outcome) p h = generated-IsOrderly hostname outcome p h
step-IsOrderly is_hostname (timed_out hostname) p h = abort-IsOrderly hostname p h
step-IsOrderly is_hostname shut p h = close-IsOrderly p h

run-IsOrderly_from :
    (is_hostname : Text → Bool) (events : List Event) (p : Provider)
    → IsOrderly p
    → IsOrderly (run is_hostname events p)
unfolding run
run-IsOrderly_from is_hostname [] p h = h
run-IsOrderly_from is_hostname (event ∷ events) p h =
    run-IsOrderly_from is_hostname events (step is_hostname event p)
      (step-IsOrderly is_hostname event p h)

-- Whatever happens to a new provider, in whatever order: the started tasks are those that `active` counts, two
-- at most; every name in the queue is pending, has not started and stands there once, sixteen at most;
-- unless the provider is closed, the queue is empty or two are being made; and the cache has no name
-- twice and 64 at most.
pub run-IsOrderly :
    (is_hostname : Text → Bool) (events : List Event)
    → IsOrderly (run is_hostname events new_provider)
run-IsOrderly is_hostname events =
    run-IsOrderly_from is_hostname events new_provider
      ((tt, tt, refl, omega arith), refl, omega arith, tt, omega arith)
