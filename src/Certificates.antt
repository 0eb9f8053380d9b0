-- ===== src/Certificates.antt =====
-- The queue and the cache of `SNICertificateProvider` (util/sni-certificates.ts). Making a certificate
-- is the work of openssl; here it is an event that brings a certificate or a failure.
pub mod Orderly
pub mod Finishing
pub mod Reached
mod Tests
use rethink.Common.{
  ℕ, zero, suc, ◌+◌, ◌-◌, ◌*◌, ◌/◌, ◌%◌, ◌^◌, ◌≤◌, ◌<◌, min, bit_xor, ◌≡◌, refl, sym, ap, ◌∙◌,
  ◌≡⟨◌⟩◌, ◌∎, ◌≢◌, ◌↔◌, ◌⊎◌, inl, inr, Bool, true, false, not, ◌&&◌, ◌||◌, Option, none, some, List,
  [], ◌∷◌, ◌++◌, map, append-nil, append_assoc, arith, ltb, leb, ◌==◌, ==_iff, if◌then◌else◌,
  Bool-cases, Option-cases, all_below, all_below_sound, length, get_elem?, get_or, take, drop,
  concat, length-append, length-drop, length-take, take-append_le, drop-append_le, take_length,
  drop_length, All, All-append, All-drop, All-take, drop-get_elem?, get_elem?-eq-none,
  get_elem?_past, drop_past, bit_xor-zero, bit_xor_self, bit_xor-lt, bit_xor_bytes, bit_xor_words,
  bit_xor_comm, bit_xor_cancel, zero-bit_xor,
}
use rethink.Mqtt.Topic.{Text, text_eq}
use rethink.Mqtt.Table.{lookup, put, delete}

abbrev pub max_active : ℕ
max_active = 2

abbrev pub max_queued : ℕ
max_queued = 16

abbrev pub max_cache : ℕ
max_cache = 64

-- What changes in a `PendingCertificate`; `aborted` is its controller's signal.
pub record Task : Type 0 where
  pub started : Bool
  pub aborted : Bool

-- `cache`, `pending`, `queue`, `active` and `closed`. A task is known by its host name, which no two
-- pending tasks share. A certificate is a number.
pub record Provider : Type 0 where
  pub cache : List (Text × ℕ)
  pub pending : List (Text × Task)
  pub queue : List Text
  pub active : ℕ
  pub closed : Bool

-- What `issue` answers at once: an exception, a rejected promise, a certificate, or a promise.
pub data Issued : Type 0 where
  invalid_hostname rejected : Issued
  found : ℕ → Issued
  promised : Issued

-- The loop of `drain`, over the queue.
pub drain_queue : List Text → Provider → Provider
drain_queue [] p = record p { queue = [] }
drain_queue (hostname ∷ queue) p =
    let next = drain_queue queue (record p {
      pending = put hostname (record { started = true; aborted = false }) p.pending;
      active = p.active + 1;
    }) in
    if not p.closed && ltb p.active max_active then next else record p { queue = hostname ∷ queue }

-- `drain`
pub drain : Provider → Provider
drain p = drain_queue p.queue p

-- `queue.filter((item) => item !== task)`
abbrev pub remove_host : Text → List Text → List Text
remove_host hostname [] = []
remove_host hostname (other ∷ queue) =
    if text_eq other hostname
    then remove_host hostname queue
    else other ∷ remove_host hostname queue

-- `finish`, of the task of a host name; whom it answers is left out.
pub finish : Text → Task → Provider → Provider
finish hostname task p = drain (record p {
  pending = delete hostname p.pending;
  queue = remove_host hostname p.queue;
  active = if task.started then p.active - 1 else p.active;
})

-- `this.cache.delete(this.cache.keys().next().value!)`
abbrev pub without_first : List (Text × ℕ) → List (Text × ℕ)
without_first [] = []
without_first (entry ∷ cache) = cache

abbrev pub remember : Text → ℕ → List (Text × ℕ) → List (Text × ℕ)
remember hostname certificate cache =
    let cache' = put hostname certificate cache in
    if ltb max_cache (length cache') then without_first cache' else cache'

-- What follows `generate`, for a task that was started.
pub generated : Text → Option ℕ → Provider → Provider
generated hostname outcome p = elim (lookup hostname p.pending) [
  | none ↦ p
  | some task ↦ if not task.started then p else elim outcome [
    | none ↦ finish hostname task p
    | some certificate ↦
        if task.aborted
        then finish hostname task p
        else finish hostname task (record p { cache = remember hostname certificate p.cache })
  ]
]

-- The callback of the timer, and the body of the loop in `close`: both abort the task, and finish one
-- that has not started.
pub abort : Text → Provider → Provider
abort hostname p = elim (lookup hostname p.pending) [
  | none ↦ p
  | some task ↦
      let aborted : Task = record task { aborted = true } in
      let p' : Provider = record p { pending = put hostname aborted p.pending } in
      if task.started then p' else finish hostname aborted p'
]

abbrev pub hosts : List (Text × Task) → List Text
hosts [] = []
hosts ((hostname, task) ∷ pending) = hostname ∷ hosts pending

abbrev pub abort_all : List Text → Provider → Provider
abort_all [] p = p
abort_all (hostname ∷ hostnames) p = abort_all hostnames (abort hostname p)

-- `close` up to its `await`
pub close : Provider → Provider
close p = abort_all (hosts p.pending) (record p { closed = true })

-- `issue`, of a host name that is trimmed and in lower case; `is_hostname` is `isDNSHostname`.
pub issue : (Text → Bool) → Text → Provider → Provider × Issued
issue is_hostname hostname p =
    let added : Provider = record p {
      pending = put hostname (record { started = false; aborted = false }) p.pending;
      queue = p.queue ++ (hostname ∷ []);
    } in
    if not (is_hostname hostname)
    then (p, invalid_hostname)
    else if p.closed
    then (p, rejected)
    else elim (lookup hostname p.cache) [
      | some certificate ↦ (
        record p { cache = put hostname certificate (delete hostname p.cache) },
        found certificate,
      )
      | none ↦ elim (lookup hostname p.pending) [
        | some task ↦ (p, promised)
        | none ↦
            if leb max_active p.active && leb max_queued (length p.queue)
            then (p, rejected)
            else (drain added, promised)
      ]
    ]

pub data Event : Type 0 where
  asked : Text → Event
  made : Text → Option ℕ → Event
  timed_out : Text → Event
  shut : Event

pub step : (Text → Bool) → Event → Provider → Provider
step is_hostname (asked hostname) p = (issue is_hostname hostname p).0
step is_hostname (made hostname outcome) p = generated hostname outcome p
step is_hostname (timed_out hostname) p = abort hostname p
step is_hostname shut p = close p

pub run : (Text → Bool) → List Event → Provider → Provider
run is_hostname [] p = p
run is_hostname (event ∷ events) p = run is_hostname events (step is_hostname event p)

abbrev pub new_provider : Provider
new_provider = record { cache = []; pending = []; queue = []; active = 0; closed = false }
