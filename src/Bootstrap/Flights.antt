-- ===== src/Bootstrap/Flights.antt =====
-- internal/resolver/bootstrap.go: LookupIP and lookupOnce, the cache with its grace period and the
-- queries of one host that share a resolution. A step is a piece of a goroutine between two accesses
-- of a shared map or channel. Callers and resolutions are known by numbers; times are in seconds.
use dns_automatic_traffic_sp.Base.{
  ℕ, ◌+◌, Bool, Option, none, some, List, [], ◌∷◌, if◌then◌else◌, ltb, ◌==◌,
}
use dns_automatic_traffic_sp.Base.Text.{Text}
use dns_automatic_traffic_sp.Base.Maps.{Map, lookup, insert, delete}
use dns_automatic_traffic_sp.Client.{Error}
use dns_automatic_traffic_sp.Bootstrap.{Lookup, found, not_found}

abbrev pub cache_ttl : ℕ
cache_ttl = 300

abbrev pub stale_ttl : ℕ
stale_ttl = 3600

pub record Entry : Type 0 where
  pub ip : Text
  pub expiry : ℕ

-- inflight: its `done` is closed if there is an outcome.
pub record Flight : Type 0 where
  pub host : Text
  pub outcome : Option Lookup

-- A caller of LookupIP behind the cache, before or behind LoadOrStore; with the expired entry.
pub record Waiter : Type 0 where
  pub host : Text
  pub flight : Option ℕ
  pub stale : Option Entry

pub record Bootstrapper : Type 0 where
  pub cache : Map Entry
  pub pending : Map ℕ
  pub next : ℕ
  pub flights : ℕ → Option Flight
  pub waiters : ℕ → Option Waiter

abbrev pub idle_bootstrapper : Bootstrapper
idle_bootstrapper = record {
  cache = [];
  pending = [];
  next = 0;
  flights = λ i. none;
  waiters = λ c. none;
}

-- What a caller of LookupIP for a host gets, and when.
pub record Answer : Type 0 where
  pub host : Text
  pub result : Lookup
  pub time : ℕ

abbrev pub at_key {ℓ} : {A : Type ℓ} → ℕ → A → (ℕ → A) → ℕ → A
at_key k v f i = if k == i then v else f i

abbrev pub Outcome : Type 0
Outcome = Bootstrapper × Option Answer

abbrev pub answer_now : Text → Lookup → ℕ → Option Answer
answer_now host l now = some (record { host = host; result = l; time = now })

abbrev pub wait : ℕ → Text → Option Entry → Bootstrapper → Bootstrapper
wait caller host stale b = record b {
  waiters = at_key caller (some (record { host = host; flight = none; stale = stale })) b.waiters;
}

abbrev pub on_entry : ℕ → Text → ℕ → Option Entry → Bootstrapper → Outcome
on_entry caller host now none b = (wait caller host none b, none)
on_entry caller host now (some e) b =
    if ltb now e.expiry
    then (b, answer_now host (found e.ip) now)
    else (wait caller host (some e) b, none)

-- The beginning of LookupIP, given whether the host is an address.
unfoldable pub ask : Bool → ℕ → Text → ℕ → Bootstrapper → Outcome
ask is_ip caller host now b =
    if is_ip
    then (b, answer_now host (found host) now)
    else on_entry caller host now (lookup host b.cache) b

abbrev pub fly : ℕ → Waiter → ℕ → Bootstrapper → Bootstrapper
fly caller w i b = record b {
  waiters = at_key caller (some (record w { flight = some i })) b.waiters;
}

-- LoadOrStore: the resolution that is there, or a new one, which a goroutine is started for.
unfoldable pub join : ℕ → Waiter → Option ℕ → Bootstrapper → Bootstrapper
join caller w (some i) b = fly caller w i b
join caller w none b = fly caller w b.next (record b {
  next = b.next + 1;
  pending = insert w.host b.next b.pending;
  flights = at_key b.next (some (record { host = w.host; outcome = none })) b.flights;
})

abbrev pub remember : Text → Lookup → ℕ → Bootstrapper → Bootstrapper
remember host (found ip) now b = record b {
  cache = insert host (record { ip = ip; expiry = now + cache_ttl }) b.cache;
}
remember host (not_found e) now b = b

-- The goroutine has the outcome, stores it and closes `done`.
unfoldable pub land : ℕ → Text → Lookup → ℕ → Bootstrapper → Bootstrapper
land i host l now b =
    remember host l now
      (record b { flights = at_key i (some (record { host = host; outcome = some l })) b.flights })

abbrev pub left : ℕ → Bootstrapper → Bootstrapper
left caller b = record b { waiters = at_key caller none b.waiters }

-- LookupIP behind an error of lookupOnce.
unfoldable pub fall_back : ℕ → Waiter → Error → ℕ → Bootstrapper → Outcome
fall_back caller w e now b = on_stale w.stale
  where
    failed : Outcome
    failed = (
      record (left caller b) { cache = delete w.host b.cache },
      answer_now w.host (not_found e) now,
    )

    on_stale : Option Entry → Outcome
    on_stale none = failed
    on_stale (some s) =
        if ltb now (s.expiry + stale_ttl)
        then (left caller b, answer_now w.host (found s.ip) now)
        else failed

-- LookupIP behind lookupOnce.
unfoldable pub conclude : ℕ → Waiter → Lookup → ℕ → Bootstrapper → Outcome
unfolding fall_back
conclude caller w (found ip) now b = (left caller b, answer_now w.host (found ip) now)
conclude caller w (not_found e) now b = fall_back caller w e now b

-- A new call (its caller's number being unused), its LoadOrStore, the end of a resolution, the
-- removal of the finished one from `pending`, and the two cases of the select: `done` is closed, or
-- the caller's context is over.
pub data Event : Type 0 where
  asked : ℕ → Text → Event
  joined : ℕ → Event
  landed : ℕ → Event
  forgotten : ℕ → Event
  woken : ℕ → Event
  cancelled : ℕ → Error → Event

abbrev pub on_join : ℕ → Option Waiter → Bootstrapper → Outcome
on_join caller none b = (b, none)
on_join caller (some w) b = elim w.flight [
  | none ↦ (join caller w (lookup w.host b.pending) b, none)
  | some i ↦ (b, none)
]

abbrev pub on_wake : ℕ → ℕ → Option Waiter → Bootstrapper → Outcome
on_wake caller now none b = (b, none)
on_wake caller now (some w) b = elim w.flight [
  | none ↦ (b, none)
  | some i ↦ elim (b.flights i) [
    | none ↦ (b, none)
    | some f ↦ elim f.outcome [ none ↦ (b, none) | some l ↦ conclude caller w l now b ]
  ]
]

abbrev pub on_cancel : ℕ → Error → ℕ → Option Waiter → Bootstrapper → Outcome
on_cancel caller e now none b = (b, none)
on_cancel caller e now (some w) b = elim w.flight [
  | none ↦ (b, none)
  | some i ↦ fall_back caller w e now b
]

-- `gives` is resolveHost: what the resolution of a host that ends at a time gives.
module _ (is_ip : Text → Bool) (gives : Text → ℕ → Lookup) where
  abbrev pub on_land : ℕ → ℕ → Option Flight → Bootstrapper → Bootstrapper
  on_land i now none b = b
  on_land i now (some f) b = elim f.outcome [
    | none ↦ land i f.host (gives f.host now) now b
    | some l ↦ b
  ]

  abbrev pub on_forget : ℕ → Option Flight → Bootstrapper → Bootstrapper
  on_forget i none b = b
  on_forget i (some f) b = elim f.outcome [
    | none ↦ b
    | some l ↦ elim (lookup f.host b.pending) [
      | none ↦ b
      | some j ↦ if j == i then record b { pending = delete f.host b.pending } else b
    ]
  ]

  unfoldable pub step : Event → ℕ → Bootstrapper → Outcome
  unfolding ask join land conclude fall_back
  step (asked caller host) now b = ask (is_ip host) caller host now b
  step (joined caller) now b = on_join caller (b.waiters caller) b
  step (landed i) now b = (on_land i now (b.flights i) b, none)
  step (forgotten i) now b = (on_forget i (b.flights i) b, none)
  step (woken caller) now b = on_wake caller now (b.waiters caller) b
  step (cancelled caller e) now b = on_cancel caller e now (b.waiters caller) b

  abbrev pub and_answer : Option Answer → List Answer → List Answer
  and_answer none l = l
  and_answer (some a) l = a ∷ l

  -- The answers of a sequence of steps, each with its time.
  unfoldable pub run : List (Event × ℕ) → Bootstrapper → Bootstrapper × List Answer
  unfolding step
  run [] b = (b, [])
  run ((e, now) ∷ es) b =
      let (b1, a) = step e now b in let (b2, rest) = run es b1 in (b2, and_answer a rest)
