-- ===== src/QueryLog/Numbering.antt =====
-- The numbers that the logger gives to its entries.
use dns_automatic_traffic_sp.Base.{
  suc, ◌+◌, ◌<◌, ◌%◌, ◌^◌, true, false, if◌then◌else◌, ℕ, ◌≡◌, refl, sym, ap, ◌∙◌, inl, inr, ◌≢◌,
  Bool, not, ◌||◌, List, [], ◌∷◌, ◌++◌, arith, ltb, length, drop, max_int64, inc64, Bool-cases,
}
use dns_automatic_traffic_sp.Base.Text.{Text}
use dns_automatic_traffic_sp.QueryLog.{
  LogEntry, QueryLogger, new_query_logger, update_totals, record_recent_log, stamp, account,
  add_log, add_to_memory, clear, decrement_top_counters,
}
use dns_automatic_traffic_sp.QueryLog.Ring.{IsRing, contents, contents-add_to_memory, push_bounded}
use dns_automatic_traffic_sp.QueryLog.History.{
  Op, add, wipe, run, IsSound, SameStore, account-SameStore, SameStore-IsRing, add_log-IsSound,
  clear-IsSound, new_query_logger-IsSound,
}

-- The entries carry successive numbers from `a`, and the next number is `b`.
abbrev pub Chain : ℕ → List LogEntry → ℕ → Type 0
Chain a [] b = a ≡ b
Chain a (e ∷ q) b = (e.id ≡ a) × Chain (inc64 a) q b

pub record IsNumbered (l : QueryLogger) : Type 0 where
  pub first : ℕ
  pub chain : Chain first (contents l) l.next_id
  pub total : inc64 l.stats.total_queries ≡ l.next_id

Chain-append :
    (a b : ℕ) (q : List LogEntry) (e : LogEntry)
    → Chain a q b
    → e.id ≡ b
    → Chain a (q ++ e ∷ []) (inc64 b)
Chain-append a b [] e c h = (h ∙ sym c, ap inc64 c)
Chain-append a b (x ∷ q) e c h = (c.0, Chain-append (inc64 a) b q e c.1 h)

Chain-drop : (a b : ℕ) (q : List LogEntry) → Chain a q b → (a' : ℕ) × Chain a' (drop 1 q) b
Chain-drop a b [] c = (a, c)
Chain-drop a b (x ∷ q) c = (inc64 a, c.1)

push_bounded-Chain :
    (a b cap : ℕ) (q : List LogEntry) (e : LogEntry)
    → Chain a q b
    → e.id ≡ b
    → (a' : ℕ) × Chain a' (push_bounded cap q e) (inc64 b)
push_bounded-Chain a b cap q e c h = elim (Bool-cases (ltb (length q) cap)) [
  | inl room ↦ rw room (a, Chain-append a b q e c h)
  | inr full ↦
      let (a', c') = Chain-drop a b q c in rw full (a', Chain-append a' b (drop 1 q) e c' h)
]

-- What an accepted entry does to the numbering fields.
next_id-add :
    (l : QueryLogger) (e : LogEntry) → (add_to_memory (account l e) e).next_id ≡ inc64 l.next_id
unfolding add_to_memory account record_recent_log
next_id-add l e = ground arith

total-add :
    (l : QueryLogger) (e : LogEntry)
    → (add_to_memory (account l e) e).stats.total_queries ≡ inc64 l.stats.total_queries
unfolding add_to_memory account record_recent_log update_totals decrement_top_counters
total-add l e = ground arith

contents-account : (l : QueryLogger) (e : LogEntry) → contents (account l e) ≡ contents l
contents-account l e = rw (kept.start, kept.logs)
  where
    kept : SameStore l (account l e)
    kept = account-SameStore l e

add_log-IsNumbered :
    (l : QueryLogger) (e : LogEntry) (now : ℕ)
    → IsRing l
    → IsNumbered l
    → IsNumbered (add_log l e now)
unfolding add_log stamp
add_log-IsNumbered l e now v n = elim (Bool-cases (not l.enabled || l.closed)) [
  | inl off ↦ rw off n
  | inr on ↦ rw on (record {
    first = moved.0;
    chain =
        rw (next_id-add l e', contents-add_to_memory (account l e') e' ring', contents-account l e')
          moved.1;
    total = rw (next_id-add l e', total-add l e') (ap inc64 n.total);
  })
]
  where
    e' : LogEntry
    e' = stamp l e now

    ring' : IsRing (account l e')
    ring' = SameStore-IsRing (account-SameStore l e') v

    moved :
        (a' : ℕ) × Chain a'
          (push_bounded (account l e').max_history (contents l) e')
          (inc64 l.next_id)
    moved =
        push_bounded-Chain n.first l.next_id (account l e').max_history (contents l) e' n.chain refl

run-IsNumbered :
    (l : QueryLogger) (ops : List Op) → IsSound l → IsNumbered l → IsNumbered (run l ops)
unfolding clear
run-IsNumbered l [] v n = n
run-IsNumbered l (add e now ∷ ops) v n =
    run-IsNumbered (add_log l e now) ops (add_log-IsSound l e now v)
      (add_log-IsNumbered l e now v.ring n)
run-IsNumbered l (wipe ∷ ops) v n =
    run-IsNumbered (clear l) ops (clear-IsSound l v)
      (record { first = l.next_id; chain = refl; total = n.total })

-- The entries that a logger which is enabled, or not, accepts.
abbrev pub accepted : Bool → List Op → ℕ
accepted enabled [] = 0
accepted enabled (add e now ∷ ops) =
    if enabled then suc (accepted enabled ops) else accepted enabled ops
accepted enabled (wipe ∷ ops) = accepted enabled ops

enabled-add :
    (l : QueryLogger) (e : LogEntry)
    → ((add_to_memory (account l e) e).enabled ≡ l.enabled)
      × ((add_to_memory (account l e) e).closed ≡ l.closed)
unfolding add_to_memory account record_recent_log
enabled-add l e = (ground arith, ground arith)

when {ℓ} :
    {A : Type ℓ} (b c : Bool) (x y : A) → b ≡ true → c ≡ false → (if not b || c then x else y) ≡ y
when b c x y on open_ = rw (on, open_) refl

unless {ℓ} : {A : Type ℓ} (b c : Bool) (x y : A) → b ≡ false → (if not b || c then x else y) ≡ x
unless b c x y off = rw off refl

add_log-on :
    (l : QueryLogger) (e : LogEntry) (now : ℕ)
    → l.enabled ≡ true
    → l.closed ≡ false
    → add_log l e now ≡ add_to_memory (account l (stamp l e now)) (stamp l e now)
unfolding add_log
add_log-on l e now on open_ = when l.enabled l.closed l _ on open_

add_log-off : (l : QueryLogger) (e : LogEntry) (now : ℕ) → l.enabled ≡ false → add_log l e now ≡ l
unfolding add_log
add_log-off l e now off = unless l.enabled l.closed l _ off

run-next_id :
    (l : QueryLogger) (enabled : Bool) (ops : List Op)
    → l.enabled ≡ enabled
    → l.closed ≡ false
    → l.next_id < 2 ^ 64
    → (run l ops).next_id ≡ (l.next_id + accepted enabled ops) % 2 ^ 64
unfolding clear
run-next_id l enabled [] on open_ small = omega (arith, small)
run-next_id l enabled (wipe ∷ ops) on open_ small = run-next_id (clear l) enabled ops on open_ small
run-next_id l true (add e now ∷ ops) on open_ small =
    let e' = stamp l e now in
    let l' = add_to_memory (account l e') e' in
    let taken : add_log l e now ≡ l' = add_log-on l e now on open_ in
    let (on', open') = enabled-add l e' in
    let next = next_id-add l e' in
    ap (λ (x : QueryLogger). (run x ops).next_id) taken
    ∙ run-next_id l' true ops (on' ∙ on) (open' ∙ open_) (omega (arith, next))
    ∙ ap (λ k. (k + accepted true ops) % 2 ^ 64) next
    ∙ omega arith
run-next_id l false (add e now ∷ ops) on open_ small =
    ap (λ (x : QueryLogger). (run x ops).next_id) (add_log-off l e now on)
    ∙ run-next_id l false ops on open_ small

-- In a logger made by NewQueryLogger with no file, after any sequence of AddLog and Clear: the
-- buffered entries carry successive numbers (as 64-bit patterns) that end just before `nextID`,
-- `nextID` is one more than TotalQueries, and one more than the number of all calls of AddLog, modulo
-- 2^64 (one, if the logger is not enabled): Clear resets neither.
pub run-new_query_logger-IsNumbered :
    (enabled save : Bool) (history mb now : ℕ) (path : Text) (ops : List Op)
    → history ≢ max_int64
    → let l = run (new_query_logger enabled history mb path save now) ops in
      IsNumbered l × (l.next_id ≡ (1 + accepted enabled ops) % 2 ^ 64)
unfolding new_query_logger
run-new_query_logger-IsNumbered enabled save history mb now path ops h = (
  run-IsNumbered _ ops (new_query_logger-IsSound enabled save history mb now path h)
      (record { first = 1; chain = refl; total = refl }),
  run-next_id (new_query_logger enabled history mb path save now) enabled ops refl refl
      (omega arith),
)
