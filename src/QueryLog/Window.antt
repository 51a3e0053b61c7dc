-- ===== src/QueryLog/Window.antt =====
-- The window of recent queries of querylog.go: what currentQPS counts, and how much of the slice is
-- dead.
use dns_automatic_traffic_sp.Base.{
  ℕ, zero, suc, ◌+◌, ◌-◌, ◌*◌, ◌≤◌, ◌<◌, ◌≡◌, refl, sym, ap, ◌∙◌, ◌⊎◌, inl, inr, Bool, true, false,
  not, List, [], ◌∷◌, ◌++◌, reverse, reverse-cons, arith, length, take, drop, select, Bool-cases,
  length-append, length-drop, length-reverse, drop-append_left, drop-drop, select-append,
  append-nil, append_assoc, drop-eq-cons, get_elem?-drop, reverse-take, take-length,
}
use native.Mathlib.Decide.{dec_le}
use dns_automatic_traffic_sp.QueryLog.{
  QueryLogger, is_stale, stale_prefix, fresh_prefix, times_down, record_recent_log, current_qps,
}

abbrev pub is_fresh : ℕ → ℕ → Bool
is_fresh now t = not (is_stale now t)

-- The times rise from `lo` to `hi`.
abbrev pub Between : ℕ → List ℕ → ℕ → Type 0
Between lo [] hi = lo ≤ hi
Between lo (t ∷ q) hi = (lo ≤ t) × Between t q hi

-- Recording the times of a list, in order.
abbrev pub record_all : QueryLogger → List ℕ → QueryLogger
record_all l [] = l
record_all l (t ∷ q) = record_all (record_recent_log l t) q

Between-lower : (lo lo' : ℕ) (q : List ℕ) (hi : ℕ) → lo' ≤ lo → Between lo q hi → Between lo' q hi
Between-lower lo lo' [] hi h b = omega arith
Between-lower lo lo' (t ∷ q) hi h b = (omega arith, b.1)

Between-select :
    (p : ℕ → Bool) (lo : ℕ) (q : List ℕ) (hi : ℕ) → Between lo q hi → Between lo (select p q) hi
Between-select p lo [] hi b = b
Between-select p lo (t ∷ q) hi b =
    ground (arith, Between-select p t q hi b.1, Between-lower t lo (select p q) hi b.0)

Between-snoc :
    (lo : ℕ) (q : List ℕ) (hi ts : ℕ) → Between lo q hi → hi ≤ ts → Between lo (q ++ ts ∷ []) ts
Between-snoc lo [] hi ts b h = (omega arith, omega arith)
Between-snoc lo (t ∷ q) hi ts b h = (b.0, Between-snoc t q hi ts b.1 h)

-- All times are fresh where the earliest is.
select-fresh_all :
    (now lo : ℕ) (q : List ℕ) (hi : ℕ)
    → Between lo q hi
    → is_stale now lo ≡ false
    → select (is_fresh now) q ≡ q
select-fresh_all now lo [] hi b h = refl
select-fresh_all now lo (t ∷ q) hi b h = ground (arith, select-fresh_all now t q hi b.1)

-- In rising times the loop of recordRecentLog drops exactly the stale ones.
drop-stale_prefix :
    (now lo : ℕ) (q : List ℕ) (hi : ℕ)
    → Between lo q hi
    → drop (stale_prefix now q) q ≡ select (is_fresh now) q
unfolding stale_prefix
drop-stale_prefix now lo [] hi b = refl
drop-stale_prefix now lo (t ∷ q) hi b =
    ground (arith, drop-stale_prefix now t q hi b.1, select-fresh_all now t q hi b.1)

stale_prefix-le : (now : ℕ) (q : List ℕ) → stale_prefix now q ≤ length q
unfolding stale_prefix
stale_prefix-le now [] = omega arith
stale_prefix-le now (t ∷ q) = ground (arith, stale_prefix-le now q)

select-select :
    (now now' : ℕ) (q : List ℕ)
    → now ≤ now'
    → select (is_fresh now') (select (is_fresh now) q) ≡ select (is_fresh now') q
select-select now now' [] h = refl
select-select now now' (t ∷ q) h = ground (arith, select-select now now' q)

fresh_prefix-snoc_stale :
    (now : ℕ) (q : List ℕ) (t : ℕ)
    → is_stale now t ≡ true
    → fresh_prefix now (q ++ t ∷ []) ≡ fresh_prefix now q
unfolding fresh_prefix
fresh_prefix-snoc_stale now [] t h = ground arith
fresh_prefix-snoc_stale now (x ∷ q) t h = ground (arith, fresh_prefix-snoc_stale now q t)

fresh_prefix-snoc_fresh :
    (now : ℕ) (q : List ℕ) (t : ℕ)
    → is_stale now t ≡ false
    → fresh_prefix now q ≡ length q
    → fresh_prefix now (q ++ t ∷ []) ≡ suc (length q)
unfolding fresh_prefix
fresh_prefix-snoc_fresh now [] t h e = ground arith
fresh_prefix-snoc_fresh now (x ∷ q) t h e = ground (arith, fresh_prefix-snoc_fresh now q t)

-- In rising times the loop of currentQPS counts exactly the fresh ones.
fresh_prefix-reverse :
    (now lo : ℕ) (q : List ℕ) (hi : ℕ)
    → Between lo q hi
    → fresh_prefix now (reverse q) ≡ length (select (is_fresh now) q)
unfolding fresh_prefix
fresh_prefix-reverse now lo [] hi b = refl
fresh_prefix-reverse now lo (t ∷ q) hi b = elim (Bool-cases (is_stale now t)) [
  | inl old ↦
      rw (reverse-cons, fresh_prefix-snoc_stale now (reverse q) t old)
        (ground (arith, fresh_prefix-reverse now t q hi b.1))
  | inr new ↦
      let all = select-fresh_all now t q hi b.1 new in
      ap (fresh_prefix now) (reverse-cons t q)
      ∙ fresh_prefix-snoc_fresh now (reverse q) t new
          (fresh_prefix-reverse now t q hi b.1 ∙ ap length all ∙ sym (length-reverse q))
      ∙ rw new (ap suc (length-reverse q ∙ sym (ap length all)))
]

times_down-reverse :
    (times : List ℕ) (start n : ℕ)
    → start + n ≤ length times
    → times_down times start n ≡ reverse (take n (drop start times))
unfolding times_down
times_down-reverse times start zero h = refl
times_down-reverse times start (suc n) h =
    let (t, g, _) = drop-eq-cons (drop start times) n (omega (arith, length-drop start times)) in
    rw (sym (get_elem?-drop start times n) ∙ g, reverse-take (drop start times) n t g)
      (ap (λ q. t ∷ q) (times_down-reverse times start n (omega arith)))

-- The state of the window after the times of `history` were recorded, the last of them `latest`.
pub record IsWindow (l : QueryLogger) (history : List ℕ) (latest : ℕ) : Type 0 where
  pub in_range : l.recent_start ≤ length l.recent_logs
  pub live : drop l.recent_start l.recent_logs ≡ select (is_fresh latest) history
  pub rising : Between 0 history latest
  pub slack : (l.recent_start ≡ 0) ⊎ (l.recent_start * 2 < length l.recent_logs)

abbrev compact-parts : QueryLogger → ℕ → Type 0
compact-parts l ts =
    let l' = record_recent_log l ts in
    let times = l.recent_logs ++ ts ∷ [] in
    (l'.recent_start ≤ length l'.recent_logs)
    × (drop l'.recent_start l'.recent_logs
        ≡ drop (l.recent_start + stale_prefix ts (drop l.recent_start times)) times)
    × ((l'.recent_start ≡ 0) ⊎ (l'.recent_start * 2 < length l'.recent_logs))

compact_lem :
    (l : QueryLogger) (ts : ℕ)
    → l.recent_start + stale_prefix ts (drop l.recent_start (l.recent_logs ++ ts ∷ []))
      ≤ length (l.recent_logs ++ ts ∷ [])
    → compact-parts l ts
unfolding record_recent_log
compact_lem l ts h = ground arith

record-IsWindow :
    (l : QueryLogger) (history : List ℕ) (latest ts : ℕ)
    → IsWindow l history latest
    → latest ≤ ts
    → IsWindow (record_recent_log l ts) (history ++ ts ∷ []) ts
record-IsWindow l history latest ts w h = record {
  in_range = parts.0;
  live = parts.1 ∙ live';
  rising = Between-snoc 0 history latest ts w.rising h;
  slack = parts.2;
}
  where
    times : List ℕ
    times = l.recent_logs ++ ts ∷ []

    start : ℕ
    start = l.recent_start + stale_prefix ts (drop l.recent_start times)

    kept : drop l.recent_start times ≡ select (is_fresh latest) history ++ ts ∷ []
    kept =
        drop-append_left l.recent_start l.recent_logs (ts ∷ []) w.in_range
        ∙ ap (λ q. q ++ ts ∷ []) w.live

    bound : start ≤ length times
    bound = omega (
      arith,
      stale_prefix-le ts (drop l.recent_start times),
      length-drop l.recent_start times,
      length-append l.recent_logs (ts ∷ []),
      w.in_range,
    )

    parts : compact-parts l ts
    parts = compact_lem l ts bound

    live' : drop start times ≡ select (is_fresh ts) (history ++ ts ∷ [])
    live' =
        sym (drop-drop (stale_prefix ts (drop l.recent_start times)) l.recent_start times)
        ∙ ap (λ q. drop (stale_prefix ts q) q) kept
        ∙ drop-stale_prefix ts 0 (select (is_fresh latest) history ++ ts ∷ []) ts (
            Between-snoc 0 (select (is_fresh latest) history) latest ts
              (Between-select (is_fresh latest) 0 history latest w.rising) h)
        ∙ select-append (is_fresh ts) (select (is_fresh latest) history) (ts ∷ [])
        ∙ ap (λ q. q ++ select (is_fresh ts) (ts ∷ [])) (select-select latest ts history h)
        ∙ sym (select-append (is_fresh ts) history (ts ∷ []))

record_all-IsWindow :
    (l : QueryLogger) (history q : List ℕ) (latest hi : ℕ)
    → IsWindow l history latest
    → Between latest q hi
    → (latest' : ℕ) × IsWindow (record_all l q) (history ++ q) latest' × (latest' ≤ hi)
record_all-IsWindow l history [] latest hi w b = (latest, rw append-nil w, b)
record_all-IsWindow l history (t ∷ q) latest hi w b = rw (sym (append_assoc history (t ∷ []) q)) (
    record_all-IsWindow (record_recent_log l t) (history ++ t ∷ []) q t hi
      (record-IsWindow l history latest t w b.0) b.1)

current_qps-IsWindow :
    (l : QueryLogger) (history : List ℕ) (latest now : ℕ)
    → IsWindow l history latest
    → latest ≤ now
    → current_qps l now ≡ length (select (is_fresh now) history)
unfolding current_qps fresh_prefix times_down
current_qps-IsWindow l history latest now w h =
    elim (dec_le (length l.recent_logs) l.recent_start) [
      | yes empty ↦ ground (
        arith,
        counted,
        ap (λ n. fresh_prefix now (times_down l.recent_logs l.recent_start n))
            {x = length l.recent_logs - l.recent_start} {y = 0} (omega arith),
      )
      | no some_left ↦ ground (arith, counted)
    ]
  where
    n : ℕ
    n = length l.recent_logs - l.recent_start

    down : times_down l.recent_logs l.recent_start n ≡ reverse (drop l.recent_start l.recent_logs)
    down =
        times_down-reverse l.recent_logs l.recent_start n (omega (arith, w.in_range))
        ∙ ap reverse (
            take-length (drop l.recent_start l.recent_logs) n
              (omega (arith, length-drop l.recent_start l.recent_logs)))

    counted :
        fresh_prefix now (times_down l.recent_logs l.recent_start n)
        ≡ length (select (is_fresh now) history)
    counted =
        ap (fresh_prefix now) (down ∙ ap reverse w.live)
        ∙ fresh_prefix-reverse now 0 (select (is_fresh latest) history) latest
            (Between-select (is_fresh latest) 0 history latest w.rising)
        ∙ ap length (select-select latest now history h)

-- Start from a logger with an empty window and record times that rise, the last of them at most
-- `now`. Then currentQPS at `now` counts exactly the recorded times that are not older than the
-- window of ten seconds; the window's slice is never mostly dead: its start index is 0, or less
-- than half of its length.
pub current_qps-record_all :
    (l : QueryLogger) (q : List ℕ) (now : ℕ)
    → l.recent_logs ≡ []
    → l.recent_start ≡ 0
    → Between 0 q now
    → let l' = record_all l q in
      (current_qps l' now ≡ length (select (is_fresh now) q))
      × ((l'.recent_start ≡ 0) ⊎ (l'.recent_start * 2 < length l'.recent_logs))
current_qps-record_all l q now e z b =
    let (latest, w, h) = record_all-IsWindow l [] q 0 now empty b in
    (current_qps-IsWindow (record_all l q) q latest now w h, w.slack)
  where
    empty : IsWindow l [] 0
    empty = record { in_range = omega arith; live = rw (e, z); rising = omega arith; slack = inl z }
