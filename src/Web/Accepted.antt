-- ===== src/Web/Accepted.antt =====
-- Which sessions the web console accepts, from the history of its requests.
use dns_automatic_traffic_sp.Base.{
  ℕ, ◌+◌, ◌≤◌, ◌≡◌, refl, ap, sym, ◌∙◌, Bool, true, false, ◌&&◌, Option, none, some, List, [], ◌∷◌,
  arith, if◌then◌else◌, ltb, Bool-cases, inl, inr,
}
use dns_automatic_traffic_sp.Base.Text.{Text, text_eq, text_eq_iff}
use dns_automatic_traffic_sp.Base.Maps.{lookup, insert, delete, lookup-insert, lookup-delete}
use dns_automatic_traffic_sp.Settings.{WebUi}
use dns_automatic_traffic_sp.Web.{
  Sessions, session_life, prune_expired_sessions, is_open, accepts, check_auth, login, logout,
}

pub data Action : Type 0 where
  log_in : Text → Text → Text → Action
  log_out : Option Text → Action
  visit : Option Text → Action

-- A request with the two readings of the clock that it takes.
pub record Request : Type 0 where
  pub action : Action
  pub now : ℕ
  pub later : ℕ

abbrev pub serve : WebUi → Action → ℕ → ℕ → Sessions → Sessions
serve c (log_in username password token) now later m =
    (login c username password token now later m).1
serve c (log_out cookie) now later m = logout cookie m
serve c (visit cookie) now later m = (check_auth c cookie now later m).1

-- The sessions after a history of requests, the newest first.
abbrev pub run_requests : WebUi → List Request → Sessions
run_requests c [] = []
run_requests c (r ∷ rs) = serve c r.action r.now r.later (run_requests c rs)

-- The clock rises along the history, and has not passed `t`.
abbrev pub Before : ℕ → List Request → Type 0
Before t [] = Unit
Before t (r ∷ rs) = (r.later ≤ t) × (r.now ≤ r.later) × Before r.now rs

-- The expiry that the newest login or logout on a token leaves it, whatever was pruned.
abbrev pub issued_by : WebUi → Text → Action → ℕ → Option ℕ → Option ℕ
issued_by c k (log_in username password token) now before =
    if text_eq username c.username && text_eq password c.password
    then if text_eq token k then some (now + session_life) else before
    else before
issued_by c k (log_out none) now before = before
issued_by c k (log_out (some token)) now before = if text_eq token k then none else before
issued_by c k (visit cookie) now before = before

abbrev pub issued : WebUi → Text → List Request → Option ℕ
issued c k [] = none
issued c k (r ∷ rs) = issued_by c k r.action r.now (issued c k rs)

-- No token stands twice.
abbrev pub Unique : Sessions → Type 0
Unique [] = Unit
Unique ((k, e) ∷ m) = (lookup k m ≡ none) × Unique m

abbrev pub keep : ℕ → Option ℕ → Option ℕ
keep t none = none
keep t (some e) = if ltb e t then none else some e

prune-none :
    (t : ℕ) (k : Text) (m : Sessions)
    → lookup k m ≡ none
    → lookup k (prune_expired_sessions t m) ≡ none
unfolding lookup prune_expired_sessions
prune-none t k [] h = refl
prune-none t k ((j, e) ∷ m) h = elim (Bool-cases (text_eq j k)) [
  | inl same ↦ ground (arith, rw same at h)
  | inr other ↦
      let ih = prune-none t k m (rw other at h) in
      elim (Bool-cases (ltb e t)) [ inl old ↦ rw old ih | inr live ↦ rw (live, other) ih ]
]

prune-lookup :
    (t : ℕ) (k : Text) (m : Sessions)
    → Unique m
    → lookup k (prune_expired_sessions t m) ≡ keep t (lookup k m)
unfolding lookup prune_expired_sessions
prune-lookup t k [] u = refl
prune-lookup t k ((j, e) ∷ m) u = elim (Bool-cases (text_eq j k)) [
  | inl same ↦
      let gone = ap (λ i. lookup i m) (sym ((text_eq_iff j k).0 same)) ∙ u.0 in
      ground (arith, same, prune-none t k m gone)
  | inr other ↦ ground (arith, other, prune-lookup t k m u.1)
]

prune-Unique : (t : ℕ) (m : Sessions) → Unique m → Unique (prune_expired_sessions t m)
unfolding prune_expired_sessions
prune-Unique t [] u = tt
prune-Unique t ((j, e) ∷ m) u = elim (Bool-cases (ltb e t)) [
  | inl old ↦ rw old (prune-Unique t m u.1)
  | inr live ↦ rw live (prune-none t j m u.0, prune-Unique t m u.1)
]

insert-Unique : (k : Text) (e : ℕ) (m : Sessions) → Unique m → Unique (insert k e m)
unfolding insert lookup
insert-Unique k e [] u = (refl, tt)
insert-Unique k e ((j, d) ∷ m) u = elim (Bool-cases (text_eq j k)) [
  | inl same ↦ rw same (ap (λ i. lookup i m) (sym ((text_eq_iff j k).0 same)) ∙ u.0, u.1)
  | inr other ↦ rw other (
    ground (arith, lookup-insert k j e m, text_eq_iff j k, text_eq_iff k j, u.0, other),
    insert-Unique k e m u.1,
  )
]

delete-Unique : (k : Text) (m : Sessions) → Unique m → Unique (delete k m)
unfolding delete
delete-Unique k [] u = tt
delete-Unique k ((j, d) ∷ m) u = elim (Bool-cases (text_eq j k)) [
  | inl same ↦ rw same (delete-Unique k m u.1)
  | inr other ↦ rw other (ground (arith, lookup-delete k j m, u.0), delete-Unique k m u.1)
]

by_test :
    {A : Type 0} (P : Bool → Sessions → Type 0) (b : Bool) (n k : A) (x y : Sessions)
    → P true x
    → P false y
    → P b (if◌then◌else◌ {A = A × Sessions} b (n, x) (k, y)).1
by_test {A} P true n k x y px py = px
by_test {A} P false n k x y px py = py

serve-Unique :
    (c : WebUi) (a : Action) (now later : ℕ) (m : Sessions)
    → Unique m
    → Unique (serve c a now later m)
unfolding login logout check_auth
serve-Unique c (log_in username password token) now later m u =
    by_test (λ b m'. Unique m') (text_eq username c.username && text_eq password c.password) 200 401
      (insert token (now + session_life) (prune_expired_sessions later m)) m
      (insert-Unique token (now + session_life) (prune_expired_sessions later m)
        (prune-Unique later m u))
      u
serve-Unique c (log_out none) now later m u = u
serve-Unique c (log_out (some token)) now later m u = delete-Unique token m u
serve-Unique c (visit none) now later m u = u
serve-Unique c (visit (some token)) now later m u =
    by_test (λ b m'. Unique m') (is_open c) true
      (accepts (lookup token (prune_expired_sessions now m)) later) m (prune_expired_sessions now m)
      u (prune-Unique now m u)

run_requests-Unique : (c : WebUi) (rs : List Request) → Unique (run_requests c rs)
run_requests-Unique c [] = tt
run_requests-Unique c (r ∷ rs) =
    serve-Unique c r.action r.now r.later (run_requests c rs) (run_requests-Unique c rs)

keep-keep : (t s : ℕ) (o : Option ℕ) → s ≤ t → keep t (keep s o) ≡ keep t o
keep-keep t s none h = refl
keep-keep t s (some e) h = ground arith

-- One request, for sessions that agree with the history up to what has expired.
serve-issued :
    (c : WebUi) (k : Text) (a : Action) (now later t : ℕ) (m : Sessions) (before : Option ℕ)
    → Unique m
    → now ≤ t
    → later ≤ t
    → keep t (lookup k m) ≡ keep t before
    → keep t (lookup k (serve c a now later m)) ≡ keep t (issued_by c k a now before)
unfolding login logout check_auth
serve-issued c k (log_in username password token) now later t m before u hn hl ih =
    by_test
      (λ b m'.
        keep t (lookup k m')
        ≡ keep t
            (if b then if text_eq token k then some (now + session_life) else before else before))
      (text_eq username c.username && text_eq password c.password) 200 401
      (insert token (now + session_life) (prune_expired_sessions later m)) m logged ih
  where
    logged :
        keep t (lookup k (insert token (now + session_life) (prune_expired_sessions later m)))
        ≡ keep t (if text_eq token k then some (now + session_life) else before)
    logged =
        rw
          (
            lookup-insert token k (now + session_life) (prune_expired_sessions later m),
            prune-lookup later k m u,
          )
          (elim (Bool-cases (text_eq token k)) [
            | inl same ↦ rw same refl
            | inr other ↦ rw other (keep-keep t later (lookup k m) hl ∙ ih)
          ])
serve-issued c k (log_out none) now later t m before u hn hl ih = ih
serve-issued c k (log_out (some token)) now later t m before u hn hl ih =
    rw (lookup-delete token k m)
      (elim (Bool-cases (text_eq token k)) [ inl same ↦ rw same refl | inr other ↦ rw other ih ])
serve-issued c k (visit none) now later t m before u hn hl ih = ih
serve-issued c k (visit (some token)) now later t m before u hn hl ih =
    by_test (λ b m'. keep t (lookup k m') ≡ keep t before) (is_open c) true
      (accepts (lookup token (prune_expired_sessions now m)) later) m (prune_expired_sessions now m)
      ih (ap (keep t) (prune-lookup now k m u) ∙ keep-keep t now (lookup k m) hn ∙ ih)

Before-later : (s t : ℕ) (rs : List Request) → s ≤ t → Before s rs → Before t rs
Before-later s t [] h b = tt
Before-later s t (r ∷ rs) h b = (omega (arith, b.0), b.1, b.2)

run_requests-issued :
    (c : WebUi) (k : Text) (t : ℕ) (rs : List Request)
    → Before t rs
    → keep t (lookup k (run_requests c rs)) ≡ keep t (issued c k rs)
unfolding lookup
run_requests-issued c k t [] b = refl
run_requests-issued c k t (r ∷ rs) b =
    serve-issued c k r.action r.now r.later t (run_requests c rs) (issued c k rs)
      (run_requests-Unique c rs) (omega (arith, b.0, b.1)) b.0
      (run_requests-issued c k t rs (Before-later r.now t rs (omega (arith, b.0, b.1)) b.2))

accepts-keep :
    (now later : ℕ) (o : Option ℕ) → now ≤ later → accepts (keep now o) later ≡ accepts o later
accepts-keep now later none h = refl
accepts-keep now later (some e) h = ground arith

-- With a user name and a password configured, and a clock that rises along the requests: checkAuth
-- accepts a token exactly if the newest login or logout that concerned this token was a login with
-- the configured user name and password, less than 24 hours before the second reading of the clock.
pub check_auth-issued :
    (c : WebUi) (token : Text) (rs : List Request) (now later : ℕ)
    → is_open c ≡ false
    → Before now rs
    → now ≤ later
    → (check_auth c (some token) now later (run_requests c rs)).0
      ≡ accepts (issued c token rs) later
unfolding check_auth
check_auth-issued c token rs now later closed b h =
    rw (closed, prune-lookup now token (run_requests c rs) (run_requests-Unique c rs))
      (ap (λ o. accepts o later) (run_requests-issued c token now rs b)
        ∙ accepts-keep now later (issued c token rs) h)
