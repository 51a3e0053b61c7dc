-- ===== src/Web.antt =====
-- internal/web/server.go: the sessions of the web console, with checkAuth and the handlers of
-- /api/login and /api/logout. A time is a number of seconds. A request carries the readings of the
-- clock that the source takes, in their order, and the token that newSessionToken draws for it. The
-- other headers of a response, HTTP and JSON are left out.
pub mod Accepted
use dns_automatic_traffic_sp.Base.{
  ℕ, ◌+◌, Bool, true, false, ◌&&◌, ◌||◌, Option, none, some, List, [], ◌∷◌, if◌then◌else◌, ltb,
}
use dns_automatic_traffic_sp.Base.Text.{Text, text_eq, is_empty}
use dns_automatic_traffic_sp.Settings.{WebUi}
use dns_automatic_traffic_sp.Base.Maps.{Map, lookup, insert, delete}

-- The expiry of each session.
abbrev pub Sessions : Type 0
Sessions = Map ℕ

-- 24 hours
abbrev pub session_life : ℕ
session_life = 86400

-- pruneExpiredSessionsLocked
unfoldable pub prune_expired_sessions : ℕ → Sessions → Sessions
prune_expired_sessions now [] = []
prune_expired_sessions now ((token, expiry) ∷ m) =
    let rest = prune_expired_sessions now m in
    if ltb expiry now then rest else (token, expiry) ∷ rest

abbrev pub is_open : WebUi → Bool
is_open c = is_empty c.username || is_empty c.password

-- `ok && time.Now().Before(expiry)`
abbrev pub accepts : Option ℕ → ℕ → Bool
accepts none later = false
accepts (some expiry) later = ltb later expiry

-- checkAuth on the cookie's token: whether the request is let through, and the sessions behind it.
unfoldable pub check_auth : WebUi → Option Text → ℕ → ℕ → Sessions → Bool × Sessions
unfolding prune_expired_sessions
check_auth c none now later m = (is_open c, m)
check_auth c (some token) now later m =
    if is_open c
    then (true, m)
    else let m' = prune_expired_sessions now m in (accepts (lookup token m') later, m')

-- The handler of /api/login behind the decoding: the status code, and the sessions.
unfoldable pub login : WebUi → Text → Text → Text → ℕ → ℕ → Sessions → ℕ × Sessions
unfolding prune_expired_sessions
login c username password token now later m =
    if text_eq username c.username && text_eq password c.password
    then (200, insert token (now + session_life) (prune_expired_sessions later m))
    else (401, m)

-- The handler of /api/logout.
unfoldable pub logout : Option Text → Sessions → Sessions
logout none m = m
logout (some token) m = delete token m
