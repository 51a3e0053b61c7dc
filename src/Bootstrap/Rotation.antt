-- ===== src/Bootstrap/Rotation.antt =====
-- The rotation over the bootstrap servers asks each of them before it gives up.
use dns_automatic_traffic_sp.Base.{
  ◌*◌, ℕ, zero, suc, ◌+◌, ◌-◌, ◌%◌, ◌^◌, ◌≤◌, ◌<◌, ◌≡◌, refl, sym, ap, ◌∙◌, Option, none, some,
  List, [], ◌∷◌, length, get_elem?, arith, ◌⊎◌, inl, inr, subst,
}
use dns_automatic_traffic_sp.Base.Text.{Text}
use dns_automatic_traffic_sp.Client.{Error}
use dns_automatic_traffic_sp.Bootstrap.{
  Timed, allowed, server_budget, lookup_budget, BootstrapServer, Lookup, found, not_found,
  Addresses, or_next, ask_at, ask_server, ask_from, lookup_with_retry,
}
use native.Mathlib.Nat.{mod-lt, mod-add-mod, mod-eq_of_lt, mod-le, add-mod_right}

-- The residues of `n` numbers in a row.
mod_cover : (n s j : ℕ) → j < n → (i : ℕ) × (i < n) × ((s + i) % n ≡ j)
mod_cover n s j h = elim (le-or-gt (s % n) j) [
  | inl le ↦ (
    j - s % n,
    omega (arith, h),
    sym (mod-add-mod s n (j - s % n)) ∙ ap (λ a. a % n) (omega (arith, le)) ∙ mod-eq_of_lt h,
  )
  | inr gt ↦ (
    j + n - s % n,
    omega (arith, gt, h),
    sym (mod-add-mod s n (j + n - s % n))
        ∙ ap (λ a. a % n) (below n s j h)
        ∙ add-mod_right j n
        ∙ mod-eq_of_lt h,
  )
]
  where
    below : (n s j : ℕ) → j < n → s % n + (j + n - s % n) ≡ j + n
    below n s j h = omega (arith, mod-lt s (positive n j h))
      where
        positive : (n j : ℕ) → j < n → 0 < n
        positive n j h = omega (arith, h)

    le-or-gt : (a b : ℕ) → (a ≤ b) ⊎ (b < a)
    le-or-gt a b = ground arith

get_elem?-lt :
    (servers : List BootstrapServer) (j : ℕ) (s : BootstrapServer)
    → get_elem? servers j ≡ some s
    → j < length servers
get_elem?-lt [] j s h = cc h
get_elem?-lt (t ∷ ts) zero s h = omega arith
get_elem?-lt (t ∷ ts) (suc j) s h = omega (arith, get_elem?-lt ts j s h)

next_at :
    (at i left : ℕ) → at + suc left ≤ 2 ^ 64 → suc i < suc left → at + suc i ≡ (at + 1) % 2 ^ 64 + i
next_at at i left fits lt = omega (arith, mod-eq_of_lt (below at i left fits lt))
  where
    below : (at i left : ℕ) → at + suc left ≤ 2 ^ 64 → suc i < suc left → at + 1 < 2 ^ 64
    below at i left fits lt = omega (arith, fits, lt)

module _ (query : BootstrapServer → Text → ℕ → Timed) (query_default : Text → Addresses)
    (in_time : (s : BootstrapServer) (host : Text) (budget : ℕ)
      → (query s host budget).1 ≤ budget) where
  abbrev Gives : Lookup → Type 0
  Gives l = (ip : Text) × (l ≡ found ip)

  or_next-Gives :
      (l : Lookup) (next : Error → Lookup)
      → Gives l ⊎ ((e : Error) → Gives (next e))
      → Gives (or_next l next)
  or_next-Gives (found ip) next h = (ip, refl)
  or_next-Gives (not_found e) next (inl (ip, h)) = cc h
  or_next-Gives (not_found e) next (inr h) = h e

  -- The server at a place finds an address in its full time.
  abbrev Answers : List BootstrapServer → Text → ℕ → Type 0
  Answers servers host k =
      Gives
        (ask_at query query_default (get_elem? servers (k % length servers)) host server_budget).0

  ask_at-taken :
      (o : Option BootstrapServer) (host : Text) (time : ℕ)
      → (ask_at query query_default o host (allowed time)).1 ≤ server_budget
  unfolding ask_server
  ask_at-taken none host time = omega arith
  ask_at-taken (some s) host time = ground (arith, in_time s host (allowed time))

  ask_from-Gives :
      (servers : List BootstrapServer) (host : Text) (time i at left : ℕ) (last : Option Error)
      → at + left ≤ 2 ^ 64
      → i < left
      → server_budget * (i + 1) ≤ time
      → Answers servers host (at + i)
      → Gives (ask_from query query_default servers host time at left last)
  unfolding ask_from
  ask_from-Gives servers host time i at zero last fits lt enough h = absurd (omega (arith, lt))
  ask_from-Gives servers host time zero at (suc left) last fits lt enough h = or_next-Gives _ _ (
      inl (
        subst
          (λ b.
            Gives (ask_at query query_default (get_elem? servers (at % length servers)) host b).0)
          (ground (arith, enough)) (subst (Answers servers host) (omega arith) h)))
  ask_from-Gives servers host time (suc i) at (suc left) last fits lt enough h =
      let o = get_elem? servers (at % length servers) in
      let taken = (ask_at query query_default o host (allowed time)).1 in
      or_next-Gives _ _ (
        inr (λ e.
          ask_from-Gives servers host (time - taken) i ((at + 1) % 2 ^ 64) left (some e)
            (omega (arith, fits, mod-le (at + 1) (2 ^ 64))) (omega (arith, lt))
            (omega (arith, enough, ask_at-taken o host time))
            (subst (Answers servers host) (next_at at i left fits lt) h)))

  -- Up to three bootstrap servers, as many as have their full four seconds in the fifteen of a lookup,
  -- where a query takes no longer than it is given: if any of them finds an address for a host when
  -- it is given four seconds, lookupWithRetry finds one, whichever server it begins with and however
  -- the others fail before. The counter's 64 bits must not be used up: where they wrap around, a
  -- server may be skipped.
  pub lookup_with_retry-found :
      (servers : List BootstrapServer) (counter : ℕ) (host ip : Text) (j : ℕ) (s : BootstrapServer)
      → length servers ≤ 3
      → counter + 1 + length servers ≤ 2 ^ 64
      → get_elem? servers j ≡ some s
      → (ask_server query query_default s host server_budget).0 ≡ found ip
      → (ip' : Text) × ((lookup_with_retry query query_default servers lookup_budget counter host).0
          ≡ found ip')
  unfolding lookup_with_retry
  lookup_with_retry-found [] counter host ip j s few fits at_j h = cc at_j
  lookup_with_retry-found (t ∷ ts) counter host ip j s few fits at_j h =
      let start = (counter + 1) % 2 ^ 64 in
      let (i, lt, e) = mod_cover (length (t ∷ ts)) start j (get_elem?-lt (t ∷ ts) j s at_j) in
      ask_from-Gives (t ∷ ts) host lookup_budget i start (length (t ∷ ts)) none
        (omega (arith, fits, mod-le (counter + 1) (2 ^ 64))) lt (omega (arith, few, lt))
        (
          ip,
          ap (λ k. (ask_at query query_default (get_elem? (t ∷ ts) k) host server_budget).0) e
              ∙ ap (λ o. (ask_at query query_default o host server_budget).0) at_j
              ∙ h,
        )
