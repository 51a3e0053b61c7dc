-- ===== src/Bootstrap/Sources.antt =====
-- internal/resolver/bootstrap.go: what the resolutions, from their start to their end, keep.
use dns_automatic_traffic_sp.Base.{
  ℕ, ◌+◌, ◌<◌, ◌≡◌, refl, sym, ap, ◌∙◌, subst, inl, inr, Bool, Bool-cases, Option, none, some,
  if◌then◌else◌, ◌==◌, ==_iff, arith,
}
use dns_automatic_traffic_sp.Base.Text.{Text, text_eq, text_eq_iff}
use dns_automatic_traffic_sp.Base.Maps.{Map, lookup, insert, delete, lookup-delete}
use dns_automatic_traffic_sp.Bootstrap.{Lookup, found, not_found}
use dns_automatic_traffic_sp.Bootstrap.Flights.{
  Entry, Flight, Waiter, Bootstrapper, at_key, join, remember, cache_ttl,
}
use dns_automatic_traffic_sp.Bootstrap.Sound.{
  at_key_lem, some_inj, insert_same, insert_other, at_key_same, Known, Gave, IsSound, fly-IsSound,
}

lookup-deleted {ℓ} :
    {A : Type ℓ} (k j : Text) (m : Map A) (x : A)
    → lookup j (delete k m) ≡ some x
    → lookup j m ≡ some x
lookup-deleted k j m x h = ground (arith, lookup-delete k j m, h)

module _ (is_ip : Text → Bool) (gives : Text → ℕ → Lookup) where
  -- A new resolution, of a host that has none.
  abbrev launched : Text → Bootstrapper → Bootstrapper
  launched host b = record b {
    next = b.next + 1;
    pending = insert host b.next b.pending;
    flights = at_key b.next (some (record { host = host; outcome = none })) b.flights;
  }

  launched-IsSound :
      (host : Text) (b : Bootstrapper)
      → IsSound is_ip gives b
      → lookup host b.pending ≡ none
      → IsSound is_ip gives (launched host b)
  launched-IsSound host b v free = record {
    cached = v.cached;
    stale = v.stale;
    landed = λ i f l h q. elim (at_key_lem b.next i new (some f) b.flights h) [
      | inl (p, r) ↦ cc (ap (λ (x : Flight). x.outcome) (some_inj r) ∙ q)
      | inr r ↦ v.landed i f l r q
    ];
    joined = λ c w i h q. let (f, there, same) = v.joined c w i h q in (f, kept i f there, same);
    pending = λ other i h. elim (Bool-cases (text_eq host other)) [
      | inl eq ↦ (
        record { host = host; outcome = none },
        at_key_same b.next i new b.flights
            (some_inj (sym (insert_same host other b.next b.pending eq) ∙ h)),
        (text_eq_iff host other).0 eq,
      )
      | inr neq ↦
          let (f, there, same) =
            v.pending other i (sym (insert_other host other b.next b.pending neq) ∙ h) in
          (f, kept i f there, same)
    ];
    single = λ i f h q. elim (at_key_lem b.next i new (some f) b.flights h) [
      | inl (p, r) ↦
          insert_same host f.host b.next b.pending
            ((text_eq_iff host f.host).1 (ap (λ (x : Flight). x.host) (some_inj r)))
          ∙ ap some p
      | inr r ↦ elim (Bool-cases (text_eq host f.host)) [
        | inl eq ↦
            cc (
              free,
              ap (λ t. lookup t b.pending) ((text_eq_iff host f.host).0 eq),
              v.single i f r q,
            )
        | inr neq ↦ insert_other host f.host b.next b.pending neq ∙ v.single i f r q
      ]
    ];
    numbered = λ i f h. elim (at_key_lem b.next i new (some f) b.flights h) [
      | inl (p, r) ↦ omega (arith, p)
      | inr r ↦ omega (arith, v.numbered i f r)
    ];
  }
    where
      new : Option Flight
      new = some (record { host = host; outcome = none })

      kept : (i : ℕ) (f : Flight) → b.flights i ≡ some f → at_key b.next new b.flights i ≡ some f
      kept i f h = ground (arith, v.numbered i f h, h)

  pub join-IsSound :
      (caller : ℕ) (w : Waiter) (o : Option ℕ) (b : Bootstrapper)
      → IsSound is_ip gives b
      → ((e : Entry) → w.stale ≡ some e → Known is_ip gives w.host e)
      → lookup w.host b.pending ≡ o
      → IsSound is_ip gives (join caller w o b)
  unfolding join
  join-IsSound caller w (some i) b v k h =
      let (f, there, same) = v.pending w.host i h in
      fly-IsSound is_ip gives caller i w f b v k there same
  join-IsSound caller w none b v k h =
      fly-IsSound is_ip gives caller b.next w (record { host = w.host; outcome = none })
        (launched w.host b) (launched-IsSound w.host b v h) k
        (at_key_same b.next b.next _ b.flights refl) refl

  -- A resolution ends.
  pub landed-IsSound :
      (i : ℕ) (f : Flight) (l : Lookup) (b : Bootstrapper)
      → IsSound is_ip gives b
      → b.flights i ≡ some f
      → Gave is_ip gives f.host l
      → IsSound is_ip gives (record b {
        flights = at_key i (some (record { host = f.host; outcome = some l })) b.flights;
      })
  landed-IsSound i f l b v there gave = record {
    cached = v.cached;
    stale = v.stale;
    landed = λ j g m h q. elim (at_key_lem i j new (some g) b.flights h) [
      | inl (p, r) ↦
          subst (λ (x : Flight). Gave is_ip gives x.host m) (some_inj r)
            (subst (Gave is_ip gives f.host)
              (some_inj (ap (λ (x : Flight). x.outcome) (some_inj r) ∙ q)) gave)
      | inr r ↦ v.landed j g m r q
    ];
    joined = λ c w j h q. let (g, at_j, same) = v.joined c w j h q in kept w.host j g at_j same;
    pending = λ host j h. let (g, at_j, same) = v.pending host j h in kept host j g at_j same;
    single = λ j g h q. elim (at_key_lem i j new (some g) b.flights h) [
      | inl (p, r) ↦ cc (ap (λ (x : Flight). x.outcome) (some_inj r) ∙ q)
      | inr r ↦ v.single j g r q
    ];
    numbered = λ j g h. elim (at_key_lem i j new (some g) b.flights h) [
      | inl (p, r) ↦ subst (λ k. k < b.next) p (v.numbered i f there)
      | inr r ↦ v.numbered j g r
    ];
  }
    where
      new : Option Flight
      new = some (record { host = f.host; outcome = some l })

      kept :
          (host : Text) (j : ℕ) (g : Flight)
          → b.flights j ≡ some g
          → g.host ≡ host
          → (x : Flight) × (at_key i new b.flights j ≡ some x) × (x.host ≡ host)
      kept host j g at_j same = elim (Bool-cases (i == j)) [
        | inl eq ↦
            let ij = (==_iff i j).0 eq in
            let fg = some_inj (sym there ∙ ap b.flights ij ∙ at_j) in
            (
              record { host = f.host; outcome = some l },
              at_key_same i j new b.flights ij,
              ap (λ (x : Flight). x.host) fg ∙ same,
            )
        | inr neq ↦ (g, ap (λ c. if c then new else b.flights j) neq ∙ at_j, same)
      ]

  pub remember-IsSound :
      (host : Text) (l : Lookup) (now : ℕ) (b : Bootstrapper)
      → IsSound is_ip gives b
      → gives host now ≡ l
      → IsSound is_ip gives (remember host l now b)
  remember-IsSound host (not_found e) now b v gave = v
  remember-IsSound host (found ip) now b v gave = record {
    cached = λ other e h. elim (Bool-cases (text_eq host other)) [
      | inl eq ↦
          let same : new ≡ e = some_inj (sym (insert_same host other new b.cache eq) ∙ h) in
          (
            now,
            ap (λ t. gives t now) (sym ((text_eq_iff host other).0 eq))
                ∙ gave
                ∙ ap (λ (x : Entry). found x.ip) same,
            sym (ap (λ (x : Entry). x.expiry) same),
          )
      | inr neq ↦ v.cached other e (sym (insert_other host other new b.cache neq) ∙ h)
    ];
    stale = v.stale;
    landed = v.landed;
    joined = v.joined;
    pending = v.pending;
    single = v.single;
    numbered = v.numbered;
  }
    where
      new : Entry
      new = record { ip = ip; expiry = now + cache_ttl }

  pub evicted-IsSound :
      (host : Text) (b : Bootstrapper)
      → IsSound is_ip gives b
      → IsSound is_ip gives (record b { cache = delete host b.cache })
  evicted-IsSound host b v = record {
    cached = λ other e h. v.cached other e (lookup-deleted host other b.cache e h);
    stale = v.stale;
    landed = v.landed;
    joined = v.joined;
    pending = v.pending;
    single = v.single;
    numbered = v.numbered;
  }

  -- The resolution, which is over, is not in `pending` any more.
  pub forgotten-IsSound :
      (i : ℕ) (f : Flight) (l : Lookup) (b : Bootstrapper)
      → IsSound is_ip gives b
      → b.flights i ≡ some f
      → f.outcome ≡ some l
      → lookup f.host b.pending ≡ some i
      → IsSound is_ip gives (record b { pending = delete f.host b.pending })
  forgotten-IsSound i f l b v there over at_i = record {
    cached = v.cached;
    stale = v.stale;
    landed = v.landed;
    joined = v.joined;
    pending = λ host j h. v.pending host j (lookup-deleted f.host host b.pending j h);
    single = λ j g h q. elim (Bool-cases (text_eq f.host g.host)) [
      | inl eq ↦
          let hosts = (text_eq_iff f.host g.host).0 eq in
          let at_j = ap (λ t. lookup t b.pending) hosts ∙ v.single j g h q in
          let ij = some_inj (sym at_i ∙ at_j) in
          let fg = some_inj (sym there ∙ ap b.flights ij ∙ h) in
          cc (sym over ∙ ap (λ (x : Flight). x.outcome) fg ∙ q)
      | inr neq ↦
          lookup-delete f.host g.host b.pending
          ∙ ap (λ c. if c then none else lookup g.host b.pending) neq
          ∙ v.single j g h q
    ];
    numbered = v.numbered;
  }
