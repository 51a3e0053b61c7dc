-- ===== src/Bootstrap/Sound.antt =====
-- What holds of the state of LookupIP between its steps, and what a change of a caller keeps of it.
use dns_automatic_traffic_sp.Base.{
  ℕ, ◌+◌, ◌<◌, ◌≡◌, sym, ap, ◌∙◌, subst, ◌⊎◌, inl, inr, Bool, true, false, Option, none, some,
  if◌then◌else◌, arith,
}
use dns_automatic_traffic_sp.Base.Text.{Text, text_eq}
use dns_automatic_traffic_sp.Base.Maps.{Map, lookup, insert, lookup-insert}
use dns_automatic_traffic_sp.Client.{Error}
use dns_automatic_traffic_sp.Bootstrap.{Lookup, found, not_found}
use dns_automatic_traffic_sp.Bootstrap.Flights.{
  Entry, Flight, Waiter, Bootstrapper, idle_bootstrapper, Answer, at_key, wait, fly, left,
}

pub at_key_lem {ℓ} :
    {A : Type ℓ} (k i : ℕ) (v x : A) (f : ℕ → A)
    → at_key k v f i ≡ x
    → ((k ≡ i) × (v ≡ x)) ⊎ (f i ≡ x)
at_key_lem k i v x f h = ground (arith, h)

pub some_inj {ℓ} : {A : Type ℓ} {x y : A} → some x ≡ some y → x ≡ y
some_inj h = cc h

pub insert_same {ℓ} :
    {A : Type ℓ} (k j : Text) (v : A) (m : Map A)
    → text_eq k j ≡ true
    → lookup j (insert k v m) ≡ some v
insert_same k j v m e = lookup-insert k j v m ∙ ap (λ c. if c then some v else lookup j m) e

pub insert_other {ℓ} :
    {A : Type ℓ} (k j : Text) (v : A) (m : Map A)
    → text_eq k j ≡ false
    → lookup j (insert k v m) ≡ lookup j m
insert_other k j v m e = lookup-insert k j v m ∙ ap (λ c. if c then some v else lookup j m) e

pub at_key_same {ℓ} : {A : Type ℓ} (k i : ℕ) (v : A) (f : ℕ → A) → k ≡ i → at_key k v f i ≡ v
at_key_same k i v f e = ground (arith, e)

module _ (is_ip : Text → Bool) (gives : Text → ℕ → Lookup) where
  -- An entry of the cache is what a resolution of its host gave.
  abbrev pub Known : Text → Entry → Type 0
  Known host e = (t : ℕ) × (gives host t ≡ found e.ip) × (e.expiry ≡ t + 300)

  abbrev pub Gave : Text → Lookup → Type 0
  Gave host l = (t : ℕ) × (gives host t ≡ l)

  -- The host itself, what a resolution of this host gave that the caller waited for, what one gave
  -- less than an hour and five minutes ago, or an error.
  pub data Sourced (a : Answer) : Type 0 where
    literal : is_ip a.host ≡ true → a.result ≡ found a.host → Sourced a
    waited_for : Gave a.host a.result → Sourced a
    cached : (t : ℕ) → gives a.host t ≡ a.result → a.time < t + 3900 → Sourced a
    refused : (e : Error) → a.result ≡ not_found e → Sourced a

  pub record IsSound (b : Bootstrapper) : Type 0 where
    pub cached : (host : Text) (e : Entry) → lookup host b.cache ≡ some e → Known host e
    pub stale :
        (c : ℕ) (w : Waiter) (e : Entry) → b.waiters c ≡ some w → w.stale ≡ some e → Known w.host e
    pub landed :
        (i : ℕ) (f : Flight) (l : Lookup)
        → b.flights i ≡ some f
        → f.outcome ≡ some l
        → Gave f.host l
    pub joined :
        (c : ℕ) (w : Waiter) (i : ℕ)
        → b.waiters c ≡ some w
        → w.flight ≡ some i
        → (f : Flight) × (b.flights i ≡ some f) × (f.host ≡ w.host)
    pub pending :
        (host : Text) (i : ℕ)
        → lookup host b.pending ≡ some i
        → (f : Flight) × (b.flights i ≡ some f) × (f.host ≡ host)
    pub single :
        (i : ℕ) (f : Flight)
        → b.flights i ≡ some f
        → f.outcome ≡ none
        → lookup f.host b.pending ≡ some i
    pub numbered : (i : ℕ) (f : Flight) → b.flights i ≡ some f → i < b.next

  pub idle-IsSound : IsSound idle_bootstrapper
  unfolding lookup
  idle-IsSound = record {
    cached = λ host e h. cc h;
    stale = λ c w e h k. cc h;
    landed = λ i f l h k. cc h;
    joined = λ c w i h k. cc h;
    pending = λ host i h. cc h;
    single = λ i f h k. cc h;
    numbered = λ i f h. cc h;
  }

  -- The waiter of a caller changes.
  pub seat-IsSound :
      (caller : ℕ) (o : Option Waiter) (b : Bootstrapper)
      → IsSound b
      → ((w : Waiter) (e : Entry) → o ≡ some w → w.stale ≡ some e → Known w.host e)
      → ((w : Waiter) (i : ℕ)
          → o ≡ some w
          → w.flight ≡ some i
          → (f : Flight) × (b.flights i ≡ some f) × (f.host ≡ w.host))
      → IsSound (record b { waiters = at_key caller o b.waiters })
  seat-IsSound caller o b v known seated = record {
    cached = v.cached;
    stale = λ c w e h q. elim (at_key_lem caller c o (some w) b.waiters h) [
      | inl (p, r) ↦ known w e r q
      | inr r ↦ v.stale c w e r q
    ];
    landed = v.landed;
    joined = λ c w i h q. elim (at_key_lem caller c o (some w) b.waiters h) [
      | inl (p, r) ↦ seated w i r q
      | inr r ↦ v.joined c w i r q
    ];
    pending = v.pending;
    single = v.single;
    numbered = v.numbered;
  }

  pub left-IsSound : (caller : ℕ) (b : Bootstrapper) → IsSound b → IsSound (left caller b)
  left-IsSound caller b v = seat-IsSound caller none b v (λ w e h q. cc h) (λ w i h q. cc h)

  pub wait-IsSound :
      (caller : ℕ) (host : Text) (s : Option Entry) (b : Bootstrapper)
      → IsSound b
      → ((e : Entry) → s ≡ some e → Known host e)
      → IsSound (wait caller host s b)
  wait-IsSound caller host s b v k =
      seat-IsSound caller _ b v
        (λ w e h q.
          subst (λ t. Known t e) (ap (λ (x : Waiter). x.host) (some_inj h))
            (k e (ap (λ (x : Waiter). x.stale) (some_inj h) ∙ q)))
        (λ w i h q. cc (ap (λ (x : Waiter). x.flight) (some_inj h) ∙ q))

  pub fly-IsSound :
      (caller i : ℕ) (w : Waiter) (f : Flight) (b : Bootstrapper)
      → IsSound b
      → ((e : Entry) → w.stale ≡ some e → Known w.host e)
      → b.flights i ≡ some f
      → f.host ≡ w.host
      → IsSound (fly caller w i b)
  fly-IsSound caller i w f b v k there same =
      seat-IsSound caller _ b v
        (λ x e h q.
          subst (λ t. Known t e) (ap (λ (y : Waiter). y.host) (some_inj h))
            (k e (ap (λ (y : Waiter). y.stale) (some_inj h) ∙ q)))
        (λ x j h q. (
          f,
          ap b.flights (some_inj (sym q ∙ sym (ap (λ (y : Waiter). y.flight) (some_inj h))))
              ∙ there,
          same ∙ ap (λ (y : Waiter). y.host) (some_inj h),
        ))
