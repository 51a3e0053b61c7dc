-- ===== src/Client/Pool/Conserved.antt =====
-- internal/client/tcp.go: no slot and no connection of the pool is lost.
use dns_automatic_traffic_sp.Base.{
  ℕ, zero, suc, ◌+◌, ◌-◌, ◌≤◌, ◌≡◌, refl, sym, ap, ◌∙◌, Bool, true, false, Option, none, some, List,
  [], ◌∷◌, ◌++◌, ltb, if◌then◌else◌, length, length-append, arith,
}
use dns_automatic_traffic_sp.Base.Handles.{count, holds, count_places}
use dns_automatic_traffic_sp.Dns.{Msg}
use dns_automatic_traffic_sp.Client.Pool.{
  Pool, init_pool, Script, close_conn, exchange, look, put_back, drain, close, pick, Event, taken,
  exchanged, put, shut, on_taken, on_exchanged, on_put, step, run,
}
use dns_automatic_traffic_sp.Client.Pool.Exchanges.{
  IsFresh, close_conn-count, close_conn-IsFresh, exchange-Kept,
}

-- Every open connection is in one slot, or with one query; and the ten slots, or less of them if the
-- pool is closed, are in the channel or with a query.
pub record IsConserved (p : Pool) : Type 0 where
  pub connections :
      (k : ℕ)
      → count k p.live ≡ count_places k p.slots + count_places k p.held + count_places k p.returning
  pub bounded : length p.slots + length p.held + length p.returning ≤ 10
  pub complete : p.closed ≡ false → length p.slots + length p.held + length p.returning ≡ 10
  pub fresh : IsFresh p

-- The place behind the first one.
pick_later :
    (k : ℕ) (x : Option ℕ) (l rest : List (Option ℕ)) (o : Option ℕ)
    (r : Option (Option ℕ × List (Option ℕ)))
    → ((y : Option ℕ) (ys : List (Option ℕ))
        → r ≡ some (y, ys)
        → (count_places k l ≡ count_places k ys + holds k y) × (length l ≡ suc (length ys)))
    → (elim r as (λ _. Option (Option ℕ × List (Option ℕ))) [
      | none ↦ none
      | some (y, ys) ↦ some (y, x ∷ ys)
    ])
      ≡ some (o, rest)
    → (count_places k (x ∷ l) ≡ count_places k rest + holds k o)
      × (length (x ∷ l) ≡ suc (length rest))
pick_later k x l rest o none ih q = cc q
pick_later k x l rest o (some (y, ys)) ih q =
    let (places, long) = ih y ys refl in ground (arith, places, long, q)

pick-places :
    (i k : ℕ) (l rest : List (Option ℕ)) (o : Option ℕ)
    → pick i l ≡ some (o, rest)
    → (count_places k l ≡ count_places k rest + holds k o) × (length l ≡ suc (length rest))
pick-places i k [] rest o h = cc h
pick-places zero k (x ∷ l) rest o h = ground (arith, h)
pick-places (suc i) k (x ∷ l) rest o h =
    pick_later k x l rest o (pick i l) (λ y ys e. pick-places i k l ys y e) h

-- A state in which one slot is on its way.
record IsOpen (o : Option ℕ) (p : Pool) : Type 0 where
  connections :
      (k : ℕ)
      → count k p.live
        ≡ count_places k p.slots + count_places k p.held + count_places k p.returning + holds k o
  bounded : length p.slots + length p.held + length p.returning ≤ 9
  complete : p.closed ≡ false → length p.slots + length p.held + length p.returning ≡ 9
  fresh : IsFresh p

look-IsConserved : (o : Option ℕ) (p : Pool) → IsOpen o p → IsConserved (look o p)
unfolding look
look-IsConserved o p v = by_closed o p.closed refl v
  where
    by_closed :
        (o : Option ℕ) (c : Bool)
        → p.closed ≡ c
        → IsOpen o p
        → IsConserved (
            if c
            then record (close_conn o p) { returning = none ∷ p.returning }
            else record p { returning = o ∷ p.returning })
    by_closed o false e v = record {
      connections = λ k. omega (arith, v.connections k);
      bounded = omega (arith, v.bounded);
      complete = λ h. omega (arith, v.complete h);
      fresh = v.fresh;
    }
    by_closed none true e v = record {
      connections = λ k. omega (arith, v.connections k);
      bounded = omega (arith, v.bounded);
      complete = λ h. omega (arith, v.complete h);
      fresh = v.fresh;
    }
    by_closed (some n) true e v = record {
      connections = λ k. omega (arith, v.connections k, close_conn-count (some n) p k);
      bounded = omega (arith, v.bounded);
      complete = λ h. omega (arith, v.complete h);
      fresh = close_conn-IsFresh (some n) p v.fresh;
    }

places-append :
    (k : ℕ) (l : List (Option ℕ)) (o : Option ℕ)
    → count_places k (l ++ o ∷ []) ≡ count_places k l + holds k o
places-append k [] o = omega arith
places-append k (x ∷ l) o = omega (arith, places-append k l o)

-- The default branch of the select is never taken.
put_back-IsConserved : (o : Option ℕ) (p : Pool) → IsOpen o p → IsConserved (put_back o p)
unfolding put_back
put_back-IsConserved o p v =
    let room : ltb (length p.slots) 10 ≡ true = ground (arith, v.bounded) in
    rw (room) (record {
      connections = λ k. omega (arith, v.connections k, places-append k p.slots o);
      bounded = omega (arith, v.bounded, length-append p.slots (o ∷ []));
      complete = λ h. omega (arith, v.complete h, length-append p.slots (o ∷ []));
      fresh = v.fresh;
    })

drain-live :
    (k : ℕ) (l : List (Option ℕ)) (p : Pool)
    → count k (drain l p).live ≡ count k p.live - count_places k l
drain-live k [] p = omega arith
drain-live k (o ∷ l) p = omega (arith, drain-live k l (close_conn o p), close_conn-count o p k)

drain-IsFresh : (l : List (Option ℕ)) (p : Pool) → IsFresh p → IsFresh (drain l p)
drain-IsFresh [] p f = f
drain-IsFresh (o ∷ l) p f = drain-IsFresh l (close_conn o p) (close_conn-IsFresh o p f)

close_conn-fields :
    (o : Option ℕ) (p : Pool) → close_conn o p ≡ record p { live = (close_conn o p).live }
close_conn-fields none p = refl
close_conn-fields (some n) p = refl

drain-fields : (l : List (Option ℕ)) (p : Pool) → drain l p ≡ record p { live = (drain l p).live }
drain-fields [] p = refl
drain-fields (o ∷ l) p =
    drain-fields l (close_conn o p)
    ∙ ap (λ (x : Pool). record x { live = (drain l (close_conn o p)).live }) (close_conn-fields o p)

close-IsConserved : (p : Pool) → IsConserved p → IsConserved (close p)
unfolding close
close-IsConserved p v =
    let before = record p { closed = true } in
    let after = drain p.slots before in
    let same = drain-fields p.slots before in
    let held : after.held ≡ p.held = ap (λ (x : Pool). x.held) same in
    let returning : after.returning ≡ p.returning = ap (λ (x : Pool). x.returning) same in
    let closed : after.closed ≡ true = ap (λ (x : Pool). x.closed) same in
    record {
      connections = λ k. omega (
        arith,
        v.connections k,
        drain-live k p.slots before,
        ap (count_places k) held,
        ap (count_places k) returning,
      );
      bounded = omega (
        arith,
        v.bounded,
        ap (λ (l : List (Option ℕ)). length l) held,
        ap (λ (l : List (Option ℕ)). length l) returning,
      );
      complete = λ h. cc (h, closed);
      fresh = drain-IsFresh p.slots before v.fresh;
    }

-- One picked from those held, or from those returning, and the rest of the state unchanged.
exchanged-IsConserved :
    (req : Msg) (s : Script) (r : Option (Option ℕ × List (Option ℕ))) (i : ℕ) (p : Pool)
    → pick i p.held ≡ r
    → IsConserved p
    → IsConserved (on_exchanged req s r p)
exchanged-IsConserved req s none i p e v = v
exchanged-IsConserved req s (some (o, rest)) i p e v =
    let (reply, o', p') = exchange req s o p in
    let (same, counts, fresh, definite) = exchange-Kept req s o p in
    let slots : p'.slots ≡ p.slots = ap (λ (x : Pool). x.slots) same in
    let returning : p'.returning ≡ p.returning = ap (λ (x : Pool). x.returning) same in
    let others =
      λ (k : ℕ). count_places k p.slots + count_places k rest + count_places k p.returning in
    look-IsConserved o' (record p' { held = rest })
      (record {
        connections = λ k. omega (
          arith,
          counts k (others k) (omega (arith, v.connections k, (pick-places i k p.held rest o e).0)),
          ap (count_places k) slots,
          ap (count_places k) returning,
        );
        bounded = omega (
          arith,
          v.bounded,
          (pick-places i 0 p.held rest o e).1,
          ap (λ (l : List (Option ℕ)). length l) slots,
          ap (λ (l : List (Option ℕ)). length l) returning,
        );
        complete = λ h. omega (
          arith,
          v.complete (sym (ap (λ (x : Pool). x.closed) same) ∙ h),
          (pick-places i 0 p.held rest o e).1,
          ap (λ (l : List (Option ℕ)). length l) slots,
          ap (λ (l : List (Option ℕ)). length l) returning,
        );
        fresh = fresh v.fresh;
      })

put-IsConserved :
    (r : Option (Option ℕ × List (Option ℕ))) (i : ℕ) (p : Pool)
    → pick i p.returning ≡ r
    → IsConserved p
    → IsConserved (on_put r p)
put-IsConserved none i p e v = v
put-IsConserved (some (o, rest)) i p e v =
    put_back-IsConserved o (record p { returning = rest })
      (record {
        connections = λ k. omega (arith, v.connections k, (pick-places i k p.returning rest o e).0);
        bounded = omega (arith, v.bounded, (pick-places i 0 p.returning rest o e).1);
        complete = λ h. omega (arith, v.complete h, (pick-places i 0 p.returning rest o e).1);
        fresh = v.fresh;
      })

taken-IsConserved :
    (p : Pool) (l : List (Option ℕ)) → p.slots ≡ l → IsConserved p → IsConserved (on_taken l p)
taken-IsConserved p [] e v = v
taken-IsConserved p (o ∷ l) e v = record {
  connections = λ k. omega (arith, v.connections k, ap (count_places k) e);
  bounded = omega (arith, v.bounded, ap (λ (x : List (Option ℕ)). length x) e);
  complete = λ h. omega (arith, v.complete h, ap (λ (x : List (Option ℕ)). length x) e);
  fresh = v.fresh;
}

step-IsConserved : (e : Event) (p : Pool) → IsConserved p → IsConserved (step e p)
unfolding step
step-IsConserved taken p v = taken-IsConserved p p.slots refl v
step-IsConserved (exchanged i req s) p v = exchanged-IsConserved req s (pick i p.held) i p refl v
step-IsConserved (put i) p v = put-IsConserved (pick i p.returning) i p refl v
step-IsConserved shut p v = close-IsConserved p v

events-IsConserved : (es : List Event) (p : Pool) → IsConserved p → IsConserved (run es p)
unfolding run
events-IsConserved [] p v = v
events-IsConserved (e ∷ es) p v = events-IsConserved es (step e p) (step-IsConserved e p v)

-- Whatever queries share the pool, in whatever order they take slots, dial, write, read, fail and put
-- slots back, and whenever it is closed: every open connection is in exactly one slot or with exactly
-- one query, so none is lost and none has two users; and until the pool is closed its ten slots are
-- all there, in the channel or with a query, so a failure never makes the pool smaller.
pub run-IsConserved : (es : List Event) → IsConserved (run es init_pool)
unfolding init_pool
run-IsConserved es = events-IsConserved es init_pool (record {
  connections = λ k. refl;
  bounded = omega arith;
  complete = λ h. refl;
  fresh = λ k. (omega arith, λ h. refl);
})
