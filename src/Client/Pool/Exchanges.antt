-- ===== src/Client/Pool/Exchanges.antt =====
-- internal/client/tcp.go: what one exchange does to the connections.
use dns_automatic_traffic_sp.Base.{
  ℕ, ◌+◌, ◌-◌, ◌≤◌, ◌≡◌, refl, Bool, true, false, inl, inr, Option, none, some, ◌==◌, if◌then◌else◌,
  arith,
}
use dns_automatic_traffic_sp.Base.Handles.{count, holds, count-remove}
use dns_automatic_traffic_sp.Dns.{Msg}
use dns_automatic_traffic_sp.Base.Text.{codes}
use dns_automatic_traffic_sp.Client.{Error, client_error, IsDefinite}
use dns_automatic_traffic_sp.Client.Pool.{
  Pool, Script, close_conn, open_conn, Exchanged, dropped, on_read, on_redial, on_conn, on_dial,
  exchange,
}

-- A connection is open once at most, and the next one is new.
abbrev pub IsFresh : Pool → Type 0
IsFresh p = (k : ℕ) → (count k p.live ≤ 1) × (p.next ≤ k → count k p.live ≡ 0)

-- What an exchange that begins with a slot changes: the connections, of which the slot's may be
-- replaced.
abbrev pub Kept : Pool → Option ℕ → Exchanged → Type 0
Kept p o (reply, o', p') =
    (p' ≡ record p { live = p'.live; next = p'.next })
    × ((k c : ℕ) → count k p.live ≡ c + holds k o → count k p'.live ≡ c + holds k o')
    × (IsFresh p → IsFresh p')
    × IsDefinite reply

pub close_conn-count :
    (o : Option ℕ) (p : Pool) (k : ℕ) → count k (close_conn o p).live ≡ count k p.live - holds k o
close_conn-count none p k = omega arith
close_conn-count (some n) p k = count-remove k n p.live

pub close_conn-IsFresh : (o : Option ℕ) (p : Pool) → IsFresh p → IsFresh (close_conn o p)
close_conn-IsFresh none p f = f
close_conn-IsFresh (some n) p f = λ k. (
  omega (arith, (f k).0, close_conn-count (some n) p k),
  λ h. omega (arith, (f k).1 h, close_conn-count (some n) p k),
)

open_conn-IsFresh : (p : Pool) → IsFresh p → IsFresh (open_conn p)
open_conn-IsFresh p f = λ k. (ground (arith, f k), λ h. ground (arith, (f k).1, h))

dropped-Kept : (e : Error) (n : ℕ) (p : Pool) → Kept p (some n) (dropped e n p)
dropped-Kept e n p = (
  refl,
  λ k c h. omega (arith, close_conn-count (some n) p k, h),
  close_conn-IsFresh (some n) p,
  inr (e, refl, refl),
)

on_read-Kept :
    (req : Msg) (n : ℕ) (read : Option Msg) (p : Pool) → Kept p (some n) (on_read req n read p)
on_read-Kept req n none p = dropped-Kept _ n p
on_read-Kept req n (some resp) p = by_id (resp.id == req.id)
  where
    by_id :
        (same : Bool)
        → Kept p (some n) (
            if same
            then (record { resp = some resp; err = none }, some n, p)
            else dropped (client_error (codes "ID mismatch")) n p)
    by_id true = (refl, λ k c h. h, λ f. f, inl (resp, refl, refl))
    by_id false = dropped-Kept _ n p

-- A new connection, and what is done with it.
opened-Kept : (p : Pool) (r : Exchanged) → Kept (open_conn p) (some p.next) r → Kept p none r
opened-Kept p (reply, o', p') (same, counts, fresh, definite) =
    (same, λ k c h. counts k c (ground (arith, h)), λ f. fresh (open_conn-IsFresh p f), definite)

closed-Kept :
    (n : ℕ) (p : Pool) (r : Exchanged) → Kept (close_conn (some n) p) none r → Kept p (some n) r
closed-Kept n p (reply, o', p') (same, counts, fresh, definite) = (
  same,
  λ k c h. counts k c (omega (arith, close_conn-count (some n) p k, h)),
  λ f. fresh (close_conn-IsFresh (some n) p f),
  definite,
)

on_redial-Kept :
    (req : Msg) (s : Script) (o : Option Error) (p : Pool) → Kept p none (on_redial req s o p)
on_redial-Kept req s (some e) p = (refl, λ k c h. h, λ f. f, inr (_, refl, refl))
on_redial-Kept req s none p = opened-Kept p _ (by_write s.rewrite)
  where
    by_write :
        (ok : Bool)
        → Kept (open_conn p) (some p.next) (
            if ok
            then on_read req p.next s.read (open_conn p)
            else dropped (client_error (codes "write")) p.next (open_conn p))
    by_write true = on_read-Kept req p.next s.read (open_conn p)
    by_write false = dropped-Kept _ p.next (open_conn p)

on_conn-Kept : (req : Msg) (s : Script) (n : ℕ) (p : Pool) → Kept p (some n) (on_conn req s n p)
on_conn-Kept req s n p = by_write s.write
  where
    by_write :
        (ok : Bool)
        → Kept p (some n) (
            if ok then on_read req n s.read p else on_redial req s s.redial (close_conn (some n) p))
    by_write true = on_read-Kept req n s.read p
    by_write false = closed-Kept n p _ (on_redial-Kept req s s.redial (close_conn (some n) p))

pub exchange-Kept :
    (req : Msg) (s : Script) (o : Option ℕ) (p : Pool) → Kept p o (exchange req s o p)
unfolding exchange
exchange-Kept req s (some n) p = on_conn-Kept req s n p
exchange-Kept req s none p = by_dial s.dial
  where
    by_dial : (o : Option Error) → Kept p none (on_dial req s o p)
    by_dial (some e) = (refl, λ k c h. h, λ f. f, inr (e, refl, refl))
    by_dial none = opened-Kept p _ (on_conn-Kept req s p.next (open_conn p))
