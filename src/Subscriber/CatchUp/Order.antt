-- ===== src/Subscriber/CatchUp/Order.antt =====
-- Whatever the relay answers, a catch-up calls back in strictly increasing sequence.
use multiedge_relay_python.Prelude.{
  ℕ, Bool, Bool-cases, List, false, inl, inr, length, ltb, refl, suc, true,
}
use multiedge_relay_python.Exec.Loop.{Leads, Next, loop_rule}
use multiedge_relay_python.Subscriber.CatchUp.{
  Pages, catch_up, catch_up_page, delivered_next, fetched_next, page_done,
}
use multiedge_relay_python.Subscriber.Delivery.{deliver_page}
use multiedge_relay_python.Subscriber.{CursorStore, Outside, Settings, Subscriber, fetch_page}
use multiedge_relay_python.Subscriber.Order.{
  Progress, idle-Progress, then-Progress, with_result, Idle-Progress,
}
use multiedge_relay_python.Exec.{Result, ok, raised, unfinished}
use multiedge_relay_python.Subscriber.Fetches.{fetch_page-Idle}
use multiedge_relay_python.Models.{ReceivedSignal, Source}
use multiedge_relay_python.World.{Wire}
use multiedge_relay_python.Subscriber.Delivery.Order.{deliver_page-Progress}

module _ {C : Type 0} (cursors : CursorStore C) (out : Outside) (wire : Wire) (set : Settings)
    (attempts : ℕ) (s₀ : Subscriber C) where
  abbrev Goes : Next (Pages C) ℕ → Type 0
  Goes n = Leads (λ p. Progress s₀ (ok tt) p.sub) (λ r p. Progress s₀ r p.sub) n

  page_done-Goes :
      (size rows : ℕ) (b : Bool × ℕ) (s s' : Subscriber C)
      → Progress s₀ (ok tt) s
      → Progress s (ok b) s'
      → Goes (page_done size rows b s')
  page_done-Goes size rows (true, n) s s' h k =
      then-Progress tt (ok n) s₀ s s' h (with_result (ok n) k (λ a e. k.settled (true, n) refl))
  page_done-Goes size rows (false, n) s s' h k = elim (Bool-cases (ltb rows size)) [
    | inl last ↦ rw last (
        then-Progress tt (ok n) s₀ s s' h (with_result (ok n) k (λ b e. k.settled (false, n) refl)))
    | inr full ↦ rw full (
        then-Progress tt (ok tt) s₀ s s' h
          (with_result (ok tt) k (λ b e. k.settled (false, n) refl)))
  ]

  delivered-Goes :
      (rows n : ℕ) (o : Result (Bool × ℕ) × Subscriber C) (s : Subscriber C)
      → Progress s₀ (ok tt) s
      → Progress s o.0 o.1
      → Goes (delivered_next cursors out wire set attempts rows n o)
  delivered-Goes rows n (ok b, s') s h k = page_done-Goes set.page_size rows b s s' h k
  delivered-Goes rows n (raised e, s') s h k =
      then-Progress tt (raised e) s₀ s s' h (with_result (raised e) k (λ a e. cc))
  delivered-Goes rows n (unfinished, s') s h k =
      then-Progress tt unfinished s₀ s s' h (with_result unfinished k (λ a e. cc))

  fetched-Goes :
      (source : Source) (n : ℕ) (o : Result (List ReceivedSignal) × Subscriber C) (s : Subscriber C)
      → Progress s₀ (ok tt) s
      → Progress s o.0 o.1
      → Goes (fetched_next cursors out wire set attempts source n o)
  fetched-Goes source n (ok rows, s') s h k =
      delivered-Goes (length rows) n (deliver_page cursors out set source rows n s') s'
        (then-Progress tt (ok tt) s₀ s s' h (with_result (ok tt) k (λ a e. k.settled rows refl)))
        (deliver_page-Progress cursors out set source rows n s')
  fetched-Goes source n (raised e, s') s h k =
      then-Progress tt (raised e) s₀ s s' h (with_result (raised e) k (λ a e. cc))
  fetched-Goes source n (unfinished, s') s h k =
      then-Progress tt unfinished s₀ s s' h (with_result unfinished k (λ a e. cc))

  page-Goes :
      (source : Source) (p : Pages C)
      → Progress s₀ (ok tt) p.sub
      → Goes (catch_up_page cursors out wire set attempts source p)
  unfolding catch_up_page
  page-Goes source p h =
      let s = record p.sub { turn = suc p.sub.turn } in
      elim (Bool-cases (out.stopped p.sub.turn)) [
        | inl halted ↦
            rw halted (then-Progress tt _ s₀ p.sub s h (idle-Progress _ p.sub s refl refl))
        | inr goes_on ↦ rw goes_on (
            fetched-Goes source p.count (fetch_page out wire set attempts s.position s) s
              (then-Progress tt _ s₀ p.sub s h (idle-Progress (ok tt) p.sub s refl refl))
              (Idle-Progress _ s _ (fetch_page-Idle out wire set attempts s.position s)))
      ]

  -- Whatever the relay, the callback, the clocks and the cursor store answer, and however a catch-up
  -- ends: its callbacks have strictly increasing sequences above the old position; each one is
  -- followed by the commit of its own sequence before the next; the position is that of the last
  -- callback that returned; and where the catch-up returns, every callback's sequence is committed.
  pub catch_up-Progress :
      (fuel : ℕ) (source : Source)
      → Progress s₀
          (catch_up cursors out wire set attempts fuel source s₀).0
          (catch_up cursors out wire set attempts fuel source s₀).1
  unfolding catch_up
  catch_up-Progress fuel source =
      loop_rule (λ p. Progress s₀ (ok tt) p.sub) (λ r p. Progress s₀ r p.sub)
        (catch_up_page cursors out wire set attempts source) (page-Goes source)
        (λ p h.
          then-Progress tt unfinished s₀ p.sub p.sub h
            (idle-Progress unfinished p.sub p.sub refl refl))
        fuel (record { count = 0; sub = s₀ }) (idle-Progress (ok tt) s₀ s₀ refl refl)
