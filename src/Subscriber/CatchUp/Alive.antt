-- ===== src/Subscriber/CatchUp/Alive.antt =====
-- A catch-up from a relay that answers comes to its end.
use multiedge_relay_python.Prelude.{
  ℕ, List, ◌≡◌, Bool, Bool-cases, ap, false, inl, inr, length, ltb, none, refl, suc, sym, ◌+◌, ◌<◌,
  ◌∙◌, arith, length-append, ◌++◌,
}
use multiedge_relay_python.Subscriber.Backlog.{
  above, take, Rising, above-Rising, take-Rising, page_rest,
}
use multiedge_relay_python.Subscriber.{
  Outside, Settings, page_of, CursorStore, Subscriber, fetch_page,
}
use multiedge_relay_python.World.{Response, Wire, response}
use multiedge_relay_python.Models.{ReceivedSignal, SignalMeta, Source}
use multiedge_relay_python.Exec.{ok, Result, raised, unfinished}
use multiedge_relay_python.Subscriber.CatchUp.Complete.{Truthful, catch_up-Caught}
use multiedge_relay_python.Subscriber.Delivery.Whole.{Handing, deliver_page-Ends, Ends}
use multiedge_relay_python.Subscriber.Delivery.Alive.{Commits, Returns, deliver_page-Returns}
use multiedge_relay_python.Subscriber.Delivery.{deliver_page, last_sequence, unsealed}
use multiedge_relay_python.Subscriber.CatchUp.{
  Pages, catch_up, catch_up_page, delivered_next, fetched_next, page_done,
}
use multiedge_relay_python.Subscriber.Answers.{fetch_page-page}
use multiedge_relay_python.Exec.Loop.{Leads, Next, loop_total}
use multiedge_relay_python.Subscriber.Fetches.{fetch_page-Idle}

-- The relay answers every request with the page of its log.
abbrev pub Answers : Outside → Wire → Settings → List ReceivedSignal → Type 0
Answers out wire set log =
    (turn since : ℕ)
    → (reply : Response) × (out.page turn since ≡ response reply)
      × (reply.status ≡ 200)
      × (page_of wire reply.json ≡ ok (take set.page_size (above since log)))

pub Answers-Truthful :
    (out : Outside) (wire : Wire) (set : Settings) (log : List ReceivedSignal)
    → Answers out wire set log
    → Truthful out wire set log
Answers-Truthful out wire set log answers turn since reply rows h fine parsed =
    let (other, same, status, page_is) = answers turn since in cc (h, same, parsed, page_is)

module _ {C : Type 0} (cursors : CursorStore C) (out : Outside) (wire : Wire) (set : Settings)
    (attempts : ℕ) (source : Source) (log : List ReceivedSignal) (first : ℕ)
    (rising : Rising first log) (answers : Answers out wire set log)
    (free : (turn : ℕ) → out.stopped turn ≡ false)
    (callbacks : (turn : ℕ) (r : ReceivedSignal) (meta : SignalMeta)
      → out.callback turn r meta ≡ none)
    (commits : Commits cursors set)
    (opens : (r : ReceivedSignal) → Returns (unsealed set.unsealer r))
    (some_size : 0 < set.page_size) where
  ahead : Pages C → ℕ
  ahead p = length (above p.sub.position log)

  abbrev Falls : ℕ → Next (Pages C) ℕ → Type 0
  Falls m n = Leads (λ q. Unit {0} × (ahead q < m)) (λ r q. Returns r) n

  paged-Falls :
      (p : Pages C) (s : Subscriber C) (rows : List ReceivedSignal) (n : ℕ) (s' : Subscriber C)
      → s.position ≡ p.sub.position
      → rows ≡ take set.page_size (above s.position log)
      → s'.position ≡ last_sequence s.position rows
      → Falls (ahead p) (page_done set.page_size (length rows) (false, n) s')
  unfolding ahead
  paged-Falls p s rows n s' i e moved = elim (Bool-cases (ltb (length rows) set.page_size)) [
    | inl small ↦ rw small (n, refl)
    | inr full ↦
        let whole : rows ++ above s'.position log ≡ above p.sub.position log =
          page_rest first s.position set.page_size s'.position log rows rising e moved
          ∙ ap (λ q. above q log) i in
        let lengths : length rows + length (above s'.position log)
            ≡ length (above p.sub.position log) =
          sym (length-append rows (above s'.position log)) ∙ ap length whole in
        let less : length (above s'.position log) < length (above p.sub.position log) =
          ground (arith, lengths, full, some_size) in
        rw full (tt, less)
  ]

  delivered-Falls :
      (p : Pages C) (s : Subscriber C) (rows : List ReceivedSignal)
      (o : Result (Bool × ℕ) × Subscriber C)
      → s.position ≡ p.sub.position
      → rows ≡ take set.page_size (above s.position log)
      → Returns o.0
      → Ends cursors out set source p.count rows s o
      → Falls (ahead p) (delivered_next cursors out wire set attempts (length rows) p.count o)
  delivered-Falls p s rows (ok b, s') i e (c, same) k =
      let (counted, handed_over) = k b refl in
      rw counted (paged-Falls p s rows (p.count + length rows) s' i e handed_over.position)
  delivered-Falls p s rows (raised x, s') i e (c, same) k = cc
  delivered-Falls p s rows (unfinished, s') i e (c, same) k = cc

  fetched-Falls :
      (p : Pages C) (o : Result (List ReceivedSignal) × Subscriber C)
      → o.1.position ≡ p.sub.position
      → o.0 ≡ ok (take set.page_size (above o.1.position log))
      → Falls (ahead p) (fetched_next cursors out wire set attempts source p.count o)
  fetched-Falls p (ok rows, s) i e =
      let page_is : rows ≡ take set.page_size (above s.position log) = cc e in
      delivered-Falls p s rows (deliver_page cursors out set source rows p.count s) i page_is
        (deliver_page-Returns cursors out set free callbacks commits opens source rows p.count s)
        (deliver_page-Ends cursors out set source rows p.count s free (
          rw page_is (
            take-Rising s.position set.page_size (above s.position log)
              (above-Rising first s.position log rising))))
  fetched-Falls p (raised x, s) i e = cc
  fetched-Falls p (unfinished, s) i e = cc

  page-Falls :
      (p : Pages C) → Falls (ahead p) (catch_up_page cursors out wire set (suc attempts) source p)
  unfolding catch_up_page
  page-Falls p =
      let s = record p.sub { turn = suc p.sub.turn } in
      let i = fetch_page-Idle out wire set (suc attempts) s.position s in
      let (reply, answered, fine, parsed) = answers (suc (suc s.turn)) s.position in
      rw (free p.sub.turn) (
        fetched-Falls p (fetch_page out wire set (suc attempts) s.position s) i.position (
          fetch_page-page out wire set attempts s.position reply _ s (free (suc s.turn)) answered
            fine parsed
          ∙ ap (λ q. ok (take set.page_size (above q log))) (sym i.position)))

  -- Where the relay answers every request with the page of a log of strictly increasing sequences,
  -- no stop is asked for, the callback returns, the cursor store takes every commit and every signal
  -- is opened: with more fuel than the log has signals after the position, a catch-up returns their
  -- number, and it has handed over each one of them, in order, and stands at the last one.
  pub catch_up-Returns :
      (fuel : ℕ) (s₀ : Subscriber C)
      → length (above s₀.position log) < fuel
      → let o = catch_up cursors out wire set (suc attempts) fuel source s₀ in
        (o.0 ≡ ok (length (above s₀.position log)))
        × Handing set source (above s₀.position log) s₀ o.1
  unfolding catch_up ahead
  catch_up-Returns fuel s₀ enough =
      let (n, returned) =
        loop_total ahead (λ p. Unit {0}) (λ r p. Returns r)
          (catch_up_page cursors out wire set (suc attempts) source) (λ p h. page-Falls p) fuel
          (record { count = 0; sub = s₀ }) enough tt in
      let (counted, all) =
        catch_up-Caught cursors out wire set (suc attempts) source log first rising
          (Answers-Truthful out wire set log answers) free s₀ fuel n returned in
      (returned ∙ ap ok counted, all)
