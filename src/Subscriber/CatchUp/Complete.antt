-- ===== src/Subscriber/CatchUp/Complete.antt =====
-- A catch-up that returns has handed over all that the relay's log holds after the position.
use multiedge_relay_python.Prelude.{
  ℕ, List, [], ap, append_assoc, arith, length, length-append, refl, sym, ◌++◌, ◌+◌, ◌∙◌, ◌∷◌, ◌≡◌,
  subst, ◌<◌, Bool, Bool-cases, false, inl, inr, ltb, ltb→lt, suc, append-nil,
}
use multiedge_relay_python.Exec.{ok, Result, raised, unfinished}
use multiedge_relay_python.Subscriber.{
  Outside, Settings, Subscriber, page_of, CursorStore, fetch_page,
}
use multiedge_relay_python.Models.{ReceivedSignal, Source}
use multiedge_relay_python.World.{Response, Wire, response}
use multiedge_relay_python.Subscriber.Delivery.Whole.{
  Handing, Idle-doings, doings, handed, handed-append, Ends, deliver_page-Ends,
}
use multiedge_relay_python.Subscriber.Backlog.{
  Rising, above, take, take_short, above-Rising, take-Rising, page_rest,
}
use multiedge_relay_python.Subscriber.Idle.{Idle, Idle-trans, Idle-turn}
use multiedge_relay_python.Subscriber.Delivery.{last_sequence, deliver_page}
use multiedge_relay_python.Subscriber.CatchUp.{
  Pages, catch_up, catch_up_page, delivered_next, fetched_next, page_done,
}
use multiedge_relay_python.Subscriber.Answers.{Honest, fetch_page-Honest}
use multiedge_relay_python.Exec.Loop.{Leads, Next, loop_rule}
use multiedge_relay_python.Subscriber.Fetches.{fetch_page-Idle}

-- Every answered page is the log after the asked sequence, cut off at the size of a page.
abbrev pub Truthful : Outside → Wire → Settings → List ReceivedSignal → Type 0
Truthful out wire set log =
    (turn since : ℕ) (reply : Response) (rows : List ReceivedSignal)
    → out.page turn since ≡ response reply
    → reply.status ≡ 200
    → page_of wire reply.json ≡ ok rows
    → rows ≡ take set.page_size (above since log)

-- How much of the log a catch-up from `s₀` has handed over.
pub record Reached {C : Type 0} (set : Settings) (source : Source) (log : List ReceivedSignal)
    (s₀ : Subscriber C) (p : Pages C) : Type 0 where
  pub done : List ReceivedSignal
  pub split : done ++ above p.sub.position log ≡ above s₀.position log
  pub counted : p.count ≡ length done
  pub position : p.sub.position ≡ last_sequence s₀.position done
  pub did : doings p.sub.trace ≡ doings s₀.trace ++ handed set source done

pub last-append :
    (n : ℕ) (xs ys : List ReceivedSignal)
    → last_sequence n (xs ++ ys) ≡ last_sequence (last_sequence n xs) ys
unfolding last_sequence
last-append n [] ys = refl
last-append n (r ∷ xs) ys = last-append r.sequence xs ys

module _ {C : Type 0} (set : Settings) (source : Source) (log : List ReceivedSignal) (first : ℕ)
    (rising : Rising first log) (s₀ : Subscriber C) where
  -- One more page.
  further :
      (p : Pages C) (s : Subscriber C) (rows : List ReceivedSignal) (s' : Subscriber C)
      → Reached set source log s₀ p
      → Idle p.sub s
      → rows ≡ take set.page_size (above s.position log)
      → Handing set source rows s s'
      → Reached set source log s₀ (record { count = p.count + length rows; sub = s' })
  further p s rows s' h i e k =
      let rest : rows ++ above s'.position log ≡ above p.sub.position log =
        page_rest first s.position set.page_size s'.position log rows rising e k.position
        ∙ ap (λ q. above q log) i.position in
      let counted : p.count + length rows ≡ length (h.done ++ rows) =
        omega (arith, h.counted, length-append h.done rows) in
      record {
        done = h.done ++ rows;
        split =
            append_assoc h.done rows (above s'.position log)
            ∙ ap (λ xs. h.done ++ xs) rest
            ∙ h.split;
        counted = counted;
        position =
            k.position
            ∙ ap (λ n. last_sequence n rows) (i.position ∙ h.position)
            ∙ sym (last-append s₀.position h.done rows);
        did =
            k.done
            ∙ ap (λ xs. xs ++ handed set source rows) (Idle-doings p.sub s i ∙ h.did)
            ∙ append_assoc (doings s₀.trace) (handed set source h.done) (handed set source rows)
            ∙ ap (λ xs. doings s₀.trace ++ xs) (sym (handed-append set source h.done rows));
      }

  pub start-Reached : Reached set source log s₀ (record { count = 0; sub = s₀ })
  unfolding last_sequence handed
  start-Reached = record {
    done = [];
    split = refl;
    counted = refl;
    position = refl;
    did = sym (append-nil (doings s₀.trace));
  }

  -- What holds where the loop returns: the whole log after the position is handed over.
  abbrev pub Caught : Result ℕ → Subscriber C → Type 0
  Caught r s =
      (n : ℕ)
      → r ≡ ok n
      → (n ≡ length (above s₀.position log)) × Handing set source (above s₀.position log) s₀ s

  -- A page that is not full was the last one.
  last-Caught :
      (p : Pages C) (s : Subscriber C) (rows : List ReceivedSignal) (s' : Subscriber C)
      → Reached set source log s₀ p
      → Idle p.sub s
      → rows ≡ take set.page_size (above s.position log)
      → Handing set source rows s s'
      → length rows < set.page_size
      → Caught (ok (p.count + length rows)) s'
  unfolding further
  last-Caught p s rows s' h i e k small n o =
      let whole : h.done ++ rows ≡ above s₀.position log =
        ap (λ xs. h.done ++ xs)
          (e
            ∙ take_short set.page_size (above s.position log)
                (subst (λ xs. length xs < set.page_size) e small)
            ∙ ap (λ q. above q log) i.position)
        ∙ h.split in
      let now = further p s rows s' h i e k in
      (
        cc (o, now.counted, whole),
        record {
          position = now.position ∙ ap (last_sequence s₀.position) whole;
          done = now.did ∙ ap (λ xs. doings s₀.trace ++ handed set source xs) whole;
        },
      )

module _ {C : Type 0} (cursors : CursorStore C) (out : Outside) (wire : Wire) (set : Settings)
    (attempts : ℕ) (source : Source) (log : List ReceivedSignal) (first : ℕ)
    (rising : Rising first log) (true_to : Truthful out wire set log)
    (free : (turn : ℕ) → out.stopped turn ≡ false) (s₀ : Subscriber C) where
  abbrev Goes : Next (Pages C) ℕ → Type 0
  Goes n =
      Leads (Reached set source log s₀) (λ r p. Caught set source log first rising s₀ r p.sub) n

  paged-Goes :
      (p : Pages C) (s : Subscriber C) (rows : List ReceivedSignal) (s' : Subscriber C)
      → Reached set source log s₀ p
      → Idle p.sub s
      → rows ≡ take set.page_size (above s.position log)
      → Handing set source rows s s'
      → Goes (page_done set.page_size (length rows) (false, p.count + length rows) s')
  paged-Goes p s rows s' h i e k = elim (Bool-cases (ltb (length rows) set.page_size)) [
    | inl small ↦ rw small (
        last-Caught set source log first rising s₀ p s rows s' h i e k
          (ltb→lt (length rows) set.page_size small))
    | inr full ↦ rw full (further set source log first rising s₀ p s rows s' h i e k)
  ]

  delivered-Goes :
      (p : Pages C) (s : Subscriber C) (rows : List ReceivedSignal)
      (o : Result (Bool × ℕ) × Subscriber C)
      → Reached set source log s₀ p
      → Idle p.sub s
      → rows ≡ take set.page_size (above s.position log)
      → Ends cursors out set source p.count rows s o
      → Goes (delivered_next cursors out wire set attempts (length rows) p.count o)
  delivered-Goes p s rows (ok b, s') h i e k =
      let (counted, handed_over) = k b refl in rw counted (paged-Goes p s rows s' h i e handed_over)
  delivered-Goes p s rows (raised x, s') h i e k = λ n f. cc
  delivered-Goes p s rows (unfinished, s') h i e k = λ n f. cc

  fetched-Goes :
      (p : Pages C) (since : ℕ) (o : Result (List ReceivedSignal) × Subscriber C)
      → Reached set source log s₀ p
      → Idle p.sub o.1
      → since ≡ o.1.position
      → Honest out wire since o.0
      → Goes (fetched_next cursors out wire set attempts source p.count o)
  fetched-Goes p since (ok rows, s) h i e k = elim (k rows refl) [
    | inl a ↦
        let page_is : rows ≡ take set.page_size (above s.position log) =
          true_to a.turn since a.reply rows a.answered a.status a.parsed
          ∙ ap (λ q. take set.page_size (above q log)) e in
        delivered-Goes p s rows (deliver_page cursors out set source rows p.count s) h i page_is (
          deliver_page-Ends cursors out set source rows p.count s free (
            rw page_is (
              take-Rising s.position set.page_size (above s.position log)
                (above-Rising first s.position log rising))))
    | inr (turn, halted) ↦ cc (halted, free turn)
  ]
  fetched-Goes p since (raised x, s') h i e k = λ n f. cc
  fetched-Goes p since (unfinished, s') h i e k = λ n f. cc

  page-Goes :
      (p : Pages C)
      → Reached set source log s₀ p
      → Goes (catch_up_page cursors out wire set attempts source p)
  unfolding catch_up_page
  page-Goes p h =
      let s = record p.sub { turn = suc p.sub.turn } in
      let o = fetch_page out wire set attempts s.position s in
      let i = fetch_page-Idle out wire set attempts s.position s in
      rw (free p.sub.turn) (
        fetched-Goes p s.position o h (Idle-trans (Idle-turn p.sub (suc p.sub.turn)) i)
          (sym i.position) (fetch_page-Honest out wire set attempts s.position s))

  -- Where the relay's pages are true to a log of strictly increasing sequences and no stop is asked
  -- for, a catch-up that returns has handed over exactly the log after the old position: each signal
  -- once and in order, the callback with what the unsealer makes of it and then the commit; it
  -- returns the number of these signals, and the position is the last one's sequence.
  pub catch_up-Caught :
      (fuel : ℕ)
      → Caught set source log first rising s₀
          (catch_up cursors out wire set attempts fuel source s₀).0
          (catch_up cursors out wire set attempts fuel source s₀).1
  unfolding catch_up
  catch_up-Caught fuel =
      loop_rule (Reached set source log s₀) (λ r p. Caught set source log first rising s₀ r p.sub)
        (catch_up_page cursors out wire set attempts source) page-Goes (λ p h n e. cc) fuel
        (record { count = 0; sub = s₀ }) (start-Reached set source log first rising s₀)
