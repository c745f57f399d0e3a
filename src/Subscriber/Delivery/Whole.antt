-- ===== src/Subscriber/Delivery/Whole.antt =====
-- What a delivery that returns has done, as a function of the signals alone.
use multiedge_relay_python.Prelude.{
  ℕ, All, Bool, List, [], ap, append-nil, append_assoc, false, length, refl, sym, ◌++◌, ◌+◌, ◌∙◌,
  ◌∷◌, ◌≡◌, arith, lt→leb, suc, if◌then◌else◌, leb, true,
}
use multiedge_relay_python.Exec.{Result, ok, raised, unfinished, pure, ◌>>=◌}
use multiedge_relay_python.Subscriber.Delivery.{
  deliver_page, last_sequence, meta_of, unsealed, deliver,
}
use multiedge_relay_python.Models.{ReceivedSignal, SignalMeta, Source}
use multiedge_relay_python.Subscriber.Delivery.Order.{Handled, deliver-Handled}
use multiedge_relay_python.Subscriber.Backlog.{Rising}
use multiedge_relay_python.Subscriber.Idle.{Idle, IsAside}
use multiedge_relay_python.Subscriber.{
  Action, CursorStore, Outside, Settings, Subscriber, called, committed, notified, waited,
}

-- The callbacks and the commits of a trace.
unfoldable pub doings : List Action → List Action
doings [] = []
doings (called r meta ∷ acts) = called r meta ∷ doings acts
doings (committed n ∷ acts) = committed n ∷ doings acts
doings (notified e ∷ acts) = doings acts
doings (waited d ∷ acts) = doings acts

pub doings-append : (xs ys : List Action) → doings (xs ++ ys) ≡ doings xs ++ doings ys
unfolding doings
doings-append [] ys = refl
doings-append (called r meta ∷ xs) ys = ap (λ zs. called r meta ∷ zs) (doings-append xs ys)
doings-append (committed n ∷ xs) ys = ap (λ zs. committed n ∷ zs) (doings-append xs ys)
doings-append (notified e ∷ xs) ys = doings-append xs ys
doings-append (waited d ∷ xs) ys = doings-append xs ys

quiet-doings : (xs : List Action) → All IsAside xs → doings xs ≡ []
unfolding doings
quiet-doings [] h = refl
quiet-doings (called r meta ∷ xs) h = elim h.0 [ ]
quiet-doings (committed n ∷ xs) h = elim h.0 [ ]
quiet-doings (notified e ∷ xs) h = quiet-doings xs h.1
quiet-doings (waited d ∷ xs) h = quiet-doings xs h.1

pub Idle-doings : {C : Type 0} (s s' : Subscriber C) → Idle s s' → doings s'.trace ≡ doings s.trace
Idle-doings s s' i =
    ap doings i.added
    ∙ doings-append s.trace i.acts
    ∙ ap (λ xs. doings s.trace ++ xs) (quiet-doings i.acts i.quiet)
    ∙ append-nil (doings s.trace)

-- The callback with the signal as the unsealer opens it, then the commit.
unfoldable pub told : SignalMeta → Result ReceivedSignal → List Action
told meta (ok plain) = called plain meta ∷ committed meta.sequence ∷ []
told meta _ = []

unfoldable pub handed : Settings → Source → List ReceivedSignal → List Action
unfolding told
handed set source [] = []
handed set source (r ∷ rs) =
    told (meta_of source r) (unsealed set.unsealer r) ++ handed set source rs

pub handed-append :
    (set : Settings) (source : Source) (xs ys : List ReceivedSignal)
    → handed set source (xs ++ ys) ≡ handed set source xs ++ handed set source ys
unfolding handed
handed-append set source [] ys = refl
handed-append set source (r ∷ xs) ys =
    ap (λ zs. told (meta_of source r) (unsealed set.unsealer r) ++ zs)
      (handed-append set source xs ys)
    ∙ sym (
        append_assoc (told (meta_of source r) (unsealed set.unsealer r)) (handed set source xs)
          (handed set source ys))

-- From `s` to `s'` the signals were all handed over.
pub record Handing {C : Type 0} (set : Settings) (source : Source) (rows : List ReceivedSignal)
    (s s' : Subscriber C) : Type 0 where
  pub position : s'.position ≡ last_sequence s.position rows
  pub done : doings s'.trace ≡ doings s.trace ++ handed set source rows

module _ {C : Type 0} (cursors : CursorStore C) (out : Outside) (set : Settings) where
  Handled-Handing :
      (r : ReceivedSignal) (source : Source) (s : Subscriber C) (o : Result (Unit {0}))
      (s' : Subscriber C)
      → Handled cursors out set r source s o s'
      → o ≡ ok tt
      → Handing set source (r ∷ []) s s'
  unfolding handed told doings last_sequence meta_of
  Handled-Handing r source s (ok _) s' (plain, opened, added, moved) e = record {
    position = moved;
    done = rw opened (ap doings added ∙ doings-append s.trace _);
  }
  Handled-Handing r source s (raised x) s' h e = cc
  Handled-Handing r source s unfinished s' h e = cc

  Handing-trans :
      (r : ReceivedSignal) (rows : List ReceivedSignal) (source : Source) (s t u : Subscriber C)
      → Handing set source (r ∷ []) s t
      → Handing set source rows t u
      → Handing set source (r ∷ rows) s u
  unfolding last_sequence
  Handing-trans r rows source s t u p q = record {
    position = q.position ∙ ap (λ n. last_sequence n rows) p.position;
    done =
        q.done
        ∙ ap (λ xs. xs ++ handed set source rows) p.done
        ∙ append_assoc (doings s.trace) (handed set source (r ∷ [])) (handed set source rows)
        ∙ ap (λ xs. doings s.trace ++ xs) (sym (handed-append set source (r ∷ []) rows));
  }

  abbrev pub Ends :
      Source → ℕ → List ReceivedSignal → Subscriber C → Result (Bool × ℕ) × Subscriber C → Type 0
  Ends source n rows s x =
      (b : Bool × ℕ) → x.0 ≡ ok b → (b ≡ (false, n + length rows)) × Handing set source rows s x.1

  rest-Ends :
      (r : ReceivedSignal) (source : Source) (rows : List ReceivedSignal) (n : ℕ)
      (s s₂ t : Subscriber C) (o : Result (Unit {0}))
      → (o ≡ ok tt → Handing set source (r ∷ []) s s₂)
      → ((s₂.position ≡ r.sequence)
          → Ends source (suc n) rows s₂ (deliver_page cursors out set source rows (suc n) s₂))
      → Ends source n (r ∷ rows) s (
          ((λ (u : Subscriber C). (o, s₂)) >>= (λ _. pure (suc n)) >>= λ m.
          deliver_page cursors out set source rows m)
            t)
  unfolding last_sequence
  rest-Ends r source rows n s s₂ t (ok _) p k b e =
      let (counted, q) = k (p refl).position b e in
      (counted ∙ ap (λ m. (false, m)) (omega arith), Handing-trans r rows source s s₂ _ (p refl) q)
  rest-Ends r source rows n s s₂ t (raised x) p k b e = cc
  rest-Ends r source rows n s s₂ t unfinished p k b e = cc

  empty-Ends : (source : Source) (n : ℕ) (s : Subscriber C) → Ends source n [] s (ok (false, n), s)
  unfolding handed last_sequence
  empty-Ends source n s b e = (
    ap (λ (r : Result (Bool × ℕ)). elim r [ ok x ↦ x | _ ↦ (false, n) ]) (sym e)
        ∙ ap (λ m. (false, m)) (omega arith),
    record { position = refl; done = sym (append-nil (doings s.trace)) },
  )

  next-Ends :
      (r : ReceivedSignal) (source : Source) (rows : List ReceivedSignal) (n : ℕ) (s : Subscriber C)
      (turn : ℕ) (o : Bool)
      → o ≡ false
      → ((m : ℕ) (t : Subscriber C)
          → (t.position ≡ r.sequence)
          → Ends source m rows t (deliver_page cursors out set source rows m t))
      → Ends source n (r ∷ rows) s (
          ((λ (t : Subscriber C).
                (if o
                  then (ok n, t)
                  else ((deliver cursors out set r source) >>= λ _. pure (suc n)) t))
              >>= λ m. deliver_page cursors out set source rows m)
            (record s { turn = turn }))
  next-Ends r source rows n s turn true e k = cc
  next-Ends r source rows n s turn false e k =
      let s₁ = record s { turn = turn } in
      rest-Ends r source rows n s (deliver cursors out set r source s₁).1 s₁
        (deliver cursors out set r source s₁).0
        (λ e.
          let h = Handled-Handing r source s₁ _ _ (deliver-Handled cursors out set r source s₁) e in
          record { position = h.position; done = h.done })
        (k (suc n) (deliver cursors out set r source s₁).1)

  -- A page that is delivered to its end, with no stop.
  pub deliver_page-Ends :
      (source : Source) (rows : List ReceivedSignal) (n : ℕ) (s : Subscriber C)
      → ((turn : ℕ) → out.stopped turn ≡ false)
      → Rising s.position rows
      → Ends source n rows s (deliver_page cursors out set source rows n s)
  unfolding deliver_page
  deliver_page-Ends source [] n s free rises = empty-Ends source n s
  deliver_page-Ends source (r ∷ rows) n s free rises = rw (free s.turn) (
      next-Ends r source rows n s (suc s.turn) (leb r.sequence s.position)
        (lt→leb r.sequence s.position rises.0)
        (λ m t moved. deliver_page-Ends source rows m t free (rw moved rises.1)))
