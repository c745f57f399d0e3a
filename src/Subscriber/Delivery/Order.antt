-- ===== src/Subscriber/Delivery/Order.antt =====
-- A delivery calls back before it commits, and a page is delivered in increasing sequence.
use multiedge_relay_python.Prelude.{
  ℕ, Bool-cases, List, Option, [], append_assoc, false, inl, inr, leb, leb→lt, none, refl, some,
  suc, true, ◌++◌, ◌<◌, ◌∷◌, ap, ◌∙◌, ◌≡◌, ◌⊎◌, Option-cases, ◌≢◌,
}
use multiedge_relay_python.Subscriber.Delivery.{
  attempt_callback, called_back, commit_cursor, commit_result, deliver, deliver_new, deliver_page,
  meta_of, move_to, unsealed,
}
use multiedge_relay_python.Subscriber.Order.{
  Progress, bind-Progress, call, idle-Progress, reported-Progress, still, then-Progress, settle,
}
use multiedge_relay_python.Subscriber.{
  CursorStore, Outside, Settings, Subscriber, called, committed, reported,
}
use multiedge_relay_python.Models.{ReceivedSignal, SignalMeta, Source}
use multiedge_relay_python.Exec.{Result, ok, raised, unfinished, ◌>>=◌}
use multiedge_relay_python.Errors.{Error}

module _ {C : Type 0} (cursors : CursorStore C) (out : Outside) (set : Settings) where
  -- What a callback that has returned leaves to the commit.
  committed-Progress :
      (r : ReceivedSignal) (meta : SignalMeta) (o : Result (Unit {0}) × C) (s : Subscriber C)
      → s.position < meta.sequence
      → let s₁ = record s { trace = s.trace ++ called r meta ∷ []; position = meta.sequence } in
        Progress s
          (commit_result cursors out set meta.sequence o s₁).0
          (commit_result cursors out set meta.sequence o s₁).1
  unfolding commit_result
  committed-Progress r meta (ok _, c) s h = record {
    acts = called r meta ∷ committed meta.sequence ∷ [];
    pending = false;
    added = append_assoc s.trace (called r meta ∷ []) (committed meta.sequence ∷ []);
    log = call h (settle still);
    settled = λ a e. refl;
  }
  committed-Progress r meta (raised e, c) s h = record {
    acts = called r meta ∷ [];
    pending = true;
    added = refl;
    log = call h still;
    settled = λ a e. cc;
  }
  committed-Progress r meta (unfinished, c) s h = record {
    acts = called r meta ∷ [];
    pending = true;
    added = refl;
    log = call h still;
    settled = λ a e. cc;
  }

  answered-Progress :
      (original plain : ReceivedSignal) (source : Source) (answer : Option Error) (s : Subscriber C)
      → s.position < original.sequence
      → let act = called_back cursors out set plain (meta_of source original) answer >>= λ _.
          move_to cursors out set original.sequence >>= λ _.
          commit_cursor cursors out set original.sequence in
        Progress s (act s).0 (act s).1
  unfolding called_back move_to commit_cursor meta_of
  answered-Progress original plain source none s h =
      committed-Progress plain (meta_of source original)
        (cursors.commit set.strategy_id original.sequence s.store) s h
  answered-Progress original plain source (some e) s h =
      reported-Progress (raised e) set.on_error e s

  unsealed-Progress :
      (original : ReceivedSignal) (source : Source) (r : Result ReceivedSignal) (s : Subscriber C)
      → s.position < original.sequence
      → let act = attempt_callback cursors out set original (meta_of source original) r >>= λ _.
          move_to cursors out set original.sequence >>= λ _.
          commit_cursor cursors out set original.sequence in
        Progress s (act s).0 (act s).1
  unfolding attempt_callback
  unsealed-Progress original source (ok plain) s h =
      then-Progress tt _ s (record s { turn = suc s.turn }) _ (idle-Progress (ok tt) s _ refl refl)
        (answered-Progress original plain source
          (out.callback s.turn plain (meta_of source original)) (record s { turn = suc s.turn }) h)
  unsealed-Progress original source (raised e) s h = reported-Progress (raised e) set.on_error e s
  unsealed-Progress original source unfinished s h = idle-Progress unfinished s s refl refl

  pub deliver-Progress :
      (r : ReceivedSignal) (source : Source) (s : Subscriber C)
      → s.position < r.sequence
      → Progress s (deliver cursors out set r source s).0 (deliver cursors out set r source s).1
  unfolding deliver
  deliver-Progress r source s h = unsealed-Progress r source (unsealed set.unsealer r) s h

  new-Progress :
      (r : ReceivedSignal) (source : Source) (n : ℕ) (s : Subscriber C)
      → Progress s
          (deliver_new cursors out set r source n s).0
          (deliver_new cursors out set r source n s).1
  new-Progress r source n s = elim (Bool-cases (leb r.sequence s.position)) [
    | inl old ↦ rw old (idle-Progress (ok n) s s refl refl)
    | inr new ↦ rw new (
        bind-Progress _ s _ s _ (deliver-Progress r source s (leb→lt r.sequence s.position new))
          (λ _ s₁. idle-Progress (ok (suc n)) s₁ s₁ refl refl))
  ]

  pub deliver_page-Progress :
      (source : Source) (rows : List ReceivedSignal) (n : ℕ) (s : Subscriber C)
      → Progress s
          (deliver_page cursors out set source rows n s).0
          (deliver_page cursors out set source rows n s).1
  unfolding deliver_page
  deliver_page-Progress source [] n s = idle-Progress _ s s refl refl
  deliver_page-Progress source (r ∷ rows) n s = elim (Bool-cases (out.stopped s.turn)) [
    | inl halted ↦ rw halted (idle-Progress _ s _ refl refl)
    | inr goes_on ↦ rw goes_on (
        let s₁ = record s { turn = suc s.turn } in
        then-Progress tt _ s s₁ _ (idle-Progress (ok tt) s s₁ refl refl) (
          bind-Progress _ s₁ _ s₁ _ (new-Progress r source n s₁)
            (λ m s₂. deliver_page-Progress source rows m s₂)))
  ]

unsealed-ends :
    (u : Option (ReceivedSignal → Option ReceivedSignal)) (r : ReceivedSignal)
    → unsealed u r ≢ unfinished
unfolding unsealed
unsealed-ends none r = λ e. cc
unsealed-ends (some unseal) r = elim (Option-cases (unseal r)) [
  | inl shut ↦ rw shut (λ e. cc)
  | inr (plain, opened) ↦ rw opened (λ e. cc)
]

module _ {C : Type 0} (cursors : CursorStore C) (out : Outside) (set : Settings)
    (r : ReceivedSignal) (source : Source) (s : Subscriber C) where
  -- By how a delivery ends. The second kind of error is that of the commit.
  abbrev pub Handled : Result (Unit {0}) → Subscriber C → Type 0
  Handled (ok _) s' =
      (plain : ReceivedSignal) × (unsealed set.unsealer r ≡ ok plain)
      × (s'.trace ≡ s.trace ++ called plain (meta_of source r) ∷ committed r.sequence ∷ [])
      × (s'.position ≡ r.sequence)
  Handled (raised e) s' =
      ((s'.trace ≡ s.trace ++ reported set.on_error e)
        × (s'.position ≡ s.position)
        × (s'.store ≡ s.store))
      ⊎ ((plain : ReceivedSignal) × (unsealed set.unsealer r ≡ ok plain)
          × (s'.trace ≡ s.trace ++ called plain (meta_of source r) ∷ [])
          × (s'.position ≡ r.sequence))
  Handled unfinished s' =
      (plain : ReceivedSignal) × (unsealed set.unsealer r ≡ ok plain)
      × (s'.trace ≡ s.trace ++ called plain (meta_of source r) ∷ [])
      × (s'.position ≡ r.sequence)

  commit-Handled :
      (plain : ReceivedSignal) (o : Result (Unit {0}) × C) (s₁ : Subscriber C)
      → unsealed set.unsealer r ≡ ok plain
      → s₁.trace ≡ s.trace ++ called plain (meta_of source r) ∷ []
      → s₁.position ≡ r.sequence
      → Handled
          (commit_result cursors out set r.sequence o s₁).0
          (commit_result cursors out set r.sequence o s₁).1
  unfolding commit_result
  commit-Handled plain (ok _, c) s₁ u h e = (
    plain,
    u,
    ap (λ xs. xs ++ committed r.sequence ∷ []) h
        ∙ append_assoc s.trace (called plain (meta_of source r) ∷ []) (committed r.sequence ∷ []),
    e,
  )
  commit-Handled plain (raised x, c) s₁ u h e = inr (plain, u, h, e)
  commit-Handled plain (unfinished, c) s₁ u h e = (plain, u, h, e)

  answered-Handled :
      (plain : ReceivedSignal) (answer : Option Error) (s₁ : Subscriber C)
      → unsealed set.unsealer r ≡ ok plain
      → s₁.trace ≡ s.trace
      → s₁.position ≡ s.position
      → s₁.store ≡ s.store
      → let act = called_back cursors out set plain (meta_of source r) answer >>= λ _.
          move_to cursors out set r.sequence >>= λ _. commit_cursor cursors out set r.sequence in
        Handled (act s₁).0 (act s₁).1
  unfolding called_back move_to commit_cursor
  answered-Handled plain none s₁ u h e f =
      commit-Handled plain (cursors.commit set.strategy_id r.sequence s₁.store) _ u
        (ap (λ xs. xs ++ called plain (meta_of source r) ∷ []) h) refl
  answered-Handled plain (some x) s₁ u h e f =
      inl (ap (λ xs. xs ++ reported set.on_error x) h, e, f)

  unsealed-Handled :
      (o : Result ReceivedSignal)
      → unsealed set.unsealer r ≡ o
      → o ≢ unfinished
      → let act = attempt_callback cursors out set r (meta_of source r) o >>= λ _.
          move_to cursors out set r.sequence >>= λ _. commit_cursor cursors out set r.sequence in
        Handled (act s).0 (act s).1
  unfolding attempt_callback
  unsealed-Handled (raised e) u h = inl (refl, refl, refl)
  unsealed-Handled (ok plain) u h =
      answered-Handled plain (out.callback s.turn plain (meta_of source r))
        (record s { turn = suc s.turn }) u refl refl refl
  unsealed-Handled unfinished u h = elim (h refl) [ ]

  -- Every end of a delivery: it returns after the callback and then the commit of the signal's
  -- sequence, which is the new position; or the unsealing or the callback raises, which is reported
  -- and leaves the position and the cursor store as they were; or the commit fails, after the callback.
  pub deliver-Handled :
      Handled (deliver cursors out set r source s).0 (deliver cursors out set r source s).1
  unfolding deliver
  deliver-Handled = unsealed-Handled (unsealed set.unsealer r) refl (unsealed-ends set.unsealer r)
