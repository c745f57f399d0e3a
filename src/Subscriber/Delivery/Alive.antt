-- ===== src/Subscriber/Delivery/Alive.antt =====
-- Where the callback returns and the cursor store takes every commit, a page's delivery returns.
use multiedge_relay_python.Prelude.{
  ℕ, Bool, List, Option, [], false, if◌then◌else◌, leb, none, refl, some, suc, true, ◌∷◌, ◌≡◌,
}
use multiedge_relay_python.Subscriber.Delivery.{
  attempt_callback, called_back, commit_cursor, commit_result, deliver, deliver_page, meta_of,
  move_to, unsealed,
}
use multiedge_relay_python.Subscriber.{CursorStore, Outside, Settings, Subscriber}
use multiedge_relay_python.Exec.{Result, ok, pure, raised, unfinished, ◌>>=◌}
use multiedge_relay_python.Errors.{Error}
use multiedge_relay_python.Models.{ReceivedSignal, SignalMeta, Source}

abbrev pub Returns {ℓ} : {A : Type ℓ} → Result A → Type ℓ
Returns {A = A} r = (a : A) × (r ≡ ok a)

-- The cursor store takes every commit.
abbrev pub Commits : {C : Type 0} → CursorStore C → Settings → Type 0
Commits {C = C} cursors set = (n : ℕ) (c : C) → (cursors.commit set.strategy_id n c).0 ≡ ok tt

module _ {C : Type 0} (cursors : CursorStore C) (out : Outside) (set : Settings)
    (free : (turn : ℕ) → out.stopped turn ≡ false) where
  commit_result-ok :
      (n : ℕ) (o : Result (Unit {0}) × C) (s : Subscriber C)
      → o.0 ≡ ok tt
      → (commit_result cursors out set n o s).0 ≡ ok tt
  unfolding commit_result
  commit_result-ok n (ok _, c) s e = refl
  commit_result-ok n (raised x, c) s e = cc
  commit_result-ok n (unfinished, c) s e = cc

  called_back-ok :
      (plain : ReceivedSignal) (meta : SignalMeta) (answer : Option Error) (s : Subscriber C)
      → Commits cursors set
      → answer ≡ none
      → ((called_back cursors out set plain meta answer >>= λ _.
            move_to cursors out set meta.sequence >>= λ _.
            commit_cursor cursors out set meta.sequence)
          s).0
        ≡ ok tt
  unfolding called_back move_to commit_cursor
  called_back-ok plain meta none s commits e =
      commit_result-ok meta.sequence (cursors.commit set.strategy_id meta.sequence s.store) _
        (commits meta.sequence s.store)
  called_back-ok plain meta (some x) s commits e = cc

  attempt_callback-ok :
      (original plain : ReceivedSignal) (meta : SignalMeta) (o : Result ReceivedSignal)
      (s : Subscriber C)
      → Commits cursors set
      → o ≡ ok plain
      → ((turn : ℕ) (r : ReceivedSignal) (m : SignalMeta) → out.callback turn r m ≡ none)
      → ((attempt_callback cursors out set original meta o >>= λ _.
            move_to cursors out set meta.sequence >>= λ _.
            commit_cursor cursors out set meta.sequence)
          s).0
        ≡ ok tt
  unfolding attempt_callback
  attempt_callback-ok original plain meta (ok r) s commits e callbacks =
      called_back-ok r meta (out.callback s.turn r meta) (record s { turn = suc s.turn }) commits
        (callbacks s.turn r meta)
  attempt_callback-ok original plain meta (raised x) s commits e callbacks = cc
  attempt_callback-ok original plain meta unfinished s commits e callbacks = cc

  module _
      (callbacks : (turn : ℕ) (r : ReceivedSignal) (meta : SignalMeta)
        → out.callback turn r meta ≡ none)
      (commits : Commits cursors set)
      (opens : (r : ReceivedSignal) → Returns (unsealed set.unsealer r)) where
    deliver-Returns :
        (r : ReceivedSignal) (source : Source) (s : Subscriber C)
        → (deliver cursors out set r source s).0 ≡ ok tt
    unfolding deliver meta_of
    deliver-Returns r source s =
        attempt_callback-ok r (opens r).0 (meta_of source r) (unsealed set.unsealer r) s commits
          (opens r).1 callbacks

    rest-Returns :
        (source : Source) (rows : List ReceivedSignal) (n : ℕ) (s t : Subscriber C)
        (o : Result (Unit {0}))
        → o ≡ ok tt
        → ((m : ℕ) (u : Subscriber C) → Returns (deliver_page cursors out set source rows m u).0)
        → Returns
            ((((λ (u : Subscriber C). (o, s)) >>= (λ _. pure (suc n))) >>= λ m.
                deliver_page cursors out set source rows m)
              t).0
    rest-Returns source rows n s t (ok _) e k = k (suc n) s
    rest-Returns source rows n s t (raised x) e k = cc
    rest-Returns source rows n s t unfinished e k = cc

    new-Returns :
        (r : ReceivedSignal) (source : Source) (rows : List ReceivedSignal) (n : ℕ)
        (s : Subscriber C) (old : Bool)
        → ((m : ℕ) (t : Subscriber C) → Returns (deliver_page cursors out set source rows m t).0)
        → Returns
            (((λ (t : Subscriber C).
                  (if old
                    then (ok n, t)
                    else (deliver cursors out set r source >>= λ _. pure (suc n)) t))
                >>= λ m. deliver_page cursors out set source rows m)
              s).0
    new-Returns r source rows n s true k = k n s
    new-Returns r source rows n s false k =
        rest-Returns source rows n (deliver cursors out set r source s).1 s
          (deliver cursors out set r source s).0 (deliver-Returns r source s) k

    pub deliver_page-Returns :
        (source : Source) (rows : List ReceivedSignal) (n : ℕ) (s : Subscriber C)
        → Returns (deliver_page cursors out set source rows n s).0
    unfolding deliver_page
    deliver_page-Returns source [] n s = ((false, n), refl)
    deliver_page-Returns source (r ∷ rows) n s = rw (free s.turn) (
        new-Returns r source rows n (record s { turn = suc s.turn }) (leb r.sequence s.position)
          (λ m t. deliver_page-Returns source rows m t))
