-- ===== src/Subscriber/Idle.antt =====
-- Steps of a subscriber that call nothing back, commit nothing and leave the position where it is.
use multiedge_relay_python.Prelude.{
  ℕ, All, All-append, Bool, List, [], ap, append-nil, append_assoc, false, refl, sym, true, ◌++◌,
  ◌∙◌, ◌∷◌, ◌≡◌,
}
use multiedge_relay_python.Exec.{Exec, Result, ok, raised, unfinished, ◌>>=◌}
use multiedge_relay_python.Subscriber.{
  Action, called, committed, notified, report, waited, Subscriber,
}
use multiedge_relay_python.Errors.{Error}

-- Neither a callback nor a commit.
abbrev pub IsAside : Action → Type 0
IsAside (called r meta) = ⊥
IsAside (committed n) = ⊥
IsAside (notified e) = Unit
IsAside (waited d) = Unit

pub record Idle {C : Type 0} (s s' : Subscriber C) : Type 0 where
  pub acts : List Action
  pub added : s'.trace ≡ s.trace ++ acts
  pub quiet : All IsAside acts
  pub position : s'.position ≡ s.position
  pub store : s'.store ≡ s.store
  pub started : s'.started ≡ s.started
  pub buffer : s'.buffer ≡ s.buffer

module _ {C : Type 0} where
  pub Idle-add :
      (s : Subscriber C) (turn : ℕ) (acts : List Action)
      → All IsAside acts
      → Idle s (record s { turn = turn; trace = s.trace ++ acts })
  Idle-add s turn acts quiet = record {
    acts = acts;
    added = refl;
    quiet = quiet;
    position = refl;
    store = refl;
    started = refl;
    buffer = refl;
  }

  pub Idle-turn : (s : Subscriber C) (turn : ℕ) → Idle s (record s { turn = turn })
  Idle-turn s turn = record {
    acts = [];
    added = sym (append-nil s.trace);
    quiet = tt;
    position = refl;
    store = refl;
    started = refl;
    buffer = refl;
  }

  pub Idle-trans : {s t u : Subscriber C} → Idle s t → Idle t u → Idle s u
  Idle-trans {s} p q = record {
    acts = p.acts ++ q.acts;
    added = q.added ∙ ap (λ xs. xs ++ q.acts) p.added ∙ append_assoc s.trace p.acts q.acts;
    quiet = All-append IsAside p.acts q.acts p.quiet q.quiet;
    position = q.position ∙ p.position;
    store = q.store ∙ p.store;
    started = q.started ∙ p.started;
    buffer = q.buffer ∙ p.buffer;
  }

  -- A block of two parts that are both idle.
  pub Idle-bind :
      {A B : Type 0} (f : A → Exec (Subscriber C) B) (s s₁ t : Subscriber C) (r : Result A)
      → Idle s s₁
      → ((a : A) (s₂ : Subscriber C) → Idle s₂ (f a s₂).1)
      → Idle s (((λ (u : Subscriber C). (r, s₁)) >>= f) t).1
  Idle-bind f s s₁ t (ok a) p k = Idle-trans p (k a s₁)
  Idle-bind f s s₁ t (raised e) p k = p
  Idle-bind f s s₁ t unfinished p k = p

  pub Idle-report :
      (on_error : Bool) (e : Error) (s : Subscriber C) → Idle s (report on_error e s).1
  Idle-report true e s = Idle-add s s.turn (notified e ∷ []) (tt, tt)
  Idle-report false e s = Idle-add s s.turn [] tt
