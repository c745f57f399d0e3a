-- ===== src/Subscriber/Order.antt =====
-- The order in which a subscriber calls back and commits, as a state machine over what it does.
use multiedge_relay_python.Prelude.{
  ℕ, Bool, List, [], ap, append-nil, append_assoc, false, refl, subst, sym, true, ◌++◌, ◌<◌, ◌∙◌,
  ◌∷◌, ◌≡◌, All,
}
use multiedge_relay_python.Subscriber.{
  Action, called, committed, notified, waited, Subscriber, reported,
}
use multiedge_relay_python.Exec.{Exec, Result, ok, raised, unfinished, ◌>>=◌}
use multiedge_relay_python.Models.{ReceivedSignal, SignalMeta}
use multiedge_relay_python.Errors.{Error}
use multiedge_relay_python.Subscriber.Idle.{Idle, Idle-report, IsAside}

-- From a position to a position, with whether the last callback is still to be committed: a callback
-- comes only for a later sequence and only when nothing is uncommitted, and a commit is of the
-- sequence that was called back last.
pub data Log : ℕ → Bool → List Action → ℕ → Bool → Type 0 where
  still : {p : ℕ} {b : Bool} → Log p b [] p b
  aside :
      {p q : ℕ} {b c : Bool} {e : Error} {acts : List Action}
      → Log p b acts q c
      → Log p b (notified e ∷ acts) q c
  pause :
      {p q d : ℕ} {b c : Bool} {acts : List Action}
      → Log p b acts q c
      → Log p b (waited d ∷ acts) q c
  call :
      {p q : ℕ} {c : Bool} {r : ReceivedSignal} {meta : SignalMeta} {acts : List Action}
      → p < meta.sequence
      → Log meta.sequence true acts q c
      → Log p false (called r meta ∷ acts) q c
  settle :
      {p q : ℕ} {c : Bool} {acts : List Action}
      → Log p false acts q c
      → Log p true (committed p ∷ acts) q c

pub Log-append :
    {p q r : ℕ} {b c d : Bool} {xs ys : List Action}
    → Log p b xs q c
    → Log q c ys r d
    → Log p b (xs ++ ys) r d
Log-append still l = l
Log-append (aside k) l = aside (Log-append k l)
Log-append (pause k) l = pause (Log-append k l)
Log-append (call h k) l = call h (Log-append k l)
Log-append (settle k) l = settle (Log-append k l)

-- Reports and waits make no progress.
pub quiet-Log : (p : ℕ) (b : Bool) (acts : List Action) → All IsAside acts → Log p b acts p b
quiet-Log p b [] h = still
quiet-Log p b (called r meta ∷ acts) h = elim h.0 [ ]
quiet-Log p b (committed n ∷ acts) h = elim h.0 [ ]
quiet-Log p b (notified e ∷ acts) h = aside (quiet-Log p b acts h.1)
quiet-Log p b (waited d ∷ acts) h = pause (quiet-Log p b acts h.1)

-- What a method has added to the trace; where it returns, nothing is uncommitted.
pub record Progress {C A : Type 0} (s : Subscriber C) (r : Result A) (s' : Subscriber C)
    : Type 0 where
  pub acts : List Action
  pub pending : Bool
  pub added : s'.trace ≡ s.trace ++ acts
  pub log : Log s.position false acts s'.position pending
  pub settled : (a : A) → r ≡ ok a → pending ≡ false

module _ {C : Type 0} where
  -- A step that neither moves nor does anything.
  pub idle-Progress :
      {A : Type 0} (r : Result A) (s s' : Subscriber C)
      → s'.trace ≡ s.trace
      → s'.position ≡ s.position
      → Progress s r s'
  idle-Progress r s s' same still_there = record {
    acts = [];
    pending = false;
    added = same ∙ sym (append-nil s.trace);
    log = rw still_there still;
    settled = λ a e. refl;
  }

  pub then-Progress :
      {A B : Type 0} (a : A) (r : Result B) (s s₁ s₂ : Subscriber C)
      → Progress s (ok a) s₁
      → Progress s₁ r s₂
      → Progress s r s₂
  then-Progress a r s s₁ s₂ p q = record {
    acts = p.acts ++ q.acts;
    pending = q.pending;
    added = q.added ∙ ap (λ xs. xs ++ q.acts) p.added ∙ append_assoc s.trace p.acts q.acts;
    log =
        Log-append (subst (λ b. Log s.position false p.acts s₁.position b) (p.settled a refl) p.log)
          q.log;
    settled = q.settled;
  }

  pub bind-Progress :
      {A B : Type 0} (f : A → Exec (Subscriber C) B) (s s₁ t : Subscriber C) (r : Result A)
      → Progress s r s₁
      → ((a : A) (s₂ : Subscriber C) → Progress s₂ (f a s₂).0 (f a s₂).1)
      → let out = ((λ (u : Subscriber C). (r, s₁)) >>= f) t in Progress s out.0 out.1
  bind-Progress f s s₁ t (ok a) p k = then-Progress a (f a s₁).0 s s₁ (f a s₁).1 p (k a s₁)
  bind-Progress f s s₁ t (raised e) p k = record {
    acts = p.acts;
    pending = p.pending;
    added = p.added;
    log = p.log;
    settled = λ a h. cc;
  }
  bind-Progress f s s₁ t unfinished p k = record {
    acts = p.acts;
    pending = p.pending;
    added = p.added;
    log = p.log;
    settled = λ a h. cc;
  }

  pub Idle-Progress :
      {A : Type 0} (r : Result A) (s s' : Subscriber C) → Idle s s' → Progress s r s'
  Idle-Progress r s s' i = record {
    acts = i.acts;
    pending = false;
    added = i.added;
    log = rw i.position (quiet-Log s.position false i.acts i.quiet);
    settled = λ a h. refl;
  }

  pub reported-Progress :
      {A : Type 0} (r : Result A) (on_error : Bool) (e : Error) (s : Subscriber C)
      → Progress s r (record s { trace = s.trace ++ reported on_error e })
  reported-Progress r on_error e s = Idle-Progress r s _ (Idle-report on_error e s)

  -- The same step with another result, where that one settles as well.
  pub with_result :
      {A B : Type 0} {r : Result A} (r' : Result B) {s s' : Subscriber C} (k : Progress s r s')
      → ((b : B) → r' ≡ ok b → k.pending ≡ false)
      → Progress s r' s'
  with_result r' k settled = record {
    acts = k.acts;
    pending = k.pending;
    added = k.added;
    log = k.log;
    settled = settled;
  }
