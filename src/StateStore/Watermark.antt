-- ===== src/StateStore/Watermark.antt =====
-- What the cursor commit does to the signals that are processed.
use multiedge_relay_python.Prelude.{
  ℕ, All, List, String, [], arith, eq_iff, false, if◌then◌else◌, leb, none, refl, some, str_eq,
  true, ◌&&◌, ◌<◌, ◌∷◌, ◌≡◌, ◌≤◌, Bool, Option, Bool-cases, inl, inr, subst, sym, ◌||◌,
}
use multiedge_relay_python.StateStore.{
  Around, Marker, Row, StateStore, begin, commit, commit_open, covered, delete_where, has_marker,
  is_processed, select_cursor, upsert, Tables, at_or_above, begin_if, delete_markers, rolled_back,
  write_cursor,
}
use multiedge_relay_python.Models.{ReceivedSignal}
use multiedge_relay_python.Exec.{◌>>=◌, ◌>>◌}

select_cursor-upsert :
    (id k : String) (n : ℕ) (rows : List Row)
    → select_cursor k (upsert id n rows) ≡ (if str_eq id k then some n else select_cursor k rows)
unfolding select_cursor upsert
select_cursor-upsert id k n [] = refl
select_cursor-upsert id k n (row ∷ rows) = ground (
  arith,
  eq_iff id k,
  eq_iff row.strategy_id k,
  eq_iff row.strategy_id id,
  select_cursor-upsert id k n rows,
)

-- The markers of a signal's id are its own: ids are globally unique.
abbrev pub IsOwn : ReceivedSignal → Marker → Type 0
IsOwn signal m =
    m.signal_id ≡ signal.signal_id
    → (m.strategy_id ≡ signal.strategy_id) × (m.number ≡ signal.sequence)

-- Deleting what a watermark covers loses the marker of a signal above it, or of another strategy, never.
has_marker-delete :
    (signal : ReceivedSignal) (id : String) (n : ℕ) (ms : List Marker)
    → All (IsOwn signal) ms
    → (str_eq signal.strategy_id id && leb signal.sequence n) ≡ false
    → has_marker signal.signal_id (delete_where (covered id n) ms) ≡ has_marker signal.signal_id ms
unfolding has_marker delete_where covered
has_marker-delete signal id n [] own h = refl
has_marker-delete signal id n (m ∷ ms) own h =
    ground
      (arith, eq_iff m.signal_id signal.signal_id, own.0, has_marker-delete signal id n ms own.1 h)

no_marker-delete :
    (key id : String) (n : ℕ) (ms : List Marker)
    → has_marker key ms ≡ false
    → has_marker key (delete_where (covered id n) ms) ≡ false
unfolding has_marker delete_where
no_marker-delete key id n [] h = refl
no_marker-delete key id n (m ∷ ms) h = ground (arith, no_marker-delete key id n ms)

risen :
    (has same : Bool) (o : Option ℕ) (number n : ℕ)
    → ((w : ℕ) → same ≡ true → o ≡ some w → w ≤ n)
    → (has || at_or_above number o) ≡ true
    → (has || at_or_above number (if same then some n else o)) ≡ true
unfolding at_or_above
risen true same o number n rises h = refl
risen false false o number n rises h = h
risen false true none number n rises h = cc
risen false true (some w) number n rises h = ground (arith, rises w refl refl)

module _ {U : Type 0} where
  commit_from :
      (id : String) (n : ℕ) (free : Bool) (o : Option (Tables U)) (s : StateStore U)
      → free ≡ true
      → o ≡ none
      → let act = begin_if free o >>= λ _. λ u.
        rolled_back ((write_cursor id n >> (delete_markers (covered id n) >> commit_open)) u) in
        (act s).1.tables ≡ record s.tables {
          cursors = upsert id n s.tables.cursors;
          processed = delete_where (covered id n) s.tables.processed;
        }
  unfolding begin_if write_cursor delete_markers commit_open
  commit_from id n true none s e e' = refl
  commit_from id n true (some t) s e e' = cc
  commit_from id n false o s e e' = cc

  commit-tables :
      (around : Around) (id : String) (n : ℕ) (s : StateStore U)
      → around.free s.turn ≡ true
      → s.saved ≡ none
      → (commit around id n s).1.tables ≡ record s.tables {
        cursors = upsert id n s.tables.cursors;
        processed = delete_where (covered id n) s.tables.processed;
      }
  unfolding commit begin
  commit-tables around id n s free h = commit_from id n (around.free s.turn) s.saved s free h

  -- A commit that does not lower the watermark of its strategy forgets nothing: whatever was
  -- processed is processed after it, where each marker of the signal's id is the signal's own, no
  -- transaction is open and the database is free.
  pub commit-is_processed :
      (around : Around) (id : String) (n : ℕ) (signal : ReceivedSignal) (s : StateStore U)
      → around.free s.turn ≡ true
      → s.saved ≡ none
      → All (IsOwn signal) s.tables.processed
      → ((w : ℕ) → select_cursor id s.tables.cursors ≡ some w → w ≤ n)
      → is_processed signal s.tables ≡ true
      → is_processed signal (commit around id n s).1.tables ≡ true
  unfolding is_processed at_or_above
  commit-is_processed around id n signal s free none_open own rises h =
      rw (commit-tables around id n s free none_open) (
        rw (select_cursor-upsert id signal.strategy_id n s.tables.cursors)
          (elim (Bool-cases (str_eq signal.strategy_id id && leb signal.sequence n)) [
            | inl low ↦ ground (arith, eq_iff id signal.strategy_id, eq_iff signal.strategy_id id)
            | inr high ↦ rw (has_marker-delete signal id n s.tables.processed own high) (
                risen (has_marker signal.signal_id s.tables.processed)
                  (str_eq id signal.strategy_id) (select_cursor signal.strategy_id s.tables.cursors)
                  signal.sequence n
                  (λ w same e.
                    let p : id ≡ signal.strategy_id =
                      ground (arith, eq_iff id signal.strategy_id) in
                    rises w (subst (λ k. select_cursor k s.tables.cursors ≡ some w) (sym p) e))
                  h)
          ]))

  -- A commit below a signal's sequence makes it unprocessed, where it has no marker, no transaction
  -- is open and the database is free; whether the watermark was above it before makes no
  -- difference.
  pub commit_below-is_processed :
      (around : Around) (n : ℕ) (signal : ReceivedSignal) (s : StateStore U)
      → around.free s.turn ≡ true
      → s.saved ≡ none
      → n < signal.sequence
      → has_marker signal.signal_id s.tables.processed ≡ false
      → is_processed signal (commit around signal.strategy_id n s).1.tables ≡ false
  unfolding is_processed at_or_above
  commit_below-is_processed around n signal s free none_open below unmarked =
      rw (commit-tables around signal.strategy_id n s free none_open) (
        rw (select_cursor-upsert signal.strategy_id signal.strategy_id n s.tables.cursors) (
          ground (
            arith,
            eq_iff signal.strategy_id signal.strategy_id,
            no_marker-delete signal.signal_id signal.strategy_id n s.tables.processed unmarked,
          )))
