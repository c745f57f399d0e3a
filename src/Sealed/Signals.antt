-- ===== src/Sealed/Signals.antt =====
-- From the publisher's `seal_signal` to the subscriber's `unseal_signal`.
use multiedge_relay_python.Prelude.{ℕ, All, List, Text, map, refl, some, ◌++◌, ◌∷◌, ◌≡◌, ◌≢◌}
use multiedge_relay_python.Prelude.Json.{Fields, Json, obj}
use multiedge_relay_python.Sealed.Keys.{
  RecipientKeypair, SenderKeypair, canonical_json, recipient_bundle, recipient_fingerprint,
  sender_bundle,
}
use multiedge_relay_python.Sealed.Registry.{seal_named, seal_signal, unseal_named, unseal_signal}
use multiedge_relay_python.Sealed.Entries.{ValidDraws, ValidRecipient, ValidSender}
use multiedge_relay_python.Models.{ReceivedSignal, Signal}
use multiedge_relay_python.Exec.{ok}
use multiedge_relay_python.Sealed.RoundTrip.{seal-unseal}
use multiedge_relay_python.Sealed.Primitives.{Laws, Primitives}
use multiedge_relay_python.Sealed.Seal.{Draws}

-- The relay's record of a published signal.
abbrev pub relayed : Signal → ReceivedSignal → ReceivedSignal
relayed signal received = record received {
  strategy_id = signal.strategy_id;
  payload = signal.payload;
  client_signal_id = signal.client_signal_id;
}

-- A signal with a key of its own, sealed for valid recipients of which none before `k` has `k`'s
-- fingerprint, and relayed with its strategy, its key and its payload unchanged: `seal_signal` returns
-- a signal that differs from the plain one in its payload only, and `unseal_signal` with `k`'s keys
-- and the sender's bundle returns the received signal with what `json` reads back from the payload.
pub seal_signal-unseal_signal :
    (p : Primitives) (laws : Laws p) (d : Draws) (fresh : ValidDraws p d) (sender : SenderKeypair)
    (sound : ValidSender p sender) (before after : List RecipientKeypair) (k : RecipientKeypair)
    → All (ValidRecipient p) before
    → ValidRecipient p k
    → All (ValidRecipient p) after
    → All (λ j. recipient_fingerprint p j ≢ recipient_fingerprint p k) before
    → (signal : Signal) (received : ReceivedSignal) (c : ℕ) (cs : Text) (back : Json)
    → signal.client_signal_id ≡ some (c ∷ cs)
    → p.loads (canonical_json p signal.payload) ≡ some back
    → (envelope : Fields) × (seal_signal p d
          (record { sender = sender; recipients = map (recipient_bundle p) (before ++ k ∷ after) })
          signal
        ≡ ok (record signal { payload = obj envelope }))
      × (unseal_signal p
            (record { recipient = k; sender_bundle = sender_bundle p sender })
            (relayed (record signal { payload = obj envelope }) received)
          ≡ ok (record (relayed signal received) { payload = back }))
unfolding seal_signal unseal_signal unseal_named seal_named
seal_signal-unseal_signal p laws d fresh sender sound before after k hb valid ha apart signal
      received c cs back named read_back =
    let (envelope, sealed, opened) =
      seal-unseal p laws d fresh sender sound before after k hb valid ha apart signal.payload back
        signal.strategy_id (c ∷ cs) read_back in
    (envelope, rw (named, sealed) refl, rw (named, opened) refl)
