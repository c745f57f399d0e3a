-- ===== src/Sealed/Pinned.antt =====
-- What a pin guarantees whatever the relay serves.
use multiedge_relay_python.Prelude.{
  Bool-cases, List, String, Text, [], arith, eq_iff, inl, inr, map, some, str_eq, sym, true, ◌↔◌,
  ◌∷◌, ◌≡◌, ◌≢◌, Option, ap, none, refl, subst, ◌∙◌,
}
use mathlib.Core.List.{Memᴰ}
use mathlib.Core.List.Memᴰ
use multiedge_relay_python.Exec.Outcome.{demand, demand_ok, then_ok}
use multiedge_relay_python.Models.{ReceivedSignal}
use multiedge_relay_python.Prelude.Json.{Fields, get_field, obj, str}
use multiedge_relay_python.Sealed.Registry.{
  Sealer, Unsealer, check_pin, check_pins, contains, fetch_verified_bundles, includes, newest_of,
  same_set, sealer_from_relay, unseal_named, unseal_signal, unsealer_from_relay, new_sealer,
}
use multiedge_relay_python.Sealed.Primitives.{Primitives}
use multiedge_relay_python.World.{Reply}
use multiedge_relay_python.Sealed.Authentic.{Authentic, unseal-Authentic}
use multiedge_relay_python.Exec.{ok, raised, unfinished, Result}
use multiedge_relay_python.Errors.{key_pinning_error}
use multiedge_relay_python.Sealed.Keys.{RecipientKeypair, SenderKeypair, bundle_fingerprint}
use multiedge_relay_python.Sealed.Unseal.{unseal}

contains-Mem : (t : String) (ss : List String) → contains t ss ≡ true → Memᴰ t ss
contains-Mem t [] h = cc
contains-Mem t (s ∷ ss) h = elim (Bool-cases (str_eq s t)) [
  | inl here ↦ Memᴰ.head (sym ((eq_iff s t).0 here))
  | inr there ↦ Memᴰ.tail (contains-Mem t ss (rw there at h))
]

includes-Mem : (ss ts : List String) → includes ss ts ≡ true → (t : String) → Memᴰ t ts → Memᴰ t ss
includes-Mem ss [] h t i = elim i [ ]
includes-Mem ss (x ∷ ts) h t (Memᴰ.head same) =
    Memᴰ.cast same (contains-Mem x ss (ground (arith, h)))
includes-Mem ss (x ∷ ts) h t (Memᴰ.tail later) = includes-Mem ss ts (ground (arith, h)) t later

new_sealer_ok :
    (sender : SenderKeypair) (bundles : List Fields) (sealer : Sealer)
    → new_sealer sender bundles ≡ ok sealer
    → (sealer.sender ≡ sender) × (sealer.recipients ≡ bundles) × (bundles ≢ [])
unfolding new_sealer
new_sealer_ok sender [] sealer h = cc
new_sealer_ok sender (b ∷ bundles) sealer h = (cc h, cc h, λ e. cc)

-- Where a pin set is given, a signal is unsealed from the named key.
unseal_named-Authentic :
    (p : Primitives) (u : Unsealer) (received plain : ReceivedSignal) (o : Option Text)
    → unseal_named p u received o ≡ ok plain
    → (envelope : Fields) × (cid : Text) × (received.payload ≡ obj envelope)
      × (o ≡ some cid)
      × Authentic p envelope received.strategy_id cid u.sender_bundle plain.payload
unfolding unseal_named
unseal_named-Authentic p u received plain none h = cc
unseal_named-Authentic p u received plain (some []) h = cc
unseal_named-Authentic p u received plain (some (c ∷ cs)) h =
    let cid = c ∷ cs in
    let (payload, clear, made) =
      then_ok (unseal p received.payload received.strategy_id cid u.recipient u.sender_bundle) _
        h in
    let (envelope, from, authentic) =
      unseal-Authentic p received.payload received.strategy_id cid u.recipient u.sender_bundle
        payload clear in
    let same : payload ≡ plain.payload =
      ap
        (λ (r : Result ReceivedSignal). elim r [
          | ok x ↦ x.payload
          | raised e ↦ payload
          | unfinished ↦ payload
        ])
        made in
    (
      envelope,
      cid,
      from,
      refl,
      subst (λ y. Authentic p envelope received.strategy_id cid u.sender_bundle y) same authentic,
    )

-- Whatever the relay serves, a `Sealer` that `from_relay` returns under a pin set has some recipient,
-- and its recipients' fingerprints are the pinned ones: each of them is pinned, and each pin is one of
-- them.
pub sealer_from_relay-pinned :
    (p : Primitives) (pins : List String) (sender : SenderKeypair) (reply : Reply) (sealer : Sealer)
    → sealer_from_relay p (some pins) sender reply ≡ ok sealer
    → (sealer.sender ≡ sender)
      × (sealer.recipients ≢ [])
      × ((t : String) → Memᴰ t (map (bundle_fingerprint p) sealer.recipients) ↔ Memᴰ t pins)
unfolding sealer_from_relay check_pins same_set
sealer_from_relay-pinned p pins sender reply sealer h =
    let (bundles, _, h₁) = then_ok (fetch_verified_bundles p reply) _ h in
    let kids = map (bundle_fingerprint p) bundles in
    let (_, pinned, h₂) = then_ok (demand (same_set kids pins) key_pinning_error) _ h₁ in
    let (bound, listed, some_one) = new_sealer_ok sender bundles sealer h₂ in
    let same = demand_ok (same_set kids pins) key_pinning_error pinned in
    (
      bound,
      rw listed some_one,
      rw listed (λ t. (
        includes-Mem pins kids (ground (arith, same)) t,
        includes-Mem kids pins (ground (arith, same)) t,
      )),
    )

-- Whatever the relay serves, an `Unsealer` that `from_relay` returns under a pin gives out only payloads
-- whose envelope names the pinned fingerprint, and which are authentic by a bundle that hashes to it.
pub unsealer_from_relay-pinned :
    (p : Primitives) (pin : String) (k : RecipientKeypair) (reply : Reply) (u : Unsealer)
    (received plain : ReceivedSignal)
    → unsealer_from_relay p (some pin) k reply ≡ ok u
    → unseal_signal p u received ≡ ok plain
    → (envelope : Fields) × (cid : Text) × (received.payload ≡ obj envelope)
      × (received.client_signal_id ≡ some cid)
      × (get_field "sender_kid" envelope ≡ some (str pin))
      × (bundle_fingerprint p u.sender_bundle ≡ pin)
      × Authentic p envelope received.strategy_id cid u.sender_bundle plain.payload
unfolding unsealer_from_relay check_pin newest_of unseal_signal unseal_named
unsealer_from_relay-pinned p pin k reply u received plain h o =
    let (bundles, _, h₁) = then_ok (fetch_verified_bundles p reply) _ h in
    let (newest, _, h₂) = then_ok (newest_of bundles) _ h₁ in
    let test = str_eq (bundle_fingerprint p newest) pin in
    let (_, pinned, made) = then_ok (demand test key_pinning_error) _ h₂ in
    let held : newest ≡ u.sender_bundle =
      ap
        (λ (r : Result Unsealer). elim r [
          | ok x ↦ x.sender_bundle
          | raised e ↦ newest
          | unfinished ↦ newest
        ])
        made in
    let hashes : bundle_fingerprint p u.sender_bundle ≡ pin =
      ap (bundle_fingerprint p) (sym held)
      ∙ (eq_iff (bundle_fingerprint p newest) pin).0 (demand_ok test key_pinning_error pinned) in
    let (envelope, cid, from, named, authentic) =
      unseal_named-Authentic p u received plain received.client_signal_id o in
    (
      envelope,
      cid,
      from,
      named,
      authentic.sender ∙ ap (λ t. some (str t)) hashes,
      hashes,
      authentic,
    )
