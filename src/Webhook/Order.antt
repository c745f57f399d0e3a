-- ===== src/Webhook/Order.antt =====
-- Nothing is accepted without its digest.
use multiedge_relay_python.Prelude.{ℕ, String, Text, some, ◌++◌, ◌≡◌, ◌≤◌}
use multiedge_relay_python.Prelude.Json.{Json}
use multiedge_relay_python.Exec.{ok}
use multiedge_relay_python.Webhook.{Crypto, Guard, open_with, resolve_hmac_key}
use multiedge_relay_python.Models.{ReceivedSignal}
use multiedge_relay_python.Prelude.Int.{ℤ}

-- A request was accepted: its timestamp is within the tolerance, the signature that it claims is the
-- digest of the timestamp and the body under the endpoint's key, and the signal is read from that body.
pub record IsAuthentic (c : Crypto) (g : Guard) (body : Text) (r : ReceivedSignal) : Type 0 where
  pub timestamp : ℤ
  pub age : ℕ
  pub dated : c.age g.now timestamp ≡ some age
  pub fresh : age ≤ g.max_age
  pub claimed : String
  pub signed : claimed ≡ c.digest (resolve_hmac_key c g.secret) (c.prefix timestamp ++ body)
  pub sent : ReceivedSignal
  pub parsed : c.signal_of body ≡ some sent
  pub opened : open_with g.unsealer sent ≡ ok r
