-- ===== src/Examples/Auth/Facts.antt =====
-- What the sends of examples/tcp_auth/server/main.go leave as it was
use Prim.Native.String.{String}
use simple_message.Prelude.{
  ℕ, ◌≡◌, ◌⊎◌, inl, inr, Bool, true, false, List, [], ◌∷◌, ◌++◌, Option, none, some, string_eq,
  nat_eq, ◌||◌, arith,
}
use simple_message.Errors.{Error}
use simple_message.Connection.Properties.{load_property}
use simple_message.Examples.Auth.{
  AuthResponse, AuthSession, Peer, Reply, response, greeting, auth_key, send_msg, send_with,
  send_encoded, send_auth_response, refuse, msg_auth_resp,
}

abbrev pub session : Peer → Option AuthSession
session c = load_property auth_key c.properties

abbrev pub is_greeting : Reply → Bool
is_greeting (greeting u d) = true
is_greeting (response b) = false

unfoldable pub greets : List (ℕ × Reply) → Bool
greets [] = false
greets ((id, r) ∷ rs) = is_greeting r || greets rs

greets-append :
    (xs : List (ℕ × Reply)) (id : ℕ) (r : Reply)
    → greets (xs ++ (id, r) ∷ []) ≡ (greets xs || is_greeting r)
unfolding greets
greets-append [] id r = ground arith
greets-append ((i, x) ∷ xs) id r = ground (arith, greets-append xs id r)

send_with-facts :
    (id : ℕ) (r : Reply) (c : Peer) (fs : List (Option Error))
    → ((send_with id r c fs).1.properties ≡ c.properties)
      × ((send_with id r c fs).1.closed ≡ c.closed)
      × (greets (send_with id r c fs).1.outbox ≡ true
          → (greets c.outbox ≡ true) ⊎ (is_greeting r ≡ true))
unfolding send_with
send_with-facts id r c [] = ground (arith, greets-append c.outbox id r)
send_with-facts id r c (none ∷ fs) = ground (arith, greets-append c.outbox id r)
send_with-facts id r c (some e ∷ fs) = ground arith

pub send_msg-facts :
    (id : ℕ) (r : Reply) (c : Peer)
    → ((send_msg id r c).1.properties ≡ c.properties)
      × ((send_msg id r c).1.closed ≡ c.closed)
      × (greets (send_msg id r c).1.outbox ≡ true
          → (greets c.outbox ≡ true) ⊎ (is_greeting r ≡ true))
unfolding send_msg
send_msg-facts id r c = send_with-facts id r c c.results

encoded-facts :
    (x : List ℕ ⊎ Error) (c : Peer)
    → ((send_encoded x c).1.properties ≡ c.properties)
      × ((send_encoded x c).1.closed ≡ c.closed)
      × (greets (send_encoded x c).1.outbox ≡ true → greets c.outbox ≡ true)
unfolding send_encoded
encoded-facts (inl b) c = ground (arith, send_msg-facts msg_auth_resp (response b) c)
encoded-facts (inr e) c = ground arith

module _ (encode : AuthResponse → List ℕ ⊎ Error) where
  pub refuse-facts :
      (c : Peer) (m : String) (e : Error)
      → ((refuse encode c m e).0 ≡ some e)
        × ((refuse encode c m e).1.properties ≡ c.properties)
        × ((refuse encode c m e).1.closed ≡ true)
        × (greets (refuse encode c m e).1.outbox ≡ true → greets c.outbox ≡ true)
  unfolding refuse send_auth_response
  refuse-facts c m e =
      let x = encode (record { is_ok = false; message = m; user = "" }) in
      ground (arith, encoded-facts x c)

  pub answer-facts :
      (c : Peer) (m u : String)
      → let d = (send_auth_response encode c true m u).1 in
        (d.properties ≡ c.properties)
        × (d.closed ≡ c.closed)
        × (greets d.outbox ≡ true → greets c.outbox ≡ true)
  unfolding send_auth_response
  answer-facts c m u = encoded-facts (encode (record { is_ok = true; message = m; user = u })) c
