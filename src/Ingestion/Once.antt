-- ===== src/Ingestion/Once.antt =====
-- What a webhook may write (src/ingestion/router.py).
use payment_recovery_engine.Prelude.{
  ℕ, ◌≤◌, String, Bool, true, false, Option, none, some, [], ◌∷◌, ◌++◌, ◌≡◌, ◌⊎◌, inl, inr, ◌≢◌,
  refl, arith, str_eq, eq_iff, not, if◌then◌else◌, Bool-cases,
}
use payment_recovery_engine.Ingestion.Receive.{
  Payload, Web, Request, WebhookEvent, Inbox, Response, accepted, forbidden, too_large,
  unauthorized, body_too_large, verify_webhook_signature, event_id_of, is_duplicate_event,
  is_handled, is_seen, new_processed, new_event, record_event, receive, max_body_bytes,
}

-- A request that was let in: its address is allowed, it is small, its signature is that of its
-- body under the secret, and its body is an object whose event had not been seen.
pub record IsGenuine (web : Web) (secret : String) (r : Request) (p : Payload) (s : Inbox)
    : Type 0 where
  pub from_gateway : r.ip_allowed ≡ true
  pub small : r.body_length ≤ max_body_bytes
  pub secret_set : str_eq secret "" ≡ false
  pub signed : web.hexdigest secret r.body ≡ r.signature
  pub parsed : web.loads r.body ≡ some p
  pub unseen : is_seen (event_id_of web r.body p) s.seen ≡ false

verified-signed :
    (web : Web) (body signature secret : String)
    → verify_webhook_signature web body signature secret ≡ true
    → (str_eq secret "" ≡ false) × (web.hexdigest secret body ≡ signature)
unfolding verify_webhook_signature
verified-signed web body signature secret h = elim (Bool-cases (str_eq secret "")) [
  | inl e ↦ ground (arith, e)
  | inr e ↦ (e, ground (arith, (eq_iff (web.hexdigest secret body) signature).0))
]

-- What an answer says of the tables after it and of what is started.
abbrev pub IsAnswer :
    (web : Web) (secret : String) (now fresh_id : ℕ) (r : Request) (s : Inbox)
    → Response × Inbox × Option WebhookEvent
    → Type 0
IsAnswer web secret now fresh_id r s (response, s', started) =
    ((s' ≡ s) × (started ≡ none) × (response ≢ accepted))
    ⊎ ((p : Payload) × IsGenuine web secret r p s
        × (response ≡ accepted)
        × (s'.seen ≡ s.seen ++ new_processed now (event_id_of web r.body p) ∷ [])
        × (s'.events ≡ s.events ++ new_event now fresh_id (event_id_of web r.body p) p ∷ [])
        × (started ≡ (
            if is_handled p.event
            then some (new_event now fresh_id (event_id_of web r.body p) p)
            else none)))

module _ (web : Web) (secret : String) (now fresh_id : ℕ) (r : Request) (s : Inbox) where
  record_event-IsAnswer :
      (parsed : Option Payload)
      → web.loads r.body ≡ parsed
      → r.ip_allowed ≡ true
      → r.body_length ≤ max_body_bytes
      → verify_webhook_signature web r.body r.signature secret ≡ true
      → IsAnswer web secret now fresh_id r s (record_event web now fresh_id r.body parsed s)
  unfolding record_event is_duplicate_event
  record_event-IsAnswer none e a b v = inl (refl, refl, λ q. cc)
  record_event-IsAnswer (some p) e a b v =
      let (secret_set, signed) = verified-signed web r.body r.signature secret v in
      elim (Bool-cases (is_seen (event_id_of web r.body p) s.seen)) [
        | inl d ↦ rw d (inl (refl, refl, λ q. cc))
        | inr d ↦ rw d (
            inr (
              p,
              record {
                from_gateway = a;
                small = b;
                secret_set = secret_set;
                signed = signed;
                parsed = e;
                unseen = d;
              },
              refl,
              refl,
              refl,
              refl,
            ))
      ]

  -- A guard that answers with a refusal, and one that refuses what it does not verify.
  refused_if :
      (b : Bool) (x : Response) (y : Response × Inbox × Option WebhookEvent)
      → x ≢ accepted
      → (b ≡ false → IsAnswer web secret now fresh_id r s y)
      → IsAnswer web secret now fresh_id r s (if b then (x, s, none) else y)
  refused_if true x y n h = inl (refl, refl, n)
  refused_if false x y n h = h refl

  taken_if :
      (b : Bool) (y : Response × Inbox × Option WebhookEvent)
      → (b ≡ true → IsAnswer web secret now fresh_id r s y)
      → IsAnswer web secret now fresh_id r s (if b then y else (unauthorized, s, none))
  taken_if true y h = h refl
  taken_if false y h = inl (refl, refl, λ q. cc)

  -- Either the tables stay as they are and nothing is started, or the request was genuine, its
  -- answer says so, and its event is stored unhandled and started if it is one that is handled.
  pub receive-IsAnswer : IsAnswer web secret now fresh_id r s (receive web secret now fresh_id r s)
  unfolding receive body_too_large
  receive-IsAnswer =
      refused_if (not r.ip_allowed) forbidden _ (λ q. cc)
        (λ a.
          refused_if (body_too_large r.content_length none) too_large _ (λ q. cc)
            (λ b.
              refused_if (body_too_large none (some r.body_length)) too_large _ (λ q. cc)
                (λ c.
                  refused_if (str_eq r.signature "") unauthorized _ (λ q. cc)
                    (λ d. taken_if (verify_webhook_signature web r.body r.signature secret) _ (λ v.
                      record_event-IsAnswer (web.loads r.body) refl (ground arith) (ground arith)
                        v)))))
