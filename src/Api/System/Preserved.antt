-- ===== src/Api/System/Preserved.antt =====
-- Every step of the server keeps the invariant.
use lightining_pass.Base.{
  ℕ, ◌≡◌, inl, inr, refl, arith, none, some, List, [], ◌∷◌, Text, text_eq, text_eq_iff,
  if◌then◌else◌, Bool-cases, All, filter_by-Once, All-of_mem, subst, sym,
}
use mathlib.Core.List.{Memᴰ}
use lightining_pass.Random.{Samples}
use lightining_pass.Stellar.Provider
use lightining_pass.Stellar.Provider.{
  StellarProvider, generate_memo, stellar_provider, find_confirmed_payment, payment_uri,
}
use mathlib.Core.Path.{subst₂}
use lightining_pass.Base.Dict
use lightining_pass.Api.Env.{ApiEnv}
use lightining_pass.Api.Sessions.{SessionRecord, new_session, get, pending_sessions, is_pending}
use lightining_pass.Api.Sessions.Laws.{get-insert_session, mem-pending_sessions_iff}
use lightining_pass.Api.Access.{AccessService}
use lightining_pass.Api.Routes.{
  CreatePaymentBody, create_payment_request, accept_request, with_defaults, request_expiry_secs,
}
use lightining_pass.Api.System.{
  Server, start, request, poll, Step, requests, passes, polls, visits, Reach, here, next,
}
use lightining_pass.Api.System.Visits.{visit-Inv}
use lightining_pass.Api.System.Invariant.{IsStored, IsQueued, id_of, Inv, start-Inv}

module _ (env : ApiEnv) (provider : StellarProvider) (access : AccessService env) where
  poll-Inv :
      (w : Server)
      → Inv env provider access w
      → Inv env provider access (poll env provider access w)
  unfolding poll
  poll-Inv w v = record {
    sessions = v.sessions;
    queue =
        All-of_mem (IsQueued env provider access w.service) (pending_sessions w.service w.now)
          pending;
    once =
        unfold pending_sessions get in
        filter_by-Once id_of (is_pending w.now) (Dict.values w.service.sessions)
          (Dict.values-Once' w.service.sessions id_of (λ k r h. (v.sessions k r h).id));
  }
    where
      pending :
          (r : SessionRecord)
          → Memᴰ r (pending_sessions w.service w.now)
          → IsQueued env provider access w.service r
      pending r m =
          let (k, found, unpaid, open_) = (mem-pending_sessions_iff w.service w.now r).0 m in
          record {
            stored =
                subst (λ (j : Text). get w.service j ≡ some r) (sym (v.sessions k r found).id)
                  found;
            unpaid = unpaid;
          }

  -- The session that a request makes.
  abbrev pub made : CreatePaymentBody → Samples → Server → SessionRecord
  made body rng w =
      new_session w.service
        (record {
          session_id = generate_memo rng;
          destination = provider.config.destination_address;
          amount = (with_defaults body).amount;
          asset = (with_defaults body).asset;
          memo = generate_memo rng;
          qr_payload = payment_uri provider (with_defaults body).amount (generate_memo rng);
          expires_at = 0;
        })
        request_expiry_secs (with_defaults body).event_id w.now

  pub get-request :
      (body : CreatePaymentBody) (rng : Samples) (w : Server) (k : Text)
      → get (request env provider access body rng w).service k
        ≡ (if text_eq (generate_memo rng) k then some (made body rng w) else get w.service k)
  unfolding request create_payment_request accept_request Provider.create_payment_request
  get-request body rng w k = get-insert_session w.service _ request_expiry_secs _ w.now k

  made-IsStored :
      (body : CreatePaymentBody) (rng : Samples) (w : Server)
      → IsStored env provider access w.seen (generate_memo rng) (made body rng w)
  unfolding new_session
  made-IsStored body rng w = record {
    id = refl;
    memo = refl;
    destination = refl;
    state =
        inl
          (record { unpaid = refl; no_tx = refl; no_token = refl; no_png = refl; no_ascii = refl });
  }

  made-IsStored' :
      (body : CreatePaymentBody) (rng : Samples) (w : Server)
      → Inv env provider access w
      → (k : Text) (r : SessionRecord)
      → get (request env provider access body rng w).service k ≡ some r
      → IsStored env provider access w.seen k r
  made-IsStored' body rng w v k r h = elim (Bool-cases (text_eq (generate_memo rng) k)) [
    | inl same ↦
        let is_made : made body rng w ≡ r = ground (arith, get-request body rng w k) in
        let is_id : generate_memo rng ≡ k = (text_eq_iff (generate_memo rng) k).0 same in
        subst₂ (IsStored env provider access w.seen) is_id is_made (made-IsStored body rng w)
    | inr other ↦ v.sessions k r (ground (arith, get-request body rng w k))
  ]

  -- A fresh session replaces none that is queued.
  request_queue :
      (body : CreatePaymentBody) (rng : Samples) (w : Server)
      → get w.service (generate_memo rng) ≡ none
      → (rs : List SessionRecord) → All (IsQueued env provider access w.service) rs
      → All (IsQueued env provider access (request env provider access body rng w).service) rs
  request_queue body rng w fresh [] h = tt
  request_queue body rng w fresh (r ∷ rs) (q, h) = (
    record {
      stored = ground (
        arith,
        get-request body rng w (id_of r),
        text_eq_iff (generate_memo rng) (id_of r),
        q.stored,
        fresh,
      );
      unpaid = q.unpaid;
    },
    request_queue body rng w fresh rs h,
  )

  request-Inv :
      (body : CreatePaymentBody) (rng : Samples) (w : Server)
      → get w.service (generate_memo rng) ≡ none
      → Inv env provider access w
      → Inv env provider access (request env provider access body rng w)
  unfolding request
  request-Inv body rng w fresh v = record {
    sessions = made-IsStored' body rng w v;
    queue = request_queue body rng w fresh w.queue v.queue;
    once = v.once;
  }

  -- Every step keeps the invariant.
  pub Step-Inv :
      {w u : Server}
      → Step env provider access w u
      → Inv env provider access w
      → Inv env provider access u
  Step-Inv {w} (requests body rng fresh) v = request-Inv body rng w fresh v
  Step-Inv (passes secs) v = record { sessions = v.sessions; queue = v.queue; once = v.once }
  Step-Inv {w} (polls e) v = poll-Inv w v
  Step-Inv {w} (visits horizon rng s rest e) v =
      visit-Inv env provider access horizon rng w s rest e v

  -- It holds after any steps from a fresh start.
  pub Reach-Inv :
      (ttl now : ℕ) {w : Server}
      → Reach env provider access (start env provider access ttl now) w
      → Inv env provider access w
  Reach-Inv ttl now here = start-Inv env provider access ttl now
  Reach-Inv ttl now (next r st) = Step-Inv st (Reach-Inv ttl now r)
