-- ===== src/Api/System/Drains.antt =====
-- How long the watcher looks for the payment of a session.
use lightining_pass.Base.{
  ℕ, ◌+◌, ◌≤◌, ◌≡◌, refl, arith, some, Text, text_eq, Bool-cases, inl, inr, List, [], ◌∷◌, All,
  subst,
}
use mathlib.Core.List.{Memᴰ}
use lightining_pass.Random.{Samples}
use lightining_pass.Stellar.Client.{Horizon}
use lightining_pass.Stellar.Provider.{StellarProvider, generate_memo}
use lightining_pass.Api.Env.{ApiEnv}
use lightining_pass.Api.Sessions.{
  SessionRecord, PaymentService, new_session, get, pending_sessions, settled,
}
use lightining_pass.Api.Sessions.Laws.{get-new_service, mem-pending_sessions_iff}
use lightining_pass.Api.Access.{AccessService}
use lightining_pass.Api.Routes.{CreatePaymentBody, request_expiry_secs}
use lightining_pass.Api.System.{
  Server, start, request, poll, visit, Step, requests, passes, polls, visits, Reach, here, next,
}
use lightining_pass.Api.System.Visits.{Visited, kept, paid, watch_session-Visited}
use lightining_pass.Api.System.Invariant.{id_of, IsQueued, Inv}
use lightining_pass.Api.System.Preserved.{get-request, made, Reach-Inv}

no_members : {A : Type 0} → (l : List A) → ((a : A) → ¬ Memᴰ a l) → l ≡ []
no_members [] h = refl
no_members (a ∷ l) h = absurd (h a (Memᴰ.head refl))

module _ (env : ApiEnv) (provider : StellarProvider) (access : AccessService env) where
  -- No stored request is open for longer than 900 seconds from now.
  abbrev IsShort : Server → Type 0
  IsShort w =
      (k : Text) (r : SessionRecord)
      → get w.service k ≡ some r
      → r.payment_request.expires_at ≤ w.now + request_expiry_secs

  start-IsShort : (ttl now : ℕ) → IsShort (start env provider access ttl now)
  unfolding start
  start-IsShort ttl now k r h = absurd (ground (arith, get-new_service ttl k))

  made_short :
      (body : CreatePaymentBody) (rng : Samples) (w : Server)
      → (made env provider access body rng w).payment_request.expires_at
        ≤ w.now + request_expiry_secs
  unfolding new_session
  made_short body rng w = ground arith

  request-IsShort :
      (body : CreatePaymentBody) (rng : Samples) (w : Server)
      → IsShort w
      → IsShort (request env provider access body rng w)
  unfolding request
  request-IsShort body rng w short k r h = elim (Bool-cases (text_eq (generate_memo rng) k)) [
    | inl same ↦
        let is_made : made env provider access body rng w ≡ r =
          ground (arith, get-request env provider access body rng w k) in
        subst (λ s. s.payment_request.expires_at ≤ w.now + request_expiry_secs) is_made
          (made_short body rng w)
    | inr other ↦ short k r (ground (arith, get-request env provider access body rng w k))
  ]

  Visited-IsShort :
      (horizon : Horizon) (rng : Samples) (s : SessionRecord) (service after : PaymentService)
      (until : ℕ)
      → get service (id_of s) ≡ some s
      → Visited env provider access horizon rng s service after
      → ((k : Text) (r : SessionRecord)
          → get service k ≡ some r
          → r.payment_request.expires_at ≤ until)
      → (k : Text) (r : SessionRecord) → get after k ≡ some r
      → r.payment_request.expires_at ≤ until
  unfolding settled
  Visited-IsShort horizon rng s service after until stored (kept e) short k r h =
      short k r (subst (λ x. get x k ≡ some r) e h)
  Visited-IsShort horizon rng s service after until stored (paid event a e issued gets) short k r
        h =
      elim (Bool-cases (text_eq (id_of s) k)) [
        | inl same ↦
            let is_s : settled s a ≡ r = ground (arith, gets k) in
            subst (λ x. x.payment_request.expires_at ≤ until) is_s (short (id_of s) s stored)
        | inr other ↦ short k r (ground (arith, gets k))
      ]

  Reach-IsShort :
      (ttl began : ℕ) {w : Server}
      → Reach env provider access (start env provider access ttl began) w
      → IsShort w
  Reach-IsShort ttl began here = start-IsShort ttl began
  Reach-IsShort ttl began (next {v} r st) =
      Step-IsShort st (Reach-Inv env provider access ttl began r) (Reach-IsShort ttl began r)
    where
      Step-IsShort :
          {w u : Server}
          → Step env provider access w u
          → Inv env provider access w
          → IsShort w
          → IsShort u
      Step-IsShort {w} (requests body rng fresh) v short = request-IsShort body rng w short
      Step-IsShort {w} (passes secs) v short = λ k r h. ground (arith, short k r h)
      Step-IsShort {w} (polls e) v short = unfold poll in short
      Step-IsShort {w} (visits horizon rng s rest e) v short =
          let queued = (subst (All (IsQueued env provider access w.service)) e v.queue).0 in
          unfold visit in
          Visited-IsShort horizon rng s w.service _ (w.now + request_expiry_secs) queued.stored
            (watch_session-Visited env provider access horizon rng s w.service queued.stored) short

  -- In a server that was reached from a fresh start, from 900 seconds after its clock on none of the
  -- stored sessions is pending: the watcher has none of them left to look for.
  pub pending_sessions_drained :
      (ttl began : ℕ) (w : Server)
      → Reach env provider access (start env provider access ttl began) w
      → (later : ℕ) → w.now + request_expiry_secs ≤ later
      → pending_sessions w.service later ≡ []
  pending_sessions_drained ttl began w reach later late =
      no_members (pending_sessions w.service later) none_open
    where
      none_open : (r : SessionRecord) → ¬ Memᴰ r (pending_sessions w.service later)
      none_open r m =
          let (k, found, unpaid, open_) = (mem-pending_sessions_iff w.service later r).0 m in
          let short = Reach-IsShort ttl began reach k r found in ground arith
